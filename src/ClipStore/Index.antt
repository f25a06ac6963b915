-- ===== src/ClipStore/Index.antt =====
-- applets/clip_store/db_query.c: the hash index of the latest row of each key, with open addressing.
-- A bucket is `none` while its flag in `used` is 0.
pub mod Probe
pub mod Table
pub mod Write
pub mod Free
pub mod Capacity
pub mod Grow
pub mod Latest
pub mod Put
pub mod Load
use ws_pipeline_dispatcher.Prelude.{
  ℕ, zero, suc, ◌+◌, ◌*◌, ◌%◌, ◌^◌, ◌&&◌, Bool, true, false, List, [], ◌∷◌, Option, none, some, ltb,
  leb, ◌==◌, if◌then◌else◌, get_or, set, replicate, Bytes, equal,
}
use ws_pipeline_dispatcher.ClipStore.Answer.{Answer, ok, fails, stuck, ◌>>=◌}
use ws_pipeline_dispatcher.ClipStore.Row.{Row}
use ws_pipeline_dispatcher.ClipStore.Hash.{home_bucket, next_bucket}

-- `SIZE_MAX + 1`
abbrev pub u64 : ℕ
u64 = 2 ^ 64

abbrev pub Buckets : Type 0
Buckets = List (Option Row)

-- `rows[i]`, if `used[i]` is set
abbrev pub slot : Buckets → ℕ → Option Row
slot buckets i = get_or buckets i none

-- `row_index_t`
pub record RowIndex : Type 0 where
  pub buckets : Buckets
  pub len : ℕ
  pub cap : ℕ

-- `row_index_t rows = {0}`
abbrev pub zero_index : RowIndex
zero_index = record { buckets = []; len = 0; cap = 0 }

-- Which requests the allocator grants: for two arrays of buckets, and for the copies of a row's
-- strings.
pub record Allocator : Type 0 where
  pub grants_buckets : ℕ → Bool
  pub grants_copy : Row → Bool

abbrev initial_buckets : ℕ
initial_buckets = 64

-- The loop of `find_slot`, on the rounds left.
unfoldable pub probe : ℕ → Buckets → ℕ → Bytes → ℕ → Answer (Bool × ℕ)
probe zero buckets cap key idx = stuck
probe (suc rounds) buckets cap key idx = elim (slot buckets idx) [
  | none ↦ ok (false, idx)
  | some row ↦
      let rest = probe rounds buckets cap key (next_bucket idx cap) in
      if equal row.key key then ok (true, idx) else rest
]

-- `find_slot`: whether the key is there, and its bucket or the empty bucket where it belongs.
unfoldable pub find_slot : RowIndex → Bytes → Answer (Bool × ℕ)
find_slot index key = probe index.cap index.buckets index.cap key (home_bucket key index.cap)

-- `sizeof(row_t)`
abbrev pub row_size : ℕ
row_size = 24

-- `allocate_buckets`: `calloc` refuses an array whose size is over `size_t`.
unfoldable pub allocate_buckets : Allocator → ℕ → Answer RowIndex
allocate_buckets alloc cap =
    if ltb (cap * row_size) u64 && alloc.grants_buckets cap
    then ok (record { buckets = replicate cap none; len = 0; cap = cap })
    else fails

-- `while (next_len * 4 >= next_cap * 3) next_cap *= 2;`, on the rounds left.
unfoldable pub next_capacity : ℕ → ℕ → ℕ → Answer ℕ
next_capacity zero next_len next_cap = stuck
next_capacity (suc rounds) next_len next_cap =
    let rest = next_capacity rounds next_len (next_cap * 2 % u64) in
    if leb (next_cap * 3 % u64) (next_len * 4 % u64) then rest else ok next_cap

-- The loop that moves the rows of the old buckets into the grown index.
unfoldable pub move_rows : Buckets → RowIndex → Answer RowIndex
move_rows [] grown = ok grown
move_rows (none ∷ buckets) grown = move_rows buckets grown
move_rows (some row ∷ buckets) grown = do
  (found, idx) ← find_slot grown row.key
  move_rows buckets
      (record grown { buckets = set grown.buckets idx (some row); len = grown.len + 1 })

-- `row_index_grow`
unfoldable pub row_index_grow : Allocator → RowIndex → ℕ → Answer RowIndex
row_index_grow alloc index next_len = do
  next_cap ←
      next_capacity (next_len * 2 + 2) next_len
        (if index.cap == 0 then initial_buckets else index.cap)
  if next_cap == index.cap
      then ok index
      else do grown ← allocate_buckets alloc next_cap; move_rows index.buckets grown

-- `replace_row`, as the copy that it stores.
unfoldable pub replace_row : Allocator → Row → Answer Row
replace_row alloc row = if alloc.grants_copy row then ok row else fails

-- `row_index_put`
unfoldable pub row_index_put : Allocator → RowIndex → Row → Answer RowIndex
row_index_put alloc index row = do
  grown ← row_index_grow alloc index (index.len + 1)
  (found, idx) ← find_slot grown row.key
  copy ← replace_row alloc row
  ok (record grown {
    buckets = set grown.buckets idx (some copy);
    len = if found then grown.len else grown.len + 1;
  })

-- `row_index_get`
unfoldable pub row_index_get : RowIndex → Bytes → Answer (Option Row)
row_index_get index key =
    if index.cap == 0
    then ok none
    else do (found, idx) ← find_slot index key; ok (if found then slot index.buckets idx else none)

-- The loop of `load_latest_rows` over the lines of the file; `none` is a line that is no row.
unfoldable pub load_rows : Allocator → RowIndex → List (Option Row) → Answer RowIndex
load_rows alloc index [] = ok index
load_rows alloc index (none ∷ rows) = load_rows alloc index rows
load_rows alloc index (some row ∷ rows) = do
  index' ← row_index_put alloc index row
  load_rows alloc index' rows

-- `load_latest_rows`, from the rows of the lines; `reads` tells that `ferror` is 0 behind the loop.
unfoldable pub load_latest_rows : Allocator → Bool → List (Option Row) → Answer RowIndex
load_latest_rows alloc reads rows = do
  index ← load_rows alloc zero_index rows
  if reads then ok index else fails

-- `load_latest_row`
unfoldable pub load_latest_row : Allocator → Bool → List (Option Row) → Bytes → Answer (Option Row)
load_latest_row alloc reads rows key = do
  index ← load_latest_rows alloc reads rows
  found ← row_index_get index key
  elim found [ none ↦ ok none | some row ↦ do copy ← replace_row alloc row; ok (some copy) ]

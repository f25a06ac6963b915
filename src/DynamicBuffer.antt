-- ===== src/DynamicBuffer.antt =====
-- lib/dynamic_buffer.c: an append-only byte buffer with a latch for failures. A NULL buffer is left
-- out.
pub mod Writes
pub mod Reserve
pub mod Append
pub mod Chain
pub mod Tests
use ws_pipeline_dispatcher.Prelude.{
  ℕ, zero, suc, ◌+◌, ◌-◌, ◌*◌, ◌/◌, ◌%◌, ◌^◌, Bool, true, false, not, ◌&&◌, List, [], ◌∷◌, ◌++◌,
  Option, none, some, ltb, leb, ◌==◌, if◌then◌else◌, length, set, take, Bytes,
}

abbrev pub size_max : ℕ
size_max = 2 ^ 64 - 1

-- `dynamic_buffer_t`; the memory that `data` points to is a list of `cap` bytes, and NULL is `none`.
pub record DynamicBuffer : Type 0 where
  pub data_ : Option Bytes
  pub len : ℕ
  pub cap : ℕ
  pub failed : Bool

-- What a call returns: 0, or -1 with `errno`. `stuck` stands for a loop that outlives its rounds.
pub data Status : Type 0 where
  done einval eio eoverflow enomem stuck : Status

-- A return of 0.
abbrev pub is_done : Status → Bool
is_done done = true
is_done status = false

-- `realloc`: the sizes that are granted, and the bytes behind the old contents of a block.
pub record Heap : Type 0 where
  pub grants : ℕ → Bool
  pub junk : ℕ → ℕ

-- `n` bytes behind the first `i` of a block.
unfoldable pub junk_from : (ℕ → ℕ) → ℕ → ℕ → Bytes
junk_from junk i zero = []
junk_from junk i (suc n) = junk i ∷ junk_from junk (i + 1) n

abbrev pub old_block : Option Bytes → Bytes
old_block none = []
old_block (some block) = block

-- The block after `realloc` to a size that is not smaller.
unfoldable pub realloc_block : Heap → Option Bytes → ℕ → Bytes
realloc_block heap old next =
    let block = old_block old in block ++ junk_from heap.junk (length block) (next - length block)

-- `dynamic_buffer_free`
unfoldable pub dynamic_buffer_free : DynamicBuffer → DynamicBuffer
dynamic_buffer_free buf = record { data_ = none; len = 0; cap = 0; failed = false }

-- `dynamic_buffer_reset`
unfoldable pub dynamic_buffer_reset : DynamicBuffer → DynamicBuffer
dynamic_buffer_reset buf = elim buf.data_ [
  | none ↦ record { data_ = none; len = 0; cap = 0; failed = false }
  | some block ↦ record { data_ = some (set block 0 0); len = 0; cap = buf.cap; failed = false }
]

-- `dynamic_buffer_has_failed`
unfoldable pub dynamic_buffer_has_failed : DynamicBuffer → Bool
dynamic_buffer_has_failed buf = buf.failed

-- The loop over `next`, on the rounds left.
unfoldable pub capacity_for : ℕ → ℕ → ℕ → Option ℕ
capacity_for zero need next = none
capacity_for (suc rounds) need next =
    let again = capacity_for rounds need (next * 2) in
    if ltb next need then (if ltb (size_max / 2) next then some need else again) else some next

-- A round at least doubles a size below 2^64.
abbrev pub capacity_rounds : ℕ
capacity_rounds = 65

abbrev pub latch : DynamicBuffer → DynamicBuffer
latch buf = record buf { failed = true }

abbrev pub is_null : Option Bytes → Bool
is_null none = true
is_null (some block) = false

-- The part of `dynamic_buffer_reserve` that changes the block.
unfoldable pub enlarge : Heap → DynamicBuffer → Option ℕ → DynamicBuffer × Status
enlarge heap buf none = (buf, stuck)
enlarge heap buf (some next) =
    if heap.grants next
    then (
      record buf { data_ = some (set (realloc_block heap buf.data_ next) buf.len 0); cap = next },
      done,
    )
    else (latch buf, enomem)

-- `dynamic_buffer_reserve`
unfoldable pub dynamic_buffer_reserve : Heap → DynamicBuffer → ℕ → DynamicBuffer × Status
dynamic_buffer_reserve heap buf extra =
    if buf.failed
    then (buf, eio)
    else if ltb 0 buf.cap && is_null buf.data_
    then (latch buf, einval)
    else if not (is_null buf.data_) && leb buf.cap buf.len
    then (latch buf, einval)
    else if ltb ((size_max + 2 ^ 64 - 1 - buf.len) % 2 ^ 64) extra
    then (latch buf, eoverflow)
    else let need = (buf.len + extra + 1) % 2 ^ 64 in
      if leb need buf.cap
      then (buf, done)
      else enlarge heap buf
          (capacity_for capacity_rounds need (if buf.cap == 0 then 128 else buf.cap))

-- `memcpy` to the front of a block.
unfoldable pub overwrite : Bytes → Bytes → Bytes
overwrite [] src = []
overwrite (b ∷ block) [] = b ∷ block
overwrite (b ∷ block) (c ∷ src) = c ∷ overwrite block src

-- `memcpy` to an offset of a block.
unfoldable pub copy_to : Bytes → ℕ → Bytes → Bytes
copy_to block zero src = overwrite block src
copy_to [] (suc i) src = []
copy_to (b ∷ block) (suc i) src = b ∷ copy_to block i src

-- The bytes behind the old contents, and the NUL.
unfoldable pub put_bytes : DynamicBuffer → Bytes → DynamicBuffer
put_bytes buf src = elim buf.data_ [
  | none ↦ buf
  | some block ↦
      let len = buf.len + length src in
      record buf { data_ = some (set (copy_to block buf.len src) len 0); len = len }
]

-- What an append does after `dynamic_buffer_reserve`.
unfoldable pub finish_append : DynamicBuffer × Status → Bytes → DynamicBuffer × Status
finish_append (buf, done) src = (put_bytes buf src, done)
finish_append (buf, status) src = (latch buf, status)

-- `dynamic_buffer_append_char`
unfoldable pub dynamic_buffer_append_char : Heap → DynamicBuffer → ℕ → DynamicBuffer × Status
dynamic_buffer_append_char heap buf c = finish_append (dynamic_buffer_reserve heap buf 1) (c ∷ [])

-- `dynamic_buffer_append_mem`; `none` is a NULL source with a length that is not 0.
unfoldable pub dynamic_buffer_append_mem :
    Heap → DynamicBuffer → Option Bytes → DynamicBuffer × Status
dynamic_buffer_append_mem heap buf src = if buf.failed then (buf, eio) else elim src [
  | none ↦ (latch buf, einval)
  | some bytes ↦ finish_append (dynamic_buffer_reserve heap buf (length bytes)) bytes
]

-- `dynamic_buffer_append_str`; `none` is NULL.
unfoldable pub dynamic_buffer_append_str :
    Heap → DynamicBuffer → Option Bytes → DynamicBuffer × Status
dynamic_buffer_append_str heap buf s = if buf.failed then (buf, eio) else elim s [
  | none ↦ (latch buf, einval)
  | some bytes ↦ dynamic_buffer_append_mem heap buf (some bytes)
]

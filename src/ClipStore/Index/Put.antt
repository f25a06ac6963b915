-- ===== src/ClipStore/Index/Put.antt =====
-- `row_index_put` and `row_index_get`: the index is a map from keys to rows.
use ws_pipeline_dispatcher.Prelude.{
  ℕ, suc, ◌+◌, ◌*◌, ◌^◌, ◌≤◌, ◌<◌, Bool, true, false, ◌≡◌, refl, ◌∙◌, ap, inl, inr, some, arith,
  Bool-cases, set, Bytes, equal, if◌then◌else◌, ◌==◌,
}
use ws_pipeline_dispatcher.ClipStore.Answer.{ok, ◌>>=◌, Settles, refused, given, Settles-bind}
use ws_pipeline_dispatcher.ClipStore.Row.{Row}
use ws_pipeline_dispatcher.ClipStore.Hash.Mask.{pow_pos}
use ws_pipeline_dispatcher.ClipStore.Index.Table.{contents}
use ws_pipeline_dispatcher.ClipStore.Index.Free.{used, place_lem, Places, find_lem}
use ws_pipeline_dispatcher.ClipStore.Index.Grow.{
  find_slot_at, Serves, IsGrown, IsIndex, fresh, filled, grow_lem,
}
use ws_pipeline_dispatcher.ClipStore.Index.{
  RowIndex, Allocator, find_slot, replace_row, row_index_put, row_index_get,
}

-- The row is stored under its key, and every other key reads as before.
pub record IsPut (r : RowIndex) (row : Row) (r' : RowIndex) : Type 0 where
  pub valid : IsIndex r'
  pub len : r'.len ≤ r.len + 1
  pub reads :
      (key : Bytes)
      → contents key r'.buckets ≡ (if equal row.key key then some row else contents key r.buckets)

-- The index after the write of a row at its place.
abbrev written : RowIndex → Row → Bool → ℕ → RowIndex
written g row found idx = record g {
  buckets = set g.buckets idx (some row);
  len = if found then g.len else g.len + 1;
}

stays_roomy :
    (found : Bool) (l m cap : ℕ)
    → l ≤ m
    → (m + 1) * 4 < cap * 3
    → (if found then l else l + 1) * 4 < cap * 3
stays_roomy true l m cap h room = omega arith
stays_roomy false l m cap h room = omega arith

one_more : (found : Bool) (l m : ℕ) → l ≤ m → (if found then l else l + 1) ≤ m + 1
one_more true l m h = omega arith
one_more false l m h = omega arith

still_counted :
    (found : Bool) (n u l : ℕ)
    → n ≤ (if found then u else suc u)
    → u ≤ l
    → n ≤ (if found then l else l + 1)
still_counted true n u l h k = omega arith
still_counted false n u l h k = omega arith

written-IsPut :
    (r g : RowIndex) (row : Row) (h : IsGrown r (r.len + 1) g) (p : Places h.k g.buckets row)
    → IsPut r row (written g row p.found p.idx)
written-IsPut r g row h p = record {
  valid =
      filled h.k
        (record {
          wide = h.holds.wide;
          table = p.table;
          counted = still_counted p.found _ _ _ p.counts h.holds.counted;
          sized = h.holds.sized;
        })
        (stays_roomy p.found g.len r.len g.cap h.len h.roomy);
  len = one_more p.found g.len r.len h.len;
  reads = λ key. p.reads key ∙ ap (λ o. if equal row.key key then some row else o) (h.reads key);
}

IsPut-grown :
    (alloc : Allocator) (r g : RowIndex) (row : Row)
    → IsGrown r (r.len + 1) g
    → Settles
        (Serves alloc (r.len + 1))
        (IsPut r row)
        (find_slot g row.key >>= λ s. replace_row alloc row >>= λ copy. ok (written g copy s.0 s.1))
unfolding replace_row
IsPut-grown alloc r g row h =
    let wide = h.holds.wide in
    let room : used g.buckets < 2 ^ h.k = omega (arith, h.holds.counted, h.len, h.roomy) in
    let p = place_lem h.k g.buckets row h.holds.table room in
    rw (find_slot_at h.k g row.key wide, p.runs)
      (elim (Bool-cases (alloc.grants_copy row)) [
        | inl granted ↦ rw granted (given _ (written-IsPut r g row h p))
        | inr denied ↦ rw denied (refused (λ g. let all = g.0.all_copies row in cc))
      ])

-- A valid index has no more rows than memory holds.
few_rows : (r : RowIndex) → IsIndex r → r.len + 1 < 2 ^ 60
few_rows r (fresh e) = rw e (omega arith)
few_rows r (filled k h room) = let sized = h.sized in omega arith

-- Putting a row into a valid index gives a valid index in which the row's key has the row and
-- every other key reads as before; the call ends, and fails only if memory runs out or the index
-- has 2^58 - 1 rows or more.
pub put_lem :
    (alloc : Allocator) (r : RowIndex) (row : Row)
    → IsIndex r
    → Settles (Serves alloc (r.len + 1)) (IsPut r row) (row_index_put alloc r row)
unfolding row_index_put
put_lem alloc r row h =
    Settles-bind (grow_lem alloc r (r.len + 1) h (omega arith) (few_rows r h))
      (λ g grown. IsPut-grown alloc r g row grown)

-- The lookup of a key in a valid index ends, and gives the row that the buckets hold for it.
pub get_lem :
    (r : RowIndex) (key : Bytes) → IsIndex r → row_index_get r key ≡ ok (contents key r.buckets)
unfolding row_index_get contents
get_lem r key (fresh e) = rw e refl
get_lem r key (filled k h room) =
    let wide = h.wide in
    let some_cap : (r.cap == 0) ≡ false = ground (arith, pow_pos k) in
    let fits : used r.buckets < 2 ^ k = omega (arith, h.counted) in
    let (found, idx, runs, answer) = find_lem k r.buckets key h.table fits in
    rw (some_cap, find_slot_at k r key wide, runs) (ap ok answer)

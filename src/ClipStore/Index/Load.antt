-- ===== src/ClipStore/Index/Load.antt =====
-- The loading of a file into the index, and the lookup in it: a key has its latest row.
use ws_pipeline_dispatcher.Prelude.{
  suc, ◌+◌, Bool, true, false, List, [], ◌∷◌, ◌≡◌, refl, ◌∙◌, ap, inl, inr, Option, none, some,
  arith, Bool-cases, Bytes, if◌then◌else◌, length,
}
use ws_pipeline_dispatcher.ClipStore.Answer.{
  Answer, ok, fails, ◌>>=◌, Settles, refused, given, Settles-bind, Settles-under,
}
use ws_pipeline_dispatcher.ClipStore.Row.{Row}
use ws_pipeline_dispatcher.ClipStore.Index.Table.{contents}
use ws_pipeline_dispatcher.ClipStore.Index.Latest.{latest}
use ws_pipeline_dispatcher.ClipStore.Index.Grow.{Serves, IsIndex, fresh}
use ws_pipeline_dispatcher.ClipStore.Index.{
  RowIndex, Allocator, replace_row, row_index_get, load_rows, zero_index, load_latest_rows,
  load_latest_row,
}
use ws_pipeline_dispatcher.ClipStore.Index.Put.{IsPut, put_lem, get_lem}

-- The index is valid, and a key in it is the last row of the list with that key.
pub record IsLoaded (r : RowIndex) (rows : List (Option Row)) (r' : RowIndex) : Type 0 where
  pub valid : IsIndex r'
  pub reads : (key : Bytes) → contents key r'.buckets ≡ latest key rows (contents key r.buckets)

module _ (alloc : Allocator) where
  -- Loading rows into an index, as long as memory and sizes serve.
  pub load_lem :
      (rows : List (Option Row)) (r : RowIndex)
      → IsIndex r
      → Settles (Serves alloc (r.len + length rows)) (IsLoaded r rows) (load_rows alloc r rows)
  unfolding load_rows latest
  load_lem [] r h = given r (record { valid = h; reads = λ key. refl })
  load_lem (none ∷ rows) r h = skip (load_lem rows r h)
    where
      skip :
          {m : Answer RowIndex}
          → Settles (Serves alloc (r.len + length rows)) (IsLoaded r rows) m
          → Settles (Serves alloc (r.len + suc (length rows))) (IsLoaded r (none ∷ rows)) m
      skip (refused n) = refused (λ s. let few = s.1 in n (s.0, omega arith))
      skip (given r2 l) = given r2 (record { valid = l.valid; reads = l.reads })
  load_lem (some row ∷ rows) r h =
      Settles-bind
        (Settles-under (λ s. let few = s.1 in (s.0, omega arith)) (put_lem alloc r row h))
        (λ r1 p. later r1 p (load_lem rows r1 p.valid))
    where
      later :
          (r1 : RowIndex)
          → IsPut r row r1
          → {m : Answer RowIndex}
          → Settles (Serves alloc (r1.len + length rows)) (IsLoaded r1 rows) m
          → Settles (Serves alloc (r.len + suc (length rows))) (IsLoaded r (some row ∷ rows)) m
      later r1 p (refused n) =
          refused (λ s. let few = s.1 in let len = p.len in n (s.0, omega arith))
      later r1 p (given r2 l) = given r2 (record {
        valid = l.valid;
        reads = λ key. l.reads key ∙ ap (latest key rows) (p.reads key);
      })

  -- Reading the rows of a file, if no read fails.
  abbrev pub Loads : Bool → List (Option Row) → Type 0
  Loads reads rows = Serves alloc (length rows) × (reads ≡ true)

  pub latest_rows_lem :
      (reads : Bool) (rows : List (Option Row))
      → Settles
          (Loads reads rows)
          (λ r. IsLoaded zero_index rows r × (reads ≡ true))
          (load_latest_rows alloc reads rows)
  unfolding load_latest_rows
  latest_rows_lem reads rows =
      Settles-bind
        (Settles-under (λ s. let few = s.0.1 in (s.0.0, omega arith))
          (load_lem rows zero_index (fresh refl)))
        (λ r l. checked reads r l)
    where
      checked :
          (reads : Bool) (r : RowIndex)
          → IsLoaded zero_index rows r
          → Settles
              (Loads reads rows)
              (λ r. IsLoaded zero_index rows r × (reads ≡ true))
              (if reads then ok r else fails)
      checked true r l = given r (l, refl)
      checked false r l = refused (λ s. let e = s.1 in cc)

  -- The lookup of a key through the hash index gives the last of the rows with that key, or nothing
  -- if there is none; it fails behind a read that failed.
  pub latest_row_lem :
      (reads : Bool) (rows : List (Option Row)) (key : Bytes)
      → Settles
          (Loads reads rows)
          (λ out. (out ≡ latest key rows none) × (reads ≡ true))
          (load_latest_row alloc reads rows key)
  unfolding load_latest_row contents replace_row
  latest_row_lem reads rows key =
      Settles-bind (latest_rows_lem reads rows) (λ r loaded. looked_up r loaded.0 loaded.1)
    where
      copied :
          (o : Option Row)
          → o ≡ latest key rows none
          → reads ≡ true
          → Settles
              (Loads reads rows)
              (λ out. (out ≡ latest key rows none) × (reads ≡ true))
              (elim o [
                | none ↦ ok none
                | some row ↦ replace_row alloc row >>= λ copy. ok (some copy)
              ])
      copied none e t = given none (e, t)
      copied (some row) e t = elim (Bool-cases (alloc.grants_copy row)) [
        | inl granted ↦ rw granted (given _ (e, t))
        | inr denied ↦ rw denied (refused (λ g. let all = g.0.0.all_copies row in cc))
      ]

      looked_up :
          (r : RowIndex)
          → IsLoaded zero_index rows r
          → reads ≡ true
          → Settles
              (Loads reads rows)
              (λ out. (out ≡ latest key rows none) × (reads ≡ true))
              (row_index_get r key >>= λ found. elim found [
                | none ↦ ok none
                | some row ↦ replace_row alloc row >>= λ copy. ok (some copy)
              ])
      looked_up r l t = rw (get_lem r key l.valid) (copied (contents key r.buckets) (l.reads key) t)

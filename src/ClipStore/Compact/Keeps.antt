-- ===== src/ClipStore/Compact/Keeps.antt =====
-- Compaction changes no lookup, now or later, whether it succeeds or not.
use ws_pipeline_dispatcher.Prelude.{
  ℕ, suc, ◌<◌, ◌^◌, length, true, false, ◌&&◌, List, [], ◌∷◌, ◌≡◌, refl, ◌∙◌, ap, inl, inr, Option,
  none, some, arith, Bool-cases, Option-cases, Bytes, equal,
}
use ws_pipeline_dispatcher.Prelude.Int.{ℤ, ◌≤ℤ◌}
use ws_pipeline_dispatcher.ClipStore.Answer.{Answer, Settles, Settles-map, refused, given}
use ws_pipeline_dispatcher.ClipStore.Row.{Row, row_is_live}
use ws_pipeline_dispatcher.ClipStore.Index.{Buckets, RowIndex, slot, zero_index, Allocator}
use ws_pipeline_dispatcher.ClipStore.Index.Latest.{latest}
use ws_pipeline_dispatcher.ClipStore.Index.Table.{contents}
use ws_pipeline_dispatcher.ClipStore.Index.Grow.{Generous}
use ws_pipeline_dispatcher.ClipStore.Index.Load.{IsLoaded, Loads, latest_rows_lem}
use ws_pipeline_dispatcher.ClipStore.Format.{Zlib, System, read_rows, read_lines}
use ws_pipeline_dispatcher.ClipStore.Format.Text.{no_line}
use ws_pipeline_dispatcher.ClipStore.Format.Packed.{IsZlib, IsReady}
use ws_pipeline_dispatcher.ClipStore.Format.File.{
  IsStorable, AllStorable, append_rows, append_rows-read_rows, append_rows-total,
}
use ws_pipeline_dispatcher.ClipStore.Compact.{
  live_rows, Disk, replace_db, rewrite_index, db_rewrite_compact,
}
use ws_pipeline_dispatcher.ClipStore.Compact.Live.{
  live_only, row_is_live-earlier, live-latest, index-Unique, stored-latest,
}

-- Every row of the list can be written.
abbrev pub RowsStorable : List (Option Row) → Type 0
RowsStorable [] = Unit
RowsStorable (none ∷ rows) = RowsStorable rows
RowsStorable (some row ∷ rows) = IsStorable row × RowsStorable rows

latest-IsStorable :
    (key : Bytes) (rows : List (Option Row)) (known : Option Row) (row : Row)
    → RowsStorable rows
    → ((r : Row) → known ≡ some r → IsStorable r)
    → latest key rows known ≡ some row
    → IsStorable row
unfolding latest
latest-IsStorable key [] known row h k e = k row e
latest-IsStorable key (none ∷ rows) known row h k e = latest-IsStorable key rows known row h k e
latest-IsStorable key (some r ∷ rows) known row (s, h) k e = elim (Bool-cases (equal r.key key)) [
  | inl same ↦
      latest-IsStorable key rows (some r) row h
        (λ r' one. let e' : r ≡ r' = ground arith in rw (← e') s) (rw same at e)
  | inr other ↦ latest-IsStorable key rows known row h k (rw other at e)
]

live-AllStorable :
    (now : ℤ) (bs : Buckets)
    → ((i : ℕ) (row : Row) → slot bs i ≡ some row → IsStorable row)
    → AllStorable (live_rows now bs)
unfolding live_rows
live-AllStorable now [] h = tt
live-AllStorable now (none ∷ bs) h = live-AllStorable now bs (λ i. h (suc i))
live-AllStorable now (some row ∷ bs) h =
    let rest = live-AllStorable now bs (λ i. h (suc i)) in
    elim (Bool-cases (row_is_live row now)) [
      | inl e ↦ rw e (h 0 row refl, rest)
      | inr e ↦ rw e rest
    ]

loaded-AllStorable :
    (rows : List (Option Row)) (r : RowIndex) (now : ℤ)
    → RowsStorable rows
    → IsLoaded zero_index rows r
    → AllStorable (live_rows now r.buckets)
loaded-AllStorable rows r now h l = live-AllStorable now r.buckets (λ i row s.
    latest-IsStorable row.key rows none row h (λ r' e. cc) (stored-latest rows r i row l s))

-- A row that is dropped now is shown at no later time.
live_only-later :
    (now later : ℤ) (o : Option Row)
    → now ≤ℤ later
    → live_only later (live_only now o) ≡ live_only later o
unfolding live_only
live_only-later now later none le = refl
live_only-later now later (some row) le = elim (Bool-cases (row_is_live row now)) [
  | inl e ↦ rw e refl
  | inr e ↦
      let gone : row_is_live row later ≡ false =
        ground (arith, row_is_live-earlier row now later le) in
      rw (e, gone) refl
]

-- The files show the same rows from a time on.
abbrev Shows : Zlib → System → ℤ → Bytes → Bytes → Type 0
Shows zlib reader now file file' =
    (later : ℤ)
    → now ≤ℤ later
    → (key : Bytes)
    → live_only later (latest key (read_rows zlib reader file') none)
      ≡ live_only later (latest key (read_rows zlib reader file) none)

module _ {zlib : Zlib} (z : IsZlib zlib) (reader writer : System) (disk : Disk) (file : Bytes)
    (now : ℤ) (ready : IsReady reader) (h : RowsStorable (read_rows zlib reader file)) where
  written-Shows :
      (r : RowIndex) (tmp : Bytes)
      → IsLoaded zero_index (read_rows zlib reader file) r
      → append_rows zlib writer [] (live_rows now r.buckets) ≡ some tmp
      → Shows zlib reader now file tmp
  unfolding read_rows read_lines contents
  written-Shows r tmp l e later le key =
      let rows = read_rows zlib reader file in
      let all = loaded-AllStorable rows r now h l in
      let new =
        append_rows-read_rows z (live_rows now r.buckets) writer reader [] all ready no_line e in
      ap (λ rs. live_only later (latest key rs none)) new
      ∙ ap (live_only later) (live-latest now key r.buckets (index-Unique r l.valid))
      ∙ live_only-later now later _ le
      ∙ ap (live_only later) (l.reads key)

  replaced-Shows :
      (r : RowIndex)
      → IsLoaded zero_index (read_rows zlib reader file) r
      → Shows zlib reader now file
          (replace_db disk file (append_rows zlib writer [] (live_rows now r.buckets))).1
  unfolding replace_db
  replaced-Shows r l = elim (Option-cases (append_rows zlib writer [] (live_rows now r.buckets))) [
    | inl e ↦ rw e (λ later le key. refl)
    | inr (tmp, e) ↦ elim (Bool-cases (disk.syncs && disk.renames)) [
      | inl yes' ↦ rw (e, yes') (written-Shows r tmp l e)
      | inr no' ↦ rw (e, no') (λ later le key. refl)
    ]
  ]

  rewritten-Shows :
      (alloc : Allocator) {answer : Answer RowIndex}
      → Settles
          (Loads alloc reader.reads (read_rows zlib reader file))
          (IsLoaded zero_index (read_rows zlib reader file))
          answer
      → Shows zlib reader now file (rewrite_index zlib writer disk file now answer).1
  unfolding rewrite_index
  rewritten-Shows alloc (refused n) = λ later le key. refl
  rewritten-Shows alloc (given r l) = elim (Bool-cases (disk.path_fits && disk.opens)) [
    | inl yes' ↦ rw yes' (replaced-Shows r l)
    | inr no' ↦ rw no' (λ later le key. refl)
  ]

-- Whatever calls of a compaction fail, if the rows that are read of the file get their memory
-- and are storable, a lookup of any key at the time of the compaction or later shows the same
-- before and after it.
pub compact-keeps :
    {zlib : Zlib} (z : IsZlib zlib) (alloc : Allocator) (reader writer : System) (disk : Disk)
    (file : Bytes) (now later : ℤ) (key : Bytes)
    → IsReady reader
    → RowsStorable (read_rows zlib reader file)
    → now ≤ℤ later
    → let file' = (db_rewrite_compact alloc zlib reader writer disk file now).1 in
      live_only later (latest key (read_rows zlib reader file') none)
      ≡ live_only later (latest key (read_rows zlib reader file) none)
unfolding db_rewrite_compact
compact-keeps {zlib} z alloc reader writer disk file now later key ready h le =
    rewritten-Shows z reader writer disk file now ready h alloc
      (Settles-map (λ r h. h.0) (latest_rows_lem alloc reader.reads (read_rows zlib reader file)))
      later le key

-- If every request for memory, every read and every call on the temporary file is granted, fewer
-- than 2^58 lines are read and the rows are storable, compaction succeeds, and reading the new
-- file gives for each key its latest row if that is live, and nothing otherwise.
pub compact-succeeds :
    {zlib : Zlib} (z : IsZlib zlib) (alloc : Allocator) (reader writer : System) (disk : Disk)
    (file : Bytes) (now : ℤ)
    → IsReady reader
    → IsReady writer
    → Generous alloc
    → reader.reads ≡ true
    → length (read_rows zlib reader file) < 2 ^ 58
    → disk.path_fits && disk.opens && disk.syncs && disk.renames ≡ true
    → RowsStorable (read_rows zlib reader file)
    → (file' : Bytes) × (db_rewrite_compact alloc zlib reader writer disk file now ≡ (true, file'))
      × ((key : Bytes)
          → latest key (read_rows zlib reader file') none
            ≡ live_only now (latest key (read_rows zlib reader file) none))
unfolding db_rewrite_compact rewrite_index replace_db read_rows read_lines contents
compact-succeeds {zlib} z alloc reader writer disk file now ready ready' generous reads few granted
      h =
    loaded
      (Settles-map (λ r h. h.0) (latest_rows_lem alloc reader.reads (read_rows zlib reader file)))
  where
    loaded :
        {answer : Answer RowIndex}
        → Settles
            (Loads alloc reader.reads (read_rows zlib reader file))
            (IsLoaded zero_index (read_rows zlib reader file))
            answer
        → (file' : Bytes) × (rewrite_index zlib writer disk file now answer ≡ (true, file'))
          × ((key : Bytes)
              → latest key (read_rows zlib reader file') none
                ≡ live_only now (latest key (read_rows zlib reader file) none))
    loaded (refused n) = absurd (n ((generous, few), reads))
    loaded (given r l) =
        let all = loaded-AllStorable (read_rows zlib reader file) r now h l in
        let (tmp, e) = append_rows-total z writer [] (live_rows now r.buckets) ready' all in
        let new =
          append_rows-read_rows z (live_rows now r.buckets) writer reader [] all ready no_line e in
        let first : disk.path_fits && disk.opens ≡ true = ground arith in
        let last : disk.syncs && disk.renames ≡ true = ground arith in
        (
          tmp,
          rw (first, e) (rw last refl),
          λ key.
              ap (λ rs. latest key rs none) new
              ∙ live-latest now key r.buckets (index-Unique r l.valid)
              ∙ ap (live_only now) (l.reads key),
        )

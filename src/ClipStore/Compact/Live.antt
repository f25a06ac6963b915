-- ===== src/ClipStore/Compact/Live.antt =====
-- The live rows of an index say of a key what its latest row says, if that is live.
use ws_pipeline_dispatcher.Prelude.{
  ℕ, suc, true, false, List, [], ◌∷◌, map, ◌≡◌, ◌≢◌, refl, sym, ◌∙◌, inl, inr, Option, none, some,
  arith, Bool-cases, Bytes, equal, equal_iff, if◌then◌else◌,
}
use ws_pipeline_dispatcher.Prelude.Int.{ℤ, ◌≤ℤ◌}
use ws_pipeline_dispatcher.ClipStore.Row.{Row, row_is_live, row_is_expired}
use ws_pipeline_dispatcher.ClipStore.Index.{Buckets, RowIndex, slot, zero_index}
use ws_pipeline_dispatcher.ClipStore.Index.Table.{contents, contents-stored}
use ws_pipeline_dispatcher.ClipStore.Index.Latest.{latest, Unique, suc-inj}
use ws_pipeline_dispatcher.ClipStore.Index.Grow.{IsIndex, fresh, filled}
use ws_pipeline_dispatcher.ClipStore.Index.Load.{IsLoaded}
use ws_pipeline_dispatcher.ClipStore.Compact.{live_rows}

-- The row, if it is live: what a lookup at a time shows.
unfoldable pub live_only : ℤ → Option Row → Option Row
live_only now none = none
live_only now (some row) = if row_is_live row now then some row else none

-- A row that is live at a time is live at every earlier time.
pub row_is_live-earlier :
    (row : Row) (now later : ℤ)
    → now ≤ℤ later
    → row_is_live row later ≡ true
    → row_is_live row now ≡ true
unfolding row_is_live row_is_expired
row_is_live-earlier row now later le h = ground arith

module _ (key : Bytes) (row : Row) (rows : List (Option Row)) (known : Option Row) where
  latest_hit :
      equal row.key key ≡ true → latest key (some row ∷ rows) known ≡ latest key rows (some row)
  unfolding latest
  latest_hit h = rw h refl

  latest_miss :
      equal row.key key ≡ false → latest key (some row ∷ rows) known ≡ latest key rows known
  unfolding latest
  latest_miss h = rw h refl

abbrev NoRow : Bytes → Buckets → Type 0
NoRow key bs = (i : ℕ) (row : Row) → slot bs i ≡ some row → row.key ≢ key

live-absent :
    (now : ℤ) (key : Bytes) (bs : Buckets) (known : Option Row)
    → NoRow key bs
    → latest key (map some (live_rows now bs)) known ≡ known
unfolding latest live_rows
live-absent now key [] known h = refl
live-absent now key (none ∷ bs) known h = live-absent now key bs known (λ i. h (suc i))
live-absent now key (some row ∷ bs) known h =
    let other : equal row.key key ≡ false = ground (arith, equal_iff row.key key, h 0 row refl) in
    let ih = live-absent now key bs known (λ i. h (suc i)) in
    elim (Bool-cases (row_is_live row now)) [
      | inl e ↦ rw e (latest_miss key row (map some (live_rows now bs)) known other ∙ ih)
      | inr e ↦ rw e ih
    ]

tail-Unique : (o : Option Row) (bs : Buckets) → Unique (o ∷ bs) → Unique bs
tail-Unique o bs u = λ i j r r' s s' e. suc-inj i j (u (suc i) (suc j) r r' s s' e)

head-NoRow :
    (row : Row) (bs : Buckets) (key : Bytes) → Unique (some row ∷ bs) → row.key ≡ key → NoRow key bs
head-NoRow row bs key u e i r s same =
    let clash : 0 ≡ suc i = u 0 (suc i) row r refl s (e ∙ sym same) in ground arith

pub live-latest :
    (now : ℤ) (key : Bytes) (bs : Buckets)
    → Unique bs
    → latest key (map some (live_rows now bs)) none ≡ live_only now (contents key bs)
unfolding latest live_rows live_only contents
live-latest now key [] u = refl
live-latest now key (none ∷ bs) u = live-latest now key bs (tail-Unique none bs u)
live-latest now key (some row ∷ bs) u =
    let kept = map some (live_rows now bs) in
    let ih = live-latest now key bs (tail-Unique (some row) bs u) in
    elim (Bool-cases (equal row.key key)) [
      | inl same ↦
          let gone = head-NoRow row bs key u ((equal_iff row.key key).0 same) in
          elim (Bool-cases (row_is_live row now)) [
            | inl e ↦
                rw (e, same)
                  (latest_hit key row kept none same
                    ∙ live-absent now key bs (some row) gone
                    ∙ (rw e refl))
            | inr e ↦ rw (e, same) (live-absent now key bs none gone ∙ (rw e refl))
          ]
      | inr other ↦ elim (Bool-cases (row_is_live row now)) [
        | inl e ↦ rw (e, other) (latest_miss key row kept none other ∙ ih)
        | inr e ↦ rw (e, other) ih
      ]
    ]

pub index-Unique : (r : RowIndex) → IsIndex r → Unique r.buckets
index-Unique r (fresh e) = rw e (λ i j row row' s s' same. cc)
index-Unique r (filled k h room) = h.table.unique

-- A row of a loaded index is the latest row of its key.
pub stored-latest :
    (rows : List (Option Row)) (r : RowIndex) (i : ℕ) (row : Row)
    → IsLoaded zero_index rows r
    → slot r.buckets i ≡ some row
    → latest row.key rows none ≡ some row
unfolding contents
stored-latest rows r i row l s = sym (l.reads row.key) ∙ held l.valid
  where
    held : IsIndex r → contents row.key r.buckets ≡ some row
    held (fresh e) = let s' : slot zero_index.buckets i ≡ some row = rw e at s in cc
    held (filled k h room) = contents-stored h.table i row row.key s refl

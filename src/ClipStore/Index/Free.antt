-- ===== src/ClipStore/Index/Free.antt =====
-- A table that is not full has an empty bucket that the probe loop reaches, so it finds the place
-- of every key.
use native.Mathlib.Nat.{mod-eq_of_lt, add-mod_right}
use ws_pipeline_dispatcher.Prelude.{
  ℕ, zero, suc, ◌+◌, ◌-◌, ◌^◌, ◌≤◌, ◌<◌, Bool, [], ◌∷◌, ◌≡◌, refl, ◌∙◌, ap, inl, inr, none, some,
  arith, Bool-cases, length, set, Bytes, equal, if◌then◌else◌, leb,
}
use ws_pipeline_dispatcher.ClipStore.Answer.{ok}
use ws_pipeline_dispatcher.ClipStore.Row.{Row}
use ws_pipeline_dispatcher.ClipStore.Hash.Mask.{home_bucket-lt}
use ws_pipeline_dispatcher.ClipStore.Index.Probe.{walk, Stops, empty, here, Probed, probe-Probed}
use ws_pipeline_dispatcher.ClipStore.Index.Table.{contents, home, IsTable, Probed-contents}
use ws_pipeline_dispatcher.ClipStore.Index.Write.{write-IsTable, write-contents}
use ws_pipeline_dispatcher.ClipStore.Index.{Buckets, slot, probe}

-- How many buckets hold a row.
unfoldable pub used : Buckets → ℕ
used [] = 0
used (none ∷ bs) = used bs
used (some row ∷ bs) = suc (used bs)

free_bucket : (bs : Buckets) → used bs < length bs → (i : ℕ) × (i < length bs) × (slot bs i ≡ none)
unfolding used
free_bucket [] h = absurd (omega arith)
free_bucket (none ∷ bs) h = (0, omega arith, refl)
free_bucket (some row ∷ bs) h =
    let (i, l, e) = free_bucket bs (omega arith) in (suc i, omega arith, e)

-- Every bucket is less than a round away.
reach : (k idx i : ℕ) → idx < 2 ^ k → i < 2 ^ k → (e : ℕ) × (e < 2 ^ k) × (walk k idx e ≡ i)
reach k idx i h l = elim (Bool-cases (leb idx i)) [
  | inl le ↦
      let sum : idx + (i - idx) ≡ i = ground arith in
      (i - idx, omega arith, rw sum (mod-eq_of_lt l))
  | inr gt ↦
      let lt : i < idx = ground arith in
      let sum : idx + (2 ^ k - idx + i) ≡ i + 2 ^ k = omega arith in
      (2 ^ k - idx + i, omega arith, rw sum (add-mod_right i (2 ^ k) ∙ mod-eq_of_lt l))
]

find-Probed :
    (k : ℕ) (bs : Buckets) (key : Bytes)
    → IsTable k bs
    → used bs < 2 ^ k
    → Probed k bs key (home k key) (probe (2 ^ k) bs (2 ^ k) key (home k key))
find-Probed k bs key t h =
    let (i, l, free) = free_bucket bs (rw t.width h) in
    let (e, near, at) = reach k (home k key) i (home_bucket-lt key k) (rw t.width at l) in
    probe-Probed (2 ^ k) k bs key (home k key) e (home_bucket-lt key k) near (rw at free)

used-set-over :
    (bs : Buckets) (i : ℕ) (old row : Row)
    → slot bs i ≡ some old
    → used (set bs i (some row)) ≡ used bs
unfolding used
used-set-over [] i old row h = cc
used-set-over (none ∷ bs) zero old row h = cc
used-set-over (some r ∷ bs) zero old row h = refl
used-set-over (none ∷ bs) (suc i) old row h = used-set-over bs i old row h
used-set-over (some r ∷ bs) (suc i) old row h = ap suc (used-set-over bs i old row h)

used-set : (bs : Buckets) (i : ℕ) (row : Row) → used (set bs i (some row)) ≤ suc (used bs)
unfolding used
used-set [] i row = omega arith
used-set (none ∷ bs) zero row = omega arith
used-set (some r ∷ bs) zero row = omega arith
used-set (none ∷ bs) (suc i) row = used-set bs i row
used-set (some r ∷ bs) (suc i) row = omega (arith, used-set bs i row)

-- The place of a row, what the probe loop answers for it, and the table once it is written.
pub record Places (k : ℕ) (bs : Buckets) (row : Row) : Type 0 where
  pub found : Bool
  pub idx : ℕ
  pub runs : probe (2 ^ k) bs (2 ^ k) row.key (home k row.key) ≡ ok (found, idx)
  pub table : IsTable k (set bs idx (some row))
  pub reads :
      (key : Bytes)
      → contents key (set bs idx (some row))
        ≡ (if equal row.key key then some row else contents key bs)
  pub counts : used (set bs idx (some row)) ≤ (if found then used bs else suc (used bs))

pub place_lem :
    (k : ℕ) (bs : Buckets) (row : Row) → IsTable k bs → used bs < 2 ^ k → Places k bs row
place_lem k bs row t h =
    let p = find-Probed k bs row.key t h in
    record {
      found = p.found;
      idx = walk k (home k row.key) p.distance;
      runs = p.runs;
      table = write-IsTable t row p;
      reads = write-contents t row p;
      counts = counted p.found p.stops;
    }
  where
    counted :
        {i : ℕ} (found : Bool)
        → Stops bs row.key i found
        → used (set bs i (some row)) ≤ (if found then used bs else suc (used bs))
    counted {i} _ (empty e) = used-set bs i row
    counted {i} _ (here old e same) = omega (arith, used-set-over bs i old row e)

-- The lookup of a key answers the row that the table holds for it.
pub find_lem :
    (k : ℕ) (bs : Buckets) (key : Bytes)
    → IsTable k bs
    → used bs < 2 ^ k
    → (found : Bool) × (idx : ℕ) × (probe (2 ^ k) bs (2 ^ k) key (home k key) ≡ ok (found, idx))
      × ((if found then slot bs idx else none) ≡ contents key bs)
find_lem k bs key t h =
    let p = find-Probed k bs key t h in
    (p.found, walk k (home k key) p.distance, p.runs, Probed-contents t key _ p)

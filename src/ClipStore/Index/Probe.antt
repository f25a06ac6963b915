-- ===== src/ClipStore/Index/Probe.antt =====
-- Where the probe loop stops: at the key, or at the first empty bucket from its home on.
use native.Mathlib.Nat.{mod-add-mod, mod-lt}
use ws_pipeline_dispatcher.Prelude.{
  ℕ, zero, suc, ◌+◌, ◌-◌, ◌%◌, ◌^◌, ◌<◌, Bool, true, false, ◌≡◌, ◌∙◌, ap, inl, inr, none, some,
  arith, Bool-cases, Option-cases, Bytes, equal,
}
use ws_pipeline_dispatcher.ClipStore.Answer.{Answer, ok}
use ws_pipeline_dispatcher.ClipStore.Row.{Row}
use ws_pipeline_dispatcher.ClipStore.Hash.{next_bucket}
use ws_pipeline_dispatcher.ClipStore.Hash.Mask.{next_bucket_lem, pow_pos}
use ws_pipeline_dispatcher.ClipStore.Index.{Buckets, slot, probe}

-- The bucket `d` steps after `idx` in a table of `2 ^ k` buckets.
abbrev pub walk : ℕ → ℕ → ℕ → ℕ
walk k idx d = (idx + d) % 2 ^ k

-- The bucket holds a row with another key.
pub record Passes (bs : Buckets) (key : Bytes) (i : ℕ) : Type 0 where
  pub row : Row
  pub stored : slot bs i ≡ some row
  pub differs : equal row.key key ≡ false

-- The bucket is empty, or holds the key.
pub data Stops (bs : Buckets) (key : Bytes) (i : ℕ) : Bool → Type 0 where
  empty : slot bs i ≡ none → Stops bs key i false
  here : (row : Row) → slot bs i ≡ some row → equal row.key key ≡ true → Stops bs key i true

-- The loop stops `distance` steps after `idx`, behind buckets with other keys only.
pub record Probed (k : ℕ) (bs : Buckets) (key : Bytes) (idx : ℕ) (answer : Answer (Bool × ℕ))
    : Type 0 where
  pub found : Bool
  pub distance : ℕ
  pub runs : answer ≡ ok (found, walk k idx distance)
  pub passed : (d : ℕ) → d < distance → Passes bs key (walk k idx d)
  pub stops : Stops bs key (walk k idx distance) found

walk_zero : (k idx : ℕ) → idx < 2 ^ k → walk k idx 0 ≡ idx
walk_zero k idx h = grind arith

walk-suc : (k idx d : ℕ) → walk k ((idx + 1) % 2 ^ k) d ≡ walk k idx (suc d)
walk-suc k idx d =
    let e : idx + suc d ≡ idx + 1 + d = omega arith in rw e (mod-add-mod (idx + 1) (2 ^ k) d)

module _ (rounds cap : ℕ) (bs : Buckets) (key : Bytes) (idx : ℕ) where
  probe_empty : slot bs idx ≡ none → probe (suc rounds) bs cap key idx ≡ ok (false, idx)
  unfolding probe
  probe_empty h = ground arith

  probe_here :
      (row : Row)
      → slot bs idx ≡ some row
      → equal row.key key ≡ true
      → probe (suc rounds) bs cap key idx ≡ ok (true, idx)
  unfolding probe
  probe_here row h same = ground arith

  probe_on :
      (row : Row)
      → slot bs idx ≡ some row
      → equal row.key key ≡ false
      → probe (suc rounds) bs cap key idx ≡ probe rounds bs cap key (next_bucket idx cap)
  unfolding probe
  probe_on row h differs = ground arith

Probed-stop :
    (k : ℕ) (bs : Buckets) (key : Bytes) (idx : ℕ) {found : Bool} (answer : Answer (Bool × ℕ))
    → idx < 2 ^ k
    → answer ≡ ok (found, idx)
    → Stops bs key idx found
    → Probed k bs key idx answer
Probed-stop k bs key idx {found} answer h runs stops =
    let e = walk_zero k idx h in
    record {
      found = found;
      distance = 0;
      runs = rw e runs;
      passed = λ d l. absurd (omega arith);
      stops = rw e stops;
    }

Passes-step :
    (k : ℕ) (bs : Buckets) (key : Bytes) (idx n : ℕ)
    → Passes bs key (walk k idx 0)
    → ((d : ℕ) → d < n → Passes bs key (walk k idx (suc d)))
    → (d : ℕ) → d < suc n
    → Passes bs key (walk k idx d)
Passes-step k bs key idx n first rest zero l = first
Passes-step k bs key idx n first rest (suc d) l = rest d (omega arith)

Probed-step :
    (k : ℕ) (bs : Buckets) (key : Bytes) (idx : ℕ) (answer answer' : Answer (Bool × ℕ))
    → answer ≡ answer'
    → Passes bs key (walk k idx 0)
    → Probed k bs key ((idx + 1) % 2 ^ k) answer'
    → Probed k bs key idx answer
Probed-step k bs key idx answer answer' same first later =
    let e = walk-suc k idx in
    record {
      found = later.found;
      distance = suc later.distance;
      runs = same ∙ later.runs ∙ ap (λ i. ok (later.found, i)) (e later.distance);
      passed =
          Passes-step k bs key idx later.distance first (λ d l. rw (e d) at (later.passed d l));
      stops = rw (e later.distance) at later.stops;
    }

step_pos :
    (k : ℕ) (bs : Buckets) (idx e : ℕ) (row : Row)
    → idx < 2 ^ k
    → slot bs idx ≡ some row
    → slot bs (walk k idx e) ≡ none
    → 0 < e
step_pos k bs idx zero row h stored free =
    let here_free : slot bs idx ≡ none = rw (walk_zero k idx h) at free in cc
step_pos k bs idx (suc e) row h stored free = omega arith

-- An empty bucket within the rounds ends the loop.
pub probe-Probed :
    (rounds k : ℕ) (bs : Buckets) (key : Bytes) (idx e : ℕ)
    → idx < 2 ^ k
    → e < rounds
    → slot bs (walk k idx e) ≡ none
    → Probed k bs key idx (probe rounds bs (2 ^ k) key idx)
probe-Probed zero k bs key idx e h l free = absurd (omega arith)
probe-Probed (suc rounds) k bs key idx e h l free = elim (Option-cases (slot bs idx)) [
  | inl vacant ↦
      Probed-stop k bs key idx _ h (probe_empty rounds (2 ^ k) bs key idx vacant) (empty vacant)
  | inr (row, stored) ↦ elim (Bool-cases (equal row.key key)) [
    | inl same ↦
        Probed-stop k bs key idx _ h (probe_here rounds (2 ^ k) bs key idx row stored same)
          (here row stored same)
    | inr differs ↦
        let start = walk_zero k idx h in
        let first : Passes bs key (walk k idx 0) = record {
          row = row;
          stored = rw start stored;
          differs = differs;
        } in
        let pos = step_pos k bs idx e row h stored free in
        let next = next_bucket_lem idx k h in
        let suc_pred : suc (e - 1) ≡ e = omega arith in
        let free' : slot bs (walk k ((idx + 1) % 2 ^ k) (e - 1)) ≡ none =
          rw (walk-suc k idx (e - 1), suc_pred) free in
        Probed-step k bs key idx _ _
          (probe_on rounds (2 ^ k) bs key idx row stored differs
            ∙ ap (probe rounds bs (2 ^ k) key) next)
          first
          (probe-Probed rounds k bs key ((idx + 1) % 2 ^ k) (e - 1) (mod-lt _ (pow_pos k))
            (omega arith) free')
  ]
]

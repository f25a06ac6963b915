-- ===== src/ClipStore/Index/Table.antt =====
-- The rows of a table, whatever its order, and how a write changes them.
use ws_pipeline_dispatcher.Prelude.{
  ℕ, zero, suc, ◌^◌, ◌<◌, Bool, [], ◌∷◌, ◌≡◌, ◌≢◌, sym, ◌∙◌, ap, inl, inr, Option, none, some,
  arith, Bool-cases, Option-cases, length, Bytes, equal, equal_iff, if◌then◌else◌, ltb, ltb→lt,
}
use ws_pipeline_dispatcher.ClipStore.Answer.{Answer}
use ws_pipeline_dispatcher.ClipStore.Row.{Row}
use ws_pipeline_dispatcher.ClipStore.Hash.{home_bucket}
use ws_pipeline_dispatcher.ClipStore.Index.Probe.{walk, Stops, empty, here, Probed}
use ws_pipeline_dispatcher.ClipStore.Index.{Buckets, slot}

-- How two numbers compare.
data Comparison (a b : ℕ) : Type 0 where
  below : a < b → Comparison a b
  level : a ≡ b → Comparison a b
  above : b < a → Comparison a b

Nat-cases : (a b : ℕ) → Comparison a b
Nat-cases a b = elim (Bool-cases (ltb a b)) [
  | inl l ↦ below (ltb→lt a b l)
  | inr l ↦ elim (Bool-cases (ltb b a)) [
    | inl m ↦ above (ltb→lt b a m)
    | inr m ↦ level (ground arith)
  ]
]

-- The first row with a key, in the order of the buckets.
unfoldable pub contents : Bytes → Buckets → Option Row
contents key [] = none
contents key (none ∷ bs) = contents key bs
contents key (some row ∷ bs) = if equal row.key key then some row else contents key bs

abbrev pub home : ℕ → Bytes → ℕ
home k key = home_bucket key (2 ^ k)

-- A table of `2 ^ k` buckets: a row stands behind its home with no empty bucket in between, and
-- no two rows have one key.
pub record IsTable (k : ℕ) (bs : Buckets) : Type 0 where
  pub width : length bs ≡ 2 ^ k
  pub placed :
      (i : ℕ) (row : Row)
      → slot bs i ≡ some row
      → (d : ℕ) × (i ≡ walk k (home k row.key) d)
        × ((c : ℕ) → c < d → slot bs (walk k (home k row.key) c) ≢ none)
  pub unique :
      (i j : ℕ) (row row' : Row)
      → slot bs i ≡ some row
      → slot bs j ≡ some row'
      → row.key ≡ row'.key
      → i ≡ j

pub contents_sound :
    (key : Bytes) (bs : Buckets) (row : Row)
    → contents key bs ≡ some row
    → (i : ℕ) × (slot bs i ≡ some row) × (row.key ≡ key)
unfolding contents
contents_sound key [] row h = cc
contents_sound key (none ∷ bs) row h =
    let (i, stored, same) = contents_sound key bs row h in (suc i, stored, same)
contents_sound key (some r ∷ bs) row h = elim (Bool-cases (equal r.key key)) [
  | inl e ↦
      let hit : r ≡ row = ground arith in (0, ap some hit, (equal_iff row.key key).0 (rw hit at e))
  | inr e ↦
      let rest : contents key bs ≡ some row = ground arith in
      let (i, stored, same) = contents_sound key bs row rest in (suc i, stored, same)
]

pub contents-none :
    (key : Bytes) (bs : Buckets) (i : ℕ) (row : Row)
    → contents key bs ≡ none
    → slot bs i ≡ some row
    → row.key ≢ key
unfolding contents
contents-none key [] i row h s = λ e. cc
contents-none key (none ∷ bs) zero row h s = λ e. cc
contents-none key (none ∷ bs) (suc i) row h s = contents-none key bs i row h s
contents-none key (some r ∷ bs) zero row h s = λ e. ground (arith, equal_iff r.key key)
contents-none key (some r ∷ bs) (suc i) row h s = contents-none key bs i row (ground arith) s

module _ {k : ℕ} {bs : Buckets} (t : IsTable k bs) where
  pub contents-stored :
      (i : ℕ) (row : Row) (key : Bytes)
      → slot bs i ≡ some row
      → row.key ≡ key
      → contents key bs ≡ some row
  contents-stored i row key s e = elim (Option-cases (contents key bs)) [
    | inl h ↦ absurd (contents-none key bs i row h s e)
    | inr (r, h) ↦
        let (j, s', e') = contents_sound key bs r h in
        let same : i ≡ j = t.unique i j row r s s' (e ∙ sym e') in h ∙ sym s' ∙ rw (← same) s
  ]

  -- A row with the key can only stand where the probe loop stopped.
  pub Probed-only :
      (key : Bytes) (answer : Answer (Bool × ℕ)) (p : Probed k bs key (home k key) answer) (i : ℕ)
      (row : Row)
      → slot bs i ≡ some row
      → row.key ≡ key
      → i ≡ walk k (home k key) p.distance
  Probed-only key answer p i row s e =
      let place : (d : ℕ) × (i ≡ walk k (home k key) d)
          × ((c : ℕ) → c < d → slot bs (walk k (home k key) c) ≢ none) =
        rw e at (t.placed i row s) in
      let (d, at, filled) = place in
      elim (Nat-cases d p.distance) [
        | below l ↦
            let pass = p.passed d l in
            let same : some pass.row ≡ some row = sym pass.stored ∙ ap (slot bs) (sym at) ∙ s in
            ground (arith, equal_iff pass.row.key key, pass.differs)
        | level l ↦ at ∙ ap (walk k (home k key)) l
        | above l ↦ stopped (walk k (home k key) p.distance) p.found p.stops (filled p.distance l)
      ]
    where
      stopped : (j : ℕ) (found : Bool) → Stops bs key j found → slot bs j ≢ none → i ≡ j
      stopped j _ (empty h) n = absurd (n h)
      stopped j _ (here row' h eq) n =
          t.unique i j row row' s h (e ∙ sym ((equal_iff row'.key key).0 eq))

  -- What the probe loop answers is what the table holds.
  pub Probed-contents :
      (key : Bytes) (answer : Answer (Bool × ℕ)) (p : Probed k bs key (home k key) answer)
      → (if p.found then slot bs (walk k (home k key) p.distance) else none) ≡ contents key bs
  Probed-contents key answer p = answered p.found p.stops
    where
      idx : ℕ
      idx = walk k (home k key) p.distance

      answered :
          (found : Bool)
          → Stops bs key idx found
          → (if found then slot bs idx else none) ≡ contents key bs
      answered _ (here row s e) =
          s ∙ sym (contents-stored idx row key s ((equal_iff row.key key).0 e))
      answered _ (empty h) = elim (Option-cases (contents key bs)) [
        | inl n ↦ sym n
        | inr (row, found) ↦
            let (i, s, e) = contents_sound key bs row found in
            let spot = Probed-only key answer p i row s e in
            let gone : slot bs i ≡ none = ap (slot bs) spot ∙ h in cc
      ]

-- ===== src/ClipStore/Index/Write.antt =====
-- Writing a row where the probe loop stopped keeps the table, and sets the row of its key.
use native.Mathlib.Nat.{mod-lt}
use ws_pipeline_dispatcher.Prelude.{
  ℕ, ◌<◌, Bool, false, ◌≡◌, ◌≢◌, sym, ◌∙◌, ap, ◌⊎◌, inl, inr, Option, none, some, arith, Bool-cases,
  Option-cases, length, length-set, get_or-set_self, get_or-set_ne, set, Bytes, equal, equal_iff,
  ◌==◌, ==_iff, if◌then◌else◌,
}
use ws_pipeline_dispatcher.ClipStore.Answer.{Answer}
use ws_pipeline_dispatcher.ClipStore.Row.{Row}
use ws_pipeline_dispatcher.ClipStore.Hash.Mask.{pow_pos}
use ws_pipeline_dispatcher.ClipStore.Index.Probe.{walk, Stops, empty, here, Probed}
use ws_pipeline_dispatcher.ClipStore.Index.Table.{
  contents, contents_sound, contents-none, home, IsTable, contents-stored, Probed-only,
}
use ws_pipeline_dispatcher.ClipStore.Index.{Buckets, slot}

pub slot-set :
    (bs : Buckets) (s j : ℕ) (v : Option Row)
    → s < length bs
    → slot (set bs s v) j ≡ (if j == s then v else slot bs j)
slot-set bs s j v h = elim (Bool-cases (j == s)) [
  | inl e ↦ let same : j ≡ s = (==_iff j s).0 e in rw (e, same) (get_or-set_self bs s v none h)
  | inr e ↦ rw e (get_or-set_ne bs s j v none (λ same. ground arith))
]

-- The row is stored `d` steps behind its home.
abbrev pub put_at : ℕ → Buckets → Row → ℕ → Buckets
put_at k bs row d = set bs (walk k (home k row.key) d) (some row)

module _ {k : ℕ} {bs : Buckets} (t : IsTable k bs) (row : Row) {answer : Answer (Bool × ℕ)}
    (p : Probed k bs row.key (home k row.key) answer) where
  abbrev spot : ℕ
  spot = walk k (home k row.key) p.distance

  abbrev written : Buckets
  written = put_at k bs row p.distance

  spot-lt : spot < length bs
  spot-lt = rw t.width (mod-lt _ (pow_pos k))

  slot-written : (j : ℕ) → slot written j ≡ (if j == spot then some row else slot bs j)
  slot-written j = slot-set bs spot j (some row) spot-lt

  still_filled : (j : ℕ) → slot bs j ≢ none → slot written j ≢ none
  still_filled j h = ground (arith, slot-written j)

  -- A row of the new table is the new one, or an old one with another key.
  stored_in_written :
      (i : ℕ) (r : Row)
      → slot written i ≡ some r
      → ((i ≡ spot) × (r ≡ row)) ⊎ ((i ≢ spot) × (slot bs i ≡ some r))
  stored_in_written i r s = elim (Bool-cases (i == spot)) [
    | inl e ↦ inl ((==_iff i spot).0 e, ground (arith, slot-written i))
    | inr e ↦ inr (ground arith, ground (arith, slot-written i))
  ]

  other_key : (i : ℕ) (r : Row) → i ≢ spot → slot bs i ≡ some r → r.key ≢ row.key
  other_key i r n s = λ e. n (Probed-only t row.key answer p i r s e)

  written-placed :
      (i : ℕ) (r : Row)
      → slot written i ≡ some r
      → (d : ℕ) × (i ≡ walk k (home k r.key) d)
        × ((c : ℕ) → c < d → slot written (walk k (home k r.key) c) ≢ none)
  written-placed i r s = elim (stored_in_written i r s) [
    | inl (at, e) ↦ rw e (
      p.distance,
      at,
      λ c l. still_filled _ (λ gone. let pass = p.passed c l in cc (gone, pass.stored)),
    )
    | inr (_, old) ↦
        let (d, at, filled) = t.placed i r old in (d, at, λ c l. still_filled _ (filled c l))
  ]

  written_unique :
      (i j : ℕ) (r r' : Row)
      → slot written i ≡ some r
      → slot written j ≡ some r'
      → r.key ≡ r'.key
      → i ≡ j
  written_unique i j r r' s s' e = elim (stored_in_written i r s) [
    | inl (at, new) ↦ elim (stored_in_written j r' s') [
      | inl (at', _) ↦ at ∙ sym at'
      | inr (n, old) ↦ absurd (other_key j r' n old (sym e ∙ ap (λ (x : Row). x.key) new))
    ]
    | inr (n, old) ↦ elim (stored_in_written j r' s') [
      | inl (_, new) ↦ absurd (other_key i r n old (e ∙ ap (λ (x : Row). x.key) new))
      | inr (_, old') ↦ t.unique i j r r' old old' e
    ]
  ]

  pub write-IsTable : IsTable k (put_at k bs row p.distance)
  write-IsTable = record {
    width = length-set bs spot (some row) ∙ t.width;
    placed = written-placed;
    unique = written_unique;
  }

  -- No row with another key stands at the written bucket.
  elsewhere : (i : ℕ) (r : Row) → slot bs i ≡ some r → equal row.key r.key ≡ false → i ≢ spot
  elsewhere i r s differs = λ at. stopped p.found p.stops (ap (slot bs) (sym at) ∙ s)
    where
      stopped : (found : Bool) → Stops bs row.key spot found → slot bs spot ≡ some r → ⊥
      stopped _ (empty h) s' = cc
      stopped _ (here r' h e) s' =
          let one : some r' ≡ some r = sym h ∙ s' in
          ground (arith, equal_iff r'.key row.key, equal_iff row.key r.key)

  others_kept :
      (key : Bytes)
      → equal row.key key ≡ false
      → contents key (put_at k bs row p.distance) ≡ contents key bs
  others_kept key differs = elim (Option-cases (contents key bs)) [
    | inl n ↦ elim (Option-cases (contents key (put_at k bs row p.distance))) [
      | inl n' ↦ n' ∙ sym n
      | inr (r, h) ↦
          let (i, s, e) = contents_sound key (put_at k bs row p.distance) r h in
          elim (stored_in_written i r s) [
            | inl (_, new) ↦
                let e' : row.key ≡ key = ap (λ (x : Row). x.key) (sym new) ∙ e in
                ground (arith, equal_iff row.key key)
            | inr (_, old) ↦ absurd (contents-none key bs i r n old e)
          ]
    ]
    | inr (r, h) ↦
        let (i, s, e) = contents_sound key bs r h in
        let n = elsewhere i r s (rw e differs) in
        contents-stored write-IsTable i r key (ground (arith, slot-written i)) e ∙ sym h
  ]

  -- The key of the row reads as the row, and every other key as before.
  pub write-contents :
      (key : Bytes)
      → contents key (put_at k bs row p.distance)
        ≡ (if equal row.key key then some row else contents key bs)
  write-contents key = elim (Bool-cases (equal row.key key)) [
    | inl e ↦ rw e (
        contents-stored write-IsTable spot row key (ground (arith, slot-written spot))
          ((equal_iff row.key key).0 e))
    | inr e ↦ rw e (others_kept key e)
  ]

-- ===== src/StreamMerge/Drain/Lines.antt =====
-- The lines of a text: the reference that the loop of `drain_meta` is compared with.
use ws_pipeline_dispatcher.Prelude.{
  ℕ, suc, ◌<◌, false, List, [], ◌∷◌, ◌++◌, ◌≡◌, refl, ap, inl, inr, Option, none, some, arith, ◌==◌,
  if◌then◌else◌, Bool-cases, length, take, drop, Bytes, next_index,
}
use ws_pipeline_dispatcher.StreamMerge.Drain.{find_newline}

abbrev pub cons_first : ℕ → List Bytes × Bytes → List Bytes × Bytes
cons_first c ([], rest) = ([], c ∷ rest)
cons_first c (line ∷ lines, rest) = ((c ∷ line) ∷ lines, rest)

-- The lines that end with a newline, and the text behind the last one.
abbrev pub lines_of : Bytes → List Bytes × Bytes
lines_of [] = ([], [])
lines_of (c ∷ s) =
    let (lines, rest) = lines_of s in
    if c == b'\n' then ([] ∷ lines, rest) else cons_first c (lines, rest)

abbrev Lines : Type 0
Lines = List Bytes × Bytes

-- The lines of a first part, with its rest in front of a second part.
abbrev pub continue_with : Bytes → List Bytes × Bytes → List Bytes × Bytes
continue_with t (lines, rest) = (lines ++ (lines_of (rest ++ t)).0, (lines_of (rest ++ t)).1)

joins :
    (c : ℕ) (t : Bytes) (r : Lines)
    → (c == b'\n') ≡ false
    → cons_first c (continue_with t r) ≡ continue_with t (cons_first c r)
joins c t ([], rest) e = rw e refl
joins c t (line ∷ lines, rest) e = refl

-- The lines of a text that comes in two parts: the rest of the first part goes before the second.
pub lines_of-append : (s t : Bytes) → lines_of (s ++ t) ≡ continue_with t (lines_of s)
lines_of-append [] t = refl
lines_of-append (c ∷ s) t = elim (Bool-cases (c == b'\n')) [
  | inl e ↦ rw (e, lines_of-append s t) refl
  | inr e ↦ rw (e, lines_of-append s t) (joins c t (lines_of s) e)
]

next_none : (o : Option ℕ) → next_index o ≡ none → o ≡ none
next_none none h = refl
next_none (some n) h = absurd (cc)

pub lines_of-none : (s : Bytes) → find_newline s ≡ none → lines_of s ≡ ([], s)
unfolding find_newline
lines_of-none [] h = refl
lines_of-none (c ∷ s) h = elim (Bool-cases (c == b'\n')) [
  | inl e ↦ absurd (let h' = rw e at h in cc)
  | inr e ↦ rw e (ap (cons_first c) (lines_of-none s (next_none (find_newline s) (rw e at h))))
]

next_some : (o : Option ℕ) (n : ℕ) → next_index o ≡ some n → (k : ℕ) × (o ≡ some k) × (n ≡ suc k)
next_some none n h = absurd (cc)
next_some (some k) n h = (k, refl, cc)

-- The first newline ends the first line.
abbrev pub cut_at : ℕ → Bytes → Lines
cut_at n s = (take n s ∷ (lines_of (drop (suc n) s)).0, (lines_of (drop (suc n) s)).1)

pub lines_of-some :
    (s : Bytes) (n : ℕ) → find_newline s ≡ some n → (n < length s) × (lines_of s ≡ cut_at n s)
unfolding find_newline
lines_of-some [] n h = absurd (cc)
lines_of-some (c ∷ s) n h = elim (Bool-cases (c == b'\n')) [
  | inl e ↦ let zero_n : n ≡ 0 = (let h' = rw e at h in cc) in rw zero_n (omega arith, rw e refl)
  | inr e ↦
      let (k, found, eq) = next_some (find_newline s) n (rw e at h) in
      let (inside, cut) = lines_of-some s k found in
      rw eq (omega arith, rw e (ap (cons_first c) cut))
]

-- ===== src/LogParse/Filter/Match.antt =====
-- What a filter matches.
use ws_pipeline_dispatcher.Prelude.{
  true, false, [], ◌∷◌, ◌++◌, ◌≡◌, ◌≢◌, ◌↔◌, refl, ap, inl, inr, arith, Option, none, some,
  Bool-cases, Bytes, equal_iff,
}
use ws_pipeline_dispatcher.Prelude.Int.{ℤ, ◌<ℤ◌}
use ws_pipeline_dispatcher.ClipStore.Compact.{has_prefix}
use ws_pipeline_dispatcher.LogParse.Filter.{
  FilterOperator, filter_equals, filter_not_equals, filter_contains, filter_greater_than, Filter,
  Log, log_get, has_infix, match_value, match_fields, parse_i64, number_greater,
}

prefix_sound : (text s : Bytes) → has_prefix text s ≡ true → (back : Bytes) × (s ≡ text ++ back)
unfolding has_prefix
prefix_sound [] s h = (s, refl)
prefix_sound (c ∷ text) [] h = cc
prefix_sound (c ∷ text) (d ∷ s) h =
    let (back, e) = prefix_sound text s (ground arith) in
    let same : d ≡ c = ground arith in (back, rw (same, e) refl)

prefix_complete : (text back : Bytes) → has_prefix text (text ++ back) ≡ true
unfolding has_prefix
prefix_complete [] back = refl
prefix_complete (c ∷ text) back = ground (arith, prefix_complete text back)

infix_sound :
    (text s : Bytes)
    → has_infix text s ≡ true
    → (front : Bytes) × (back : Bytes) × (s ≡ front ++ (text ++ back))
unfolding has_infix
infix_sound text [] h = let (back, e) = prefix_sound text [] h in ([], back, e)
infix_sound text (c ∷ s) h = elim (Bool-cases (has_prefix text (c ∷ s))) [
  | inl p ↦ let (back, e) = prefix_sound text (c ∷ s) p in ([], back, e)
  | inr p ↦
      let (front, back, e) = infix_sound text s (rw p at h) in (c ∷ front, back, ap (λ t. c ∷ t) e)
]

infix_complete : (text front back : Bytes) → has_infix text (front ++ (text ++ back)) ≡ true
unfolding has_infix
infix_complete [] [] [] = unfold has_prefix in refl
infix_complete [] [] (d ∷ back) = unfold has_prefix in refl
infix_complete (c ∷ text) [] back = rw (prefix_complete (c ∷ text) back) refl
infix_complete text (c ∷ front) back = ground (arith, infix_complete text front back)

-- What each operator asks of a value.
abbrev pub Holds : FilterOperator → Bytes → Bytes → Type 0
Holds filter_equals value text = value ≡ text
Holds filter_not_equals value text = value ≢ text
Holds filter_contains value text =
    (front : Bytes) × (back : Bytes) × (value ≡ front ++ (text ++ back))
Holds filter_greater_than value text =
    (lhs : ℤ) × (rhs : ℤ) × (parse_i64 value ≡ some lhs)
    × (parse_i64 text ≡ some rhs)
    × (rhs <ℤ lhs)

pub greater_sound :
    (l r : Option ℤ)
    → number_greater l r ≡ true
    → (lhs : ℤ) × (rhs : ℤ) × (l ≡ some lhs) × (r ≡ some rhs) × (rhs <ℤ lhs)
unfolding number_greater
greater_sound none r h = cc
greater_sound (some lhs) none h = cc
greater_sound (some lhs) (some rhs) h = (lhs, rhs, refl, refl, ground arith)

pub greater_complete : (lhs rhs : ℤ) → rhs <ℤ lhs → number_greater (some lhs) (some rhs) ≡ true
unfolding number_greater
greater_complete lhs rhs h = ground arith

pub match_value_lem :
    (op : FilterOperator) (value text : Bytes)
    → (match_value op value text ≡ true) ↔ Holds op value text
unfolding match_value
match_value_lem filter_equals value text = equal_iff value text
match_value_lem filter_not_equals value text = ground (arith, equal_iff value text)
match_value_lem filter_contains value text =
    (infix_sound text value, λ (front, back, e). rw e (infix_complete text front back))
match_value_lem filter_greater_than value text = (
  greater_sound (parse_i64 value) (parse_i64 text),
  λ (lhs, rhs, l, r, h). rw (l, r) (greater_complete lhs rhs h),
)

-- What a filter asks of a record: it has the field, and the field's value passes.
pub data Passes (log : Log) (f : Filter) : Type 0 where
  passes :
      (value : Bytes) → log_get log f.key ≡ some value → Holds f.op value f.value → Passes log f

missing_fails : (log : Log) (f : Filter) → log_get log f.key ≡ none → Passes log f → ⊥
missing_fails log f e (passes value e' h) = cc

Passes-value :
    (log : Log) (f : Filter) (value : Bytes)
    → log_get log f.key ≡ some value
    → Passes log f
    → Holds f.op value f.value
Passes-value log f value e (passes value' e' h) = let same : value' ≡ value = cc in rw same at h

-- A filter matches a record exactly if the record has the field and its value is equal to,
-- differs from or contains the filter's text, or both are 64-bit numbers and the value is
-- greater.
pub match_fields_lem : (log : Log) (f : Filter) → (match_fields log (some f) ≡ true) ↔ Passes log f
unfolding match_fields
match_fields_lem log f = go (log_get log f.key) refl
  where
    go :
        (o : Option Bytes)
        → log_get log f.key ≡ o
        → (elim o [ none ↦ false | some value ↦ match_value f.op value f.value ] ≡ true)
          ↔ Passes log f
    go none e = (λ h. cc, λ p. absurd (missing_fails log f e p))
    go (some value) e = (
      λ h. passes value e ((match_value_lem f.op value f.value).0 h),
      λ p. (match_value_lem f.op value f.value).1 (Passes-value log f value e p),
    )

-- ===== src/LogParse/Filter/Parse.antt =====
-- A filter that was parsed is the expression, cut at its operator.
use ws_pipeline_dispatcher.Prelude.{
  ℕ, ◌&&◌, [], ◌∷◌, ◌++◌, ◌≡◌, ◌≢◌, refl, ap, ◌∙◌, inl, inr, arith, Option, none, some, ◌==◌,
  Bool-cases, Bytes,
}
use ws_pipeline_dispatcher.ClipStore.Format.{split_at}
use ws_pipeline_dispatcher.LogParse.Filter.{
  FilterOperator, filter_equals, filter_not_equals, filter_contains, filter_greater_than, Filter,
  split_not_equals, checked, try_operator, log_filter_parse,
}

-- The operator as it is written.
abbrev pub operator_text : FilterOperator → Bytes
operator_text filter_equals = b'=' ∷ []
operator_text filter_not_equals = b'!' ∷ b'=' ∷ []
operator_text filter_contains = b'~' ∷ []
operator_text filter_greater_than = b'>' ∷ []

abbrev consed : ℕ → Option (Bytes × Bytes) → Option (Bytes × Bytes)
consed c o = elim o [ none ↦ none | some (front, back) ↦ some (c ∷ front, back) ]

consed_sound :
    (c : ℕ) (o : Option (Bytes × Bytes)) (a b text s : Bytes)
    → ((a' b' : Bytes) → o ≡ some (a', b') → s ≡ a' ++ (text ++ b'))
    → consed c o ≡ some (a, b)
    → c ∷ s ≡ a ++ (text ++ b)
consed_sound c none a b text s h e = cc
consed_sound c (some (a', b')) a b text s h e =
    let front : c ∷ a' ≡ a = cc in
    let back : b' ≡ b = cc in ap (λ t. c ∷ t) (h a' b' refl) ∙ rw (← front, ← back) refl

split_at_sound : (c : ℕ) (s a b : Bytes) → split_at c s ≡ some (a, b) → s ≡ a ++ c ∷ b
unfolding split_at
split_at_sound c [] a b h = cc
split_at_sound c (x ∷ s) a b h = elim (Bool-cases (x == c)) [
  | inl e ↦
      let h' : ◌≡◌ {A = Option (Bytes × Bytes)} (some ([], s)) (some (a, b)) = rw e at h in
      let front : [] ≡ a = cc in
      let back : s ≡ b = cc in let same : x ≡ c = ground arith in rw (← front, ← back, same) refl
  | inr e ↦
      consed_sound x (split_at c s) a b (c ∷ []) s (λ a' b' i. split_at_sound c s a' b' i)
        (rw e at h)
]

split_not_equals_sound :
    (s a b : Bytes) → split_not_equals s ≡ some (a, b) → s ≡ a ++ (b'!' ∷ b'=' ∷ b)
unfolding split_not_equals
split_not_equals_sound [] a b h = cc
split_not_equals_sound (c ∷ []) a b h = cc
split_not_equals_sound (c ∷ d ∷ s) a b h = elim (Bool-cases (c == b'!' && d == b'=')) [
  | inl e ↦
      let h' : ◌≡◌ {A = Option (Bytes × Bytes)} (some ([], s)) (some (a, b)) = rw e at h in
      let front : [] ≡ a = cc in
      let back : s ≡ b = cc in
      let c_is : c ≡ b'!' = ground arith in
      let d_is : d ≡ b'=' = ground arith in rw (← front, ← back, c_is, d_is) refl
  | inr e ↦
      consed_sound c (split_not_equals (d ∷ s)) a b (b'!' ∷ b'=' ∷ []) (d ∷ s)
        (λ a' b' i. split_not_equals_sound (d ∷ s) a' b' i) (rw e at h)
]

-- The expression, cut at the operator, with no part empty.
pub record IsCut (expr : Bytes) (f : Filter) : Type 0 where
  pub whole : expr ≡ f.key ++ (operator_text f.op ++ f.value)
  pub has_key : f.key ≢ []
  pub has_value : f.value ≢ []

checked-IsCut :
    (expr : Bytes) (op : FilterOperator) (key value : Bytes) (f : Filter)
    → expr ≡ key ++ (operator_text op ++ value)
    → checked op key value ≡ some f
    → IsCut expr f
unfolding checked
checked-IsCut expr op [] value f e h = cc
checked-IsCut expr op (c ∷ key) [] f e h = cc
checked-IsCut expr op (c ∷ key) (d ∷ value) f e h =
    let same : record { op = op; key = c ∷ key; value = d ∷ value } ≡ f = cc in
    rw (← same) (record { whole = e; has_key = λ n. cc; has_value = λ n. cc })

try-IsCut :
    (expr : Bytes) (op : FilterOperator) (o : Option (Bytes × Bytes)) (otherwise : Option Filter)
    (f : Filter)
    → ((a b : Bytes) → o ≡ some (a, b) → expr ≡ a ++ (operator_text op ++ b))
    → (otherwise ≡ some f → IsCut expr f)
    → try_operator op o otherwise ≡ some f
    → IsCut expr f
unfolding try_operator
try-IsCut expr op none otherwise f h k e = k e
try-IsCut expr op (some (a, b)) otherwise f h k e = checked-IsCut expr op a b f (h a b refl) e

-- A filter that was parsed has a key and a value that are not empty, and the expression is the
-- key, the operator and the value, in this order.
pub filter_parse-IsCut : (expr : Bytes) (f : Filter) → log_filter_parse expr ≡ some f → IsCut expr f
unfolding log_filter_parse
filter_parse-IsCut expr f =
    try-IsCut expr filter_not_equals (split_not_equals expr) _ f (split_not_equals_sound expr) (
      try-IsCut expr filter_greater_than (split_at b'>' expr) _ f (split_at_sound b'>' expr) (
        try-IsCut expr filter_contains (split_at b'~' expr) _ f (split_at_sound b'~' expr) (
          try-IsCut expr filter_equals (split_at b'=' expr) none f (split_at_sound b'=' expr)
            (λ e. cc))))

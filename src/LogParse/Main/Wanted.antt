-- ===== src/LogParse/Main/Wanted.antt =====
-- applets/log_parse/log_filter_expr.c, `log_filter_match_jsonl`: which texts a filter takes, and for
-- which it has an answer.
use ws_pipeline_dispatcher.Prelude.{
  ◌<◌, true, List, [], ◌∷◌, ◌≡◌, ◌↔◌, refl, ap, inl, inr, Option, none, some, some_inj, Bool-cases,
  length, Bytes, is_some,
}
use ws_pipeline_dispatcher.Prelude.Int.{ℤ, ◌<ℤ◌}
use ws_pipeline_dispatcher.Json.{Cjson, Value, get_item, get_scalar_text, get_int64, is_object}
use ws_pipeline_dispatcher.Json.Getters.{Spells, HasInteger, get_integers_lem, get_texts_lem}
use ws_pipeline_dispatcher.ClipStore.Format.{c_string}
use ws_pipeline_dispatcher.LogParse.Filter.{
  Filter, FilterOperator, filter_equals, filter_not_equals, filter_contains, filter_greater_than,
  parse_i64,
}
use ws_pipeline_dispatcher.LogParse.Filter.Match.{
  Holds, match_value_lem, greater_sound, greater_complete,
}
use ws_pipeline_dispatcher.LogParse.Main.Lines.{
  matches_text, match_item, match_filter, match_jsonl, value_size,
}
use ws_pipeline_dispatcher.LogParse.Main.Trim.{Trims}

-- From lines, the trimmed texts of which something holds, in their order.
pub data Selects (P : Bytes → Type 0) : List Bytes → List Bytes → Type 0 where
  no_lines : Selects P [] []
  keeps :
      (line text : Bytes) {lines kept : List Bytes}
      → Trims (c_string line) text
      → P text
      → Selects P lines kept
      → Selects P (line ∷ lines) (text ∷ kept)
  drops :
      (line text : Bytes) {lines kept : List Bytes}
      → Trims (c_string line) text
      → ¬ P text
      → Selects P lines kept
      → Selects P (line ∷ lines) kept

module _ (lib : Cjson) (text : Bytes) where
  -- The object has a scalar under the key, whose text has at most 1023 bytes.
  abbrev pub HasText : Bytes → Bytes → Type 0
  HasText key value =
      ((item : Value) × (get_item lib text key ≡ some item) × Spells lib item value)
      × (length value < value_size)

  -- What a filter asks of the object of a line. An integer is compared as it is, without the detour
  -- of its text.
  abbrev pub ItemPasses : Filter → FilterOperator → Type 0
  ItemPasses f filter_greater_than =
      (lhs : ℤ) × (rhs : ℤ) × HasInteger lib text f.key lhs
      × (parse_i64 f.value ≡ some rhs)
      × (rhs <ℤ lhs)
  ItemPasses f filter_equals =
      (value : Bytes) × HasText f.key value × Holds filter_equals value f.value
  ItemPasses f filter_not_equals =
      (value : Bytes) × HasText f.key value × Holds filter_not_equals value f.value
  ItemPasses f filter_contains =
      (value : Bytes) × HasText f.key value × Holds filter_contains value f.value

  -- What the filter needs to be asked at all.
  abbrev pub ItemServes : Filter → FilterOperator → Type 0
  ItemServes f filter_greater_than = Unit
  ItemServes f filter_equals = (value : Bytes) × HasText f.key value
  ItemServes f filter_not_equals = (value : Bytes) × HasText f.key value
  ItemServes f filter_contains = (value : Bytes) × HasText f.key value

  abbrev pub Passes : Option Filter → Type 0
  Passes none = Unit
  Passes (some f) = ItemPasses f f.op

  abbrev pub Serves : Option Filter → Type 0
  Serves none = Unit
  Serves (some f) = ItemServes f f.op

  has_text :
      (key value : Bytes)
      → (get_scalar_text lib text key value_size ≡ some value) ↔ HasText key value
  has_text key value = (get_texts_lem lib text key value_size value).1

  text_passes :
      (op : FilterOperator) (f : Filter)
      → (matches_text op f.value (get_scalar_text lib text f.key value_size) ≡ some true)
        ↔ ((value : Bytes) × HasText f.key value × Holds op value f.value)
  text_passes op f = go (get_scalar_text lib text f.key value_size) refl
    where
      go :
          (o : Option Bytes)
          → get_scalar_text lib text f.key value_size ≡ o
          → (matches_text op f.value o ≡ some true)
            ↔ ((value : Bytes) × HasText f.key value × Holds op value f.value)
      go none e = (λ h. cc, λ (value, t, h). let e' = (has_text f.key value).1 t in cc)
      go (some v) e = (
        λ h. (v, (has_text f.key v).0 e, (match_value_lem op v f.value).0 (some_inj h)),
        λ (value, t, h).
            let e' = (has_text f.key value).1 t in
            let same : value ≡ v = cc in ap some ((match_value_lem op v f.value).1 (rw same at h)),
      )

  item_passes :
      (f : Filter) (op : FilterOperator) → (match_item lib text f op ≡ some true) ↔ ItemPasses f op
  unfolding match_item
  item_passes f filter_greater_than = (
    λ h.
        let (lhs, rhs, l, r, lt) =
          greater_sound (get_int64 lib text f.key) (parse_i64 f.value) (some_inj h) in
        (lhs, rhs, ((get_integers_lem lib text f.key).0 lhs).0 l, r, lt),
    λ (lhs, rhs, l, r, lt).
        let l' = ((get_integers_lem lib text f.key).0 lhs).1 l in
        rw (l', r) (ap some (greater_complete lhs rhs lt)),
  )
  item_passes f filter_equals = text_passes filter_equals f
  item_passes f filter_not_equals = text_passes filter_not_equals f
  item_passes f filter_contains = text_passes filter_contains f

  filter-Passes : (o : Option Filter) → (match_filter lib text o ≡ some true) ↔ Passes o
  filter-Passes none = (λ h. tt, λ h. refl)
  filter-Passes (some f) = item_passes f f.op

  -- It is an object that passes the filter.
  abbrev pub Wanted : Option Filter → Type 0
  Wanted o = (is_object lib text ≡ true) × Passes o

  pub wanted_lem : (o : Option Filter) → (match_jsonl lib text o ≡ some true) ↔ Wanted o
  unfolding match_jsonl
  wanted_lem o = elim (Bool-cases (is_object lib text)) [
    | inl e ↦ rw e (λ h. (refl, (filter-Passes o).0 h), λ h. (filter-Passes o).1 h.1)
    | inr e ↦ rw e (λ h. cc, λ h. cc)
  ]

  -- An answer is given.
  text_serves :
      (op : FilterOperator) (f : Filter)
      → (is_some (matches_text op f.value (get_scalar_text lib text f.key value_size)) ≡ true)
        ↔ ((value : Bytes) × HasText f.key value)
  text_serves op f = go (get_scalar_text lib text f.key value_size) refl
    where
      go :
          (o : Option Bytes)
          → get_scalar_text lib text f.key value_size ≡ o
          → (is_some (matches_text op f.value o) ≡ true) ↔ ((value : Bytes) × HasText f.key value)
      go none e = (λ h. cc, λ (value, t). let e' = (has_text f.key value).1 t in cc)
      go (some v) e = (λ h. (v, (has_text f.key v).0 e), λ h. refl)

  item_serves :
      (f : Filter) (op : FilterOperator)
      → (is_some (match_item lib text f op) ≡ true) ↔ ItemServes f op
  unfolding match_item
  item_serves f filter_greater_than = (λ h. tt, λ h. refl)
  item_serves f filter_equals = text_serves filter_equals f
  item_serves f filter_not_equals = text_serves filter_not_equals f
  item_serves f filter_contains = text_serves filter_contains f

  filter-Serves : (o : Option Filter) → (is_some (match_filter lib text o) ≡ true) ↔ Serves o
  filter-Serves none = (λ h. tt, λ h. refl)
  filter-Serves (some f) = item_serves f f.op

  -- It is an object of which the filter can be asked.
  abbrev pub Asked : Option Filter → Type 0
  Asked o = (is_object lib text ≡ true) × Serves o

  pub asked_lem : (o : Option Filter) → (is_some (match_jsonl lib text o) ≡ true) ↔ Asked o
  unfolding match_jsonl
  asked_lem o = elim (Bool-cases (is_object lib text)) [
    | inl e ↦ rw e (λ h. (refl, (filter-Serves o).0 h), λ h. (filter-Serves o).1 h.1)
    | inr e ↦ rw e (λ h. cc, λ h. cc)
  ]

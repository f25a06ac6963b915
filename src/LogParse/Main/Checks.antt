-- ===== src/LogParse/Main/Checks.antt =====
-- applets/log_parse/log_parse.c: what the checks before the input make sure of.
use mathlib.Core.Path.{subst}
use ws_pipeline_dispatcher.Prelude.{
  ℕ, zero, suc, ◌<◌, Bool, true, false, List, [], ◌∷◌, ◌≡◌, refl, sym, ap, ◌∙◌, inl, inr, Option,
  none, some, arith, ◌==◌, if◌then◌else◌, Bool-cases, length, Bytes, equal, equal_iff, get_or,
  next_index,
}
use ws_pipeline_dispatcher.LogParse.Filter.{Log}
use ws_pipeline_dispatcher.LogParse.Regex
use ws_pipeline_dispatcher.LogParse.Regex.{Regex, split_fields, parsed}
use ws_pipeline_dispatcher.LogParse.Regex.Groups.{Captures, all_done, capture, parse_line-Captures}
use ws_pipeline_dispatcher.LogParse.Aggregate.{AggOp}
use ws_pipeline_dispatcher.LogParse.Main.{
  Options, OrExit, go, exits, and_go, or_exit, World, Mode, by_regex, by_json, Setup, Format,
  index_of, agg_index, open_log, regex_mode, mode_for, choose_mode, set_up, parse_format,
}
use ws_pipeline_dispatcher.LogParse.Main.Lines.{value_at}

and_go_eq {ℓ κ} :
    {A : Type ℓ} {B : Type κ} (o : OrExit A) (f : A → OrExit B) {b : B}
    → and_go o f ≡ go b
    → (a : A) × (o ≡ go a) × (f a ≡ go b)
and_go_eq (go a) f e = (a, refl, e)
and_go_eq (exits code) f e = absurd (cc)

same_field :
    {op op' : AggOp} {a b : Bytes}
    → ◌≡◌ {A = Option (AggOp × Bytes)} (some (op, a)) (some (op', b))
    → a ≡ b
same_field e = cc

go_inj {ℓ} : {A : Type ℓ} {a b : A} → go a ≡ go b → a ≡ b
go_inj e = cc

or_exit_eq {ℓ} : {A : Type ℓ} (o : Option A) {a : A} → or_exit o ≡ go a → o ≡ some a
or_exit_eq none e = absurd (cc)
or_exit_eq (some b) e = ap some (go_inj e)

next_eq : (o : Option ℕ) (i : ℕ) → next_index o ≡ some i → (k : ℕ) × (o ≡ some k) × (i ≡ suc k)
next_eq none i e = absurd (cc)
next_eq (some k) i e = (k, refl, cc)

-- An index that is found is within the names.
index_of-inside :
    (names : List Bytes) (field : Bytes) (i : ℕ)
    → index_of names field ≡ some i
    → (i < length names) × (get_or names i [] ≡ field)
unfolding index_of
index_of-inside [] field i e = absurd (cc)
index_of-inside (name ∷ names) field i e = elim (Bool-cases (equal name field)) [
  | inl same ↦
      let first : i ≡ 0 = (let e' = rw same at e in cc) in
      rw first (omega arith, (equal_iff name field).0 same)
  | inr other ↦
      let (k, found, eq) = next_eq (index_of names field) i (rw other at e) in
      let (inside, at_k) = index_of-inside names field k found in rw eq (omega arith, at_k)
]

-- The mode and the aggregate fit: in regex mode the index is that of the aggregate's field, and
-- there is none without an aggregate.
pub data IsMode (agg : Option (AggOp × Bytes)) : Mode → Type 0 where
  json : IsMode agg by_json
  plain : (regex : Regex) (names : List Bytes) → agg ≡ none → IsMode agg (by_regex regex names none)
  indexed :
      (regex : Regex) (names : List Bytes) (i : ℕ) (op : AggOp)
      → i < length names
      → agg ≡ some (op, get_or names i [])
      → IsMode agg (by_regex regex names (some i))

agg_index-IsMode :
    (regex : Regex) (names : List Bytes) (agg : Option (AggOp × Bytes)) (i : Option ℕ)
    → agg_index names agg ≡ go i
    → IsMode agg (by_regex regex names i)
unfolding agg_index
agg_index-IsMode regex names none i e =
    subst (λ j. IsMode none (by_regex regex names j)) (go_inj e) (plain regex names refl)
agg_index-IsMode regex names (some (op, field)) i e =
    let (k, found, e') = and_go_eq (or_exit (index_of names field)) _ e in
    let (inside, name) = index_of-inside names field k (or_exit_eq (index_of names field) found) in
    subst (λ j. IsMode (some (op, field)) (by_regex regex names j)) (go_inj e')
      (indexed regex names k op inside (ap (λ f. some (op, f)) (sym name)))

Captures-value :
    {line : Bytes} (names : List Bytes) (log : Log) (i : ℕ)
    → Captures line names log
    → i < length names
    → (text : Bytes) × (value_at log i ≡ some text)
Captures-value names log i all_done inside = absurd (omega arith)
Captures-value names log zero (capture name s ns log' p c) inside = (s, refl)
Captures-value names log (suc i) (capture name s ns log' p c) inside =
    Captures-value ns log' i c (omega arith)

module _ {W : Type 0} (w : World W) where
  regex_mode-IsMode :
      (pattern : Bytes) (fields : Option Bytes) (agg : Option (AggOp × Bytes)) (m : Mode)
      → regex_mode w pattern fields agg ≡ go m
      → IsMode agg m
  unfolding regex_mode
  regex_mode-IsMode pattern none agg m e = absurd (cc)
  regex_mode-IsMode pattern (some arg) agg m e =
      let (names, _, e₁) = and_go_eq (or_exit (split_fields w.heap arg)) _ e in
      elim (Bool-cases (length names == 0)) [
        | inl empty_list ↦ absurd (let e' = rw empty_list at e₁ in cc)
        | inr some_name ↦
            let e₂ = rw some_name at e₁ in
            let (regex, _, e₃) = and_go_eq (or_exit (w.compiles pattern)) _ e₂ in
            let (i, found, e₄) = and_go_eq (agg_index names agg) _ e₃ in
            subst (IsMode agg) (go_inj e₄) (agg_index-IsMode regex names agg i found)
      ]

  mode_for-IsMode :
      (o : Options) (fmt : Format) (pattern : Option Bytes) (m : Mode)
      → mode_for w o fmt pattern ≡ go m
      → IsMode o.agg m
  mode_for-IsMode o fmt (some pattern) m e = regex_mode-IsMode pattern o.fields_arg o.agg m e
  mode_for-IsMode o fmt none m e = accepted _ e
    where
      accepted : (b : Bool) → (if b then exits 1 else go by_json) ≡ go m → IsMode o.agg m
      accepted true e = absurd (cc)
      accepted false e = subst (IsMode o.agg) (go_inj e) json

  set_up-IsMode : (o : Options) (s : Setup) → set_up w o ≡ go s → IsMode s.agg s.mode
  unfolding set_up choose_mode
  set_up-IsMode o s e =
      let (fmt, _, e₁) = and_go_eq (or_exit (parse_format o.format_arg)) _ e in
      let (logs, _, e₂) = and_go_eq (open_log w o.full_log_path) _ e₁ in
      let (mode, chosen, e₃) = and_go_eq (mode_for w o fmt o.regex_pattern) _ e₂ in
      subst (λ t. IsMode t.agg t.mode) (go_inj e₃)
        (mode_for-IsMode o fmt o.regex_pattern mode chosen)

  -- If the checks pass with an aggregate in regex mode, the index is that of the aggregate's
  -- field among the names, and every record that is parsed has a value at the index.
  pub agg_value_lem :
      (o : Options) (s : Setup) (regex : Regex) (names : List Bytes) (index : Option ℕ) (op : AggOp)
      (field line : Bytes) (log : Log)
      → set_up w o ≡ go s
      → s.mode ≡ by_regex regex names index
      → s.agg ≡ some (op, field)
      → Regex.parse_line w.heap line regex names ≡ parsed log
      → (i : ℕ) × (index ≡ some i)
        × (get_or names i [] ≡ field)
        × ((text : Bytes) × (value_at log i ≡ some text))
  agg_value_lem o s regex names index op field line log e mode agg p =
      from_mode index (subst (IsMode s.agg) mode (set_up-IsMode o s e))
    where
      from_mode :
          (index : Option ℕ)
          → IsMode s.agg (by_regex regex names index)
          → (i : ℕ) × (index ≡ some i)
            × (get_or names i [] ≡ field)
            × ((text : Bytes) × (value_at log i ≡ some text))
      from_mode none (plain rx ns none_given) = absurd (cc)
      from_mode (some i) (indexed rx ns j op' inside given) =
          let same : some (op', get_or names i []) ≡ some (op, field) = sym given ∙ agg in
          (
            i,
            refl,
            same_field same,
            Captures-value names log i (parse_line-Captures w.heap line regex names log p) inside,
          )

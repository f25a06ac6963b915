-- ===== src/LogParse/Main/FullLog.antt =====
-- applets/log_parse/log_parse.c in JSON mode: the lines that the full log gets.
use mathlib.Core.List.{append_assoc, append-nil}
use ws_pipeline_dispatcher.Prelude.{
  Bool, true, false, ◌&&◌, List, [], ◌∷◌, ◌++◌, ◌≡◌, refl, sym, ap, ◌∙◌, inl, inr, Option, none,
  some, if◌then◌else◌, Bool-cases, Option-cases, Bytes, is_some,
}
use ws_pipeline_dispatcher.Prelude.Int.{ℤ}
use ws_pipeline_dispatcher.Json.{get_int64, is_object, get_scalar_text}
use ws_pipeline_dispatcher.LogParse.Filter.{
  Filter, FilterOperator, filter_equals, filter_not_equals, filter_contains, filter_greater_than,
}
use ws_pipeline_dispatcher.LogParse.Aggregate.{AggOp}
use ws_pipeline_dispatcher.LogParse.Main.{
  Format, format_json, format_csv, format_count, World, by_json, Setup,
}
use ws_pipeline_dispatcher.LogParse.Main.Lines.{
  State, Line, next, one_line, match_jsonl, match_filter, match_item, matches_text, json_line,
  take_if, take_line, add_number, value_size,
}
use ws_pipeline_dispatcher.LogParse.Main.Loop.{all_lines}
use ws_pipeline_dispatcher.LogParse.Main.Trim.{trim_line-Trims}
use ws_pipeline_dispatcher.LogParse.Main.Wanted.{Selects, no_lines, keeps, drops, Asked, asked_lem}
use ws_pipeline_dispatcher.ClipStore.Format.{c_string}
use ws_pipeline_dispatcher.LogParse.Main.Json.{LetsAll, line_text, unlines}

module _ {W : Type 0} (w : World W) (filter : Option Filter) where
  -- A line with a scalar text for the filter's key, of the size that the filter reads.
  abbrev pub has_text : Bytes → Filter → FilterOperator → Bool
  has_text text f filter_greater_than = true
  has_text text f filter_equals = is_some (get_scalar_text w.lib text f.key value_size)
  has_text text f filter_not_equals = is_some (get_scalar_text w.lib text f.key value_size)
  has_text text f filter_contains = is_some (get_scalar_text w.lib text f.key value_size)

  abbrev pub has_key : Bytes → Option Filter → Bool
  has_key text none = true
  has_key text (some f) = has_text text f f.op

  -- The trimmed lines that are JSON objects and have what the filter compares.
  abbrev pub logged : List Bytes → List Bytes
  logged [] = []
  logged (line ∷ lines) =
      let text = line_text w filter line in
      let rest = logged lines in
      if is_object w.lib text && has_key text filter then text ∷ rest else rest

  abbrev Answers : Bool → Option Bool → Type 0
  Answers answered o = is_some o ≡ answered

  matches_text-Answers :
      (op : FilterOperator) (text : Bytes) (o : Option Bytes)
      → Answers (is_some o) (matches_text op text o)
  matches_text-Answers op text none = refl
  matches_text-Answers op text (some value) = refl

  match_item-Answers :
      (text : Bytes) (f : Filter) (op : FilterOperator)
      → Answers (has_text text f op) (match_item w.lib text f op)
  unfolding match_item
  match_item-Answers text f filter_greater_than = refl
  match_item-Answers text f filter_equals = matches_text-Answers filter_equals f.value _
  match_item-Answers text f filter_not_equals = matches_text-Answers filter_not_equals f.value _
  match_item-Answers text f filter_contains = matches_text-Answers filter_contains f.value _

  match_filter-Answers :
      (text : Bytes) (o : Option Filter) → Answers (has_key text o) (match_filter w.lib text o)
  match_filter-Answers text none = refl
  match_filter-Answers text (some f) = match_item-Answers text f f.op

  match_jsonl-Answers :
      (text : Bytes)
      → Answers (is_object w.lib text && has_key text filter) (match_jsonl w.lib text filter)
  unfolding match_jsonl
  match_jsonl-Answers text = elim (Bool-cases (is_object w.lib text)) [
    | inl e ↦ rw e (match_filter-Answers text filter)
    | inr e ↦ rw e refl
  ]

  logged-Selects :
      (lines : List Bytes) → Selects (λ text. Asked w.lib text filter) lines (logged lines)
  logged-Selects [] = no_lines
  logged-Selects (line ∷ lines) =
      let text = line_text w filter line in
      let trims = trim_line-Trims (c_string line) in
      let asked = asked_lem w.lib text filter in
      let answers = match_jsonl-Answers text in
      let rest = logged-Selects lines in
      elim (Bool-cases (is_object w.lib text && has_key text filter)) [
        | inl e ↦ rw e (keeps line text trims (asked.0 (answers ∙ e)) rest)
        | inr e ↦ rw e (drops line text trims (λ h. let e' = asked.1 h in cc) rest)
      ]

  abbrev pub log_setup : Format → Option (AggOp × Bytes) → Setup
  log_setup fmt agg = record {
    mode = by_json;
    format_ = fmt;
    filter_ = filter;
    agg = agg;
    logs = true;
  }

  module _ (fmt : Format) (agg : Option (AggOp × Bytes)) where
    abbrev KeepsLog : State W → Line W → Type 0
    KeepsLog st line = (st' : State W) × (line ≡ next st') × (st'.log ≡ st.log)

    add_number-KeepsLog :
        (st : State W) (o : Option ℤ) → KeepsLog st (add_number w (log_setup fmt agg) st o)
    add_number-KeepsLog st none = (st, refl, refl)
    add_number-KeepsLog st (some z) = (_, refl, refl)

    take_line-KeepsLog :
        (text : Bytes) (st : State W) (o : Option (AggOp × Bytes)) (f : Format)
        → KeepsLog st (take_line w (log_setup fmt agg) text st o f)
    take_line-KeepsLog text st (some (op, key)) f =
        add_number-KeepsLog st (get_int64 w.lib text key)
    take_line-KeepsLog text st none format_count = (_, refl, refl)
    take_line-KeepsLog text st none format_json = (_, refl, refl)
    take_line-KeepsLog text st none format_csv = (_, refl, refl)

    take_if-KeepsLog :
        (text : Bytes) (b : Bool) (st : State W)
        → KeepsLog st (take_if w (log_setup fmt agg) text b st)
    take_if-KeepsLog text true st = take_line-KeepsLog text st agg fmt
    take_if-KeepsLog text false st = (st, refl, refl)

    -- The run goes through all lines and logs those.
    logged_lem :
        (lines : List Bytes) (st : State W)
        → LetsAll w.full
        → ((all_lines w (log_setup fmt agg) lines st).1 ≡ 0)
          × ((all_lines w (log_setup fmt agg) lines st).0.log
              ≡ st.log ++ unlines w filter (logged lines))
    unfolding all_lines one_line json_line
    logged_lem [] st open_log = (refl, sym (append-nil st.log))
    logged_lem (line ∷ lines) st open_log =
        let text = line_text w filter line in
        let answers = match_jsonl-Answers text in
        elim (Option-cases (match_jsonl w.lib text filter)) [
          | inl e ↦
              let skipped : (is_object w.lib text && has_key text filter) ≡ false =
                sym answers ∙ ap is_some e in
              rw (e, skipped) (logged_lem lines st open_log)
          | inr found ↦
              let (b, e) = found in
              let taken : (is_object w.lib text && has_key text filter) ≡ true =
                sym answers ∙ ap is_some e in
              let more = text ++ b'\n' ∷ [] in
              let st₁ : State W = record st { log = st.log ++ more } in
              let (st₂, goes, same) = take_if-KeepsLog text b st₁ in
              let (code, log) = logged_lem lines st₂ open_log in
              rw (e, taken, open_log st.log more, goes)
                (
                  code,
                  log
                      ∙ ap (λ l. l ++ unlines w filter (logged lines)) same
                      ∙ append_assoc st.log more _,
                )
        ]

    -- In JSON mode, with a full log that takes every write, the run goes through all lines,
    -- whatever becomes of stdout, and appends to the log, in order, the texts of exactly those
    -- lines whose text, without the white space at its ends, is a JSON object that has, where
    -- there is a filter and it is not `>`, a scalar with a text of at most 1023 bytes under the
    -- filter's key.
    pub full_log_lem :
        (lines : List Bytes) (st : State W)
        → LetsAll w.full
        → ((all_lines w (log_setup fmt agg) lines st).1 ≡ 0)
          × ((kept : List Bytes) × Selects (λ text. Asked w.lib text filter) lines kept
              × ((all_lines w (log_setup fmt agg) lines st).0.log
                  ≡ st.log ++ unlines w filter kept))
    full_log_lem lines st open_log =
        let (code, log) = logged_lem lines st open_log in
        (code, (logged lines, logged-Selects lines, log))

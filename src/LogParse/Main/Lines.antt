-- ===== src/LogParse/Main/Lines.antt =====
-- applets/log_parse/log_parse.c and log_filter_expr.c: what is done with a line of the input.
use ws_pipeline_dispatcher.Prelude.{
  ℕ, zero, suc, ◌+◌, Bool, true, false, List, [], ◌∷◌, ◌++◌, Option, none, some, if◌then◌else◌,
  Bytes,
}
use ws_pipeline_dispatcher.Prelude.Int.{ℤ}
use ws_pipeline_dispatcher.Json.{Cjson, is_object, is_space, get_scalar_text, get_int64}
use ws_pipeline_dispatcher.ClipStore.Format.{c_string}
use ws_pipeline_dispatcher.StreamMerge.Emit.{Printed, cut_print}
use ws_pipeline_dispatcher.LogParse.Filter.{
  Filter, FilterOperator, filter_equals, filter_not_equals, filter_contains, filter_greater_than,
  Log, match_value, match_fields, parse_i64, number_greater,
}
use ws_pipeline_dispatcher.LogParse.Regex
use ws_pipeline_dispatcher.LogParse.Regex.{Regex, Parsed, parsed, unmatched, no_memory}
use ws_pipeline_dispatcher.LogParse.Aggregate.{AggOp, Agg, add_value}
use ws_pipeline_dispatcher.LogParse.Output.{Stream, write_json, print_csv}
use ws_pipeline_dispatcher.LogParse.Main.{
  Format, format_json, format_csv, format_count, World, Mode, by_regex, by_json, Setup,
}

-- `trim_line`: the white space in front, and that behind.
unfoldable pub trim_start : Bytes → Bytes
trim_start [] = []
trim_start (c ∷ s) = let rest = trim_start s in if is_space c then rest else c ∷ s

abbrev pub put_trimmed : ℕ → Bytes → Bytes
put_trimmed c [] = if is_space c then [] else c ∷ []
put_trimmed c (d ∷ s) = c ∷ d ∷ s

unfoldable pub trim_end : Bytes → Bytes
trim_end [] = []
trim_end (c ∷ s) = put_trimmed c (trim_end s)

unfoldable pub trim_line : Bytes → Bytes
trim_line line = trim_end (trim_start line)

-- The size of the buffer for a value.
abbrev pub value_size : ℕ
value_size = 1024

abbrev pub matches_text : FilterOperator → Bytes → Option Bytes → Option Bool
matches_text op text none = none
matches_text op text (some value) = some (match_value op value text)

-- The comparison of `log_filter_match_jsonl` for an operator.
unfoldable pub match_item : Cjson → Bytes → Filter → FilterOperator → Option Bool
match_item lib line f filter_greater_than =
    some (number_greater (get_int64 lib line f.key) (parse_i64 f.value))
match_item lib line f filter_equals =
    matches_text filter_equals f.value (get_scalar_text lib line f.key value_size)
match_item lib line f filter_not_equals =
    matches_text filter_not_equals f.value (get_scalar_text lib line f.key value_size)
match_item lib line f filter_contains =
    matches_text filter_contains f.value (get_scalar_text lib line f.key value_size)

abbrev pub match_filter : Cjson → Bytes → Option Filter → Option Bool
match_filter lib line none = some true
match_filter lib line (some f) = match_item lib line f f.op

-- `log_filter_match_jsonl`; `none` stands for -1.
unfoldable pub match_jsonl : Cjson → Bytes → Option Filter → Option Bool
unfolding match_item
match_jsonl lib line filter = if is_object lib line then match_filter lib line filter else none

-- What the loop changes: stdout, the full log, the aggregates and the count.
pub record State (W : Type 0) : Type 0 where
  pub out : Bytes
  pub log : Bytes
  pub agg : Agg W
  pub matched : ℕ

-- The state behind a line, or behind a `break` with `exit_code` 2.
pub data Line (W : Type 0) : Type 0 where
  next : State W → Line W
  stops : State W → Line W

abbrev pub value_at : Log → ℕ → Option Bytes
value_at [] i = none
value_at ((name, value) ∷ log) zero = value
value_at ((name, value) ∷ log) (suc i) = value_at log i

-- Every value of a parsed record is there.
abbrev pub values_of : Log → List Bytes
values_of [] = []
values_of ((name, none) ∷ log) = values_of log
values_of ((name, some value) ∷ log) = value ∷ values_of log

module _ {W : Type 0} (w : World W) (s : Setup) where
  abbrev pub on_log : State W → Printed → (State W → Line W) → Line W
  on_log st (log, true) go_on = go_on (record st { log = log })
  on_log st (log, false) go_on = stops (record st { log = log })

  abbrev pub on_out : State W → Printed → Line W
  on_out st (out, true) = next (record st { out = out })
  on_out st (out, false) = stops (record st { out = out })

  -- The aggregate's value is that of the field with the index, if the record has it.
  abbrev pub add_field : State W → Option Bytes → Line W
  add_field st none = next st
  add_field st (some text) =
      next (record st { agg = add_value w.doubles st.agg (w.doubles.atof text) })

  -- A matching record without an aggregate.
  abbrev pub print_record : Log → State W → Format → Line W
  print_record log st format_json = on_out st (write_json w.lib w.heap w.stdout log st.out)
  print_record log st format_csv = on_out st (print_csv w.heap w.stdout (values_of log) st.out)
  print_record log st format_count = next (record st { matched = st.matched + 1 })

  -- A record that matches the filter.
  abbrev pub take_record : Log → State W → Option ℕ → Option (AggOp × Bytes) → Line W
  take_record log st index none = print_record log st s.format_
  take_record log st none (some agg) = next st
  take_record log st (some i) (some agg) = add_field st (value_at log i)

  abbrev pub filter_record : Log → Option ℕ → State W → Line W
  filter_record log index st =
      if match_fields log s.filter_ then take_record log st index s.agg else next st

  abbrev pub on_parsed : State W → Option ℕ → Parsed → Line W
  on_parsed st index no_memory = stops st
  on_parsed st index unmatched = next st
  on_parsed st index (parsed log) =
      if s.logs
      then on_log st (write_json w.lib w.heap w.full log st.log) (filter_record log index)
      else filter_record log index st

  -- A line in regex mode.
  unfoldable pub regex_line : Regex → List Bytes → Option ℕ → Bytes → State W → Line W
  regex_line regex names index line st =
      on_parsed st index (Regex.parse_line w.heap line regex names)

  abbrev pub add_number : State W → Option ℤ → Line W
  add_number st none = next st
  add_number st (some z) =
      next (record st { agg = add_value w.doubles st.agg (w.doubles.of_int z) })

  abbrev pub put_line : Stream → Bytes → Bytes → Printed
  put_line stream line out = cut_print out (line ++ b'\n' ∷ []) (stream out (line ++ b'\n' ∷ []))

  -- A matching JSON line; `puts` may fail unnoticed.
  abbrev pub take_line : Bytes → State W → Option (AggOp × Bytes) → Format → Line W
  take_line line st (some (op, field)) fmt = add_number st (get_int64 w.lib line field)
  take_line line st none format_count = next (record st { matched = st.matched + 1 })
  take_line line st none format_json = next (record st { out = (put_line w.stdout line st.out).0 })
  take_line line st none format_csv = next (record st { out = (put_line w.stdout line st.out).0 })

  abbrev pub take_if : Bytes → Bool → State W → Line W
  take_if line matched st = if matched then take_line line st s.agg s.format_ else next st

  abbrev pub on_matched : Bytes → State W → Option Bool → Line W
  on_matched line st none = next st
  on_matched line st (some matched) =
      if s.logs
      then on_log st (put_line w.full line st.log) (take_if line matched)
      else take_if line matched st

  -- A line in JSON mode.
  unfoldable pub json_line : Bytes → State W → Line W
  unfolding match_jsonl
  json_line line st = on_matched line st (match_jsonl w.lib line s.filter_)

  -- A line of the input: a C string, trimmed.
  abbrev pub in_mode : Mode → Bytes → State W → Line W
  in_mode (by_regex regex names index) line st = regex_line regex names index line st
  in_mode by_json line st = json_line line st

  unfoldable pub one_line : Bytes → State W → Line W
  unfolding regex_line json_line trim_line
  one_line text st = in_mode s.mode (trim_line (c_string text)) st

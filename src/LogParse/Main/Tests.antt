-- ===== src/LogParse/Main/Tests.antt =====
-- Runs of applets/log_parse/log_parse.c.
use ws_pipeline_dispatcher.Prelude.{
  ℕ, true, false, List, [], ◌∷◌, ◌++◌, ◌≡◌, ◌↔◌, refl, none, some, arith, length, map, Bytes, codes,
  equal, get_or,
}
use ws_pipeline_dispatcher.Prelude.Int.{ℤ, pos, negsuc, ◌+ℤ◌, ltb_ℤ}
use ws_pipeline_dispatcher.Json.{object, field, end, string}
use ws_pipeline_dispatcher.Json.Tests.{table_json, whole_number, granting}
use ws_pipeline_dispatcher.ClipStore.Number.{print_long}
use ws_pipeline_dispatcher.Library.{strndup}
use ws_pipeline_dispatcher.LogParse.Filter.{Filter, filter_equals, Log}
use ws_pipeline_dispatcher.LogParse.Regex.{
  Group, Regex, parsed, comma_count, tokens, split_fields, group_value, field_values,
}
use ws_pipeline_dispatcher.LogParse.Regex
use ws_pipeline_dispatcher.LogParse.Regex.Fields.{join, IsFieldList, split_fields_lem}
use ws_pipeline_dispatcher.LogParse.Aggregate.{Doubles, agg_max, no_values, add_values, IsExact}
use ws_pipeline_dispatcher.LogParse.Aggregate.Exact.{Aggregates, total_from, add_values-Aggregates}
use ws_pipeline_dispatcher.LogParse.Main.{
  World, Options, no_options, go, Setup, by_regex, format_json, index_of, agg_index, regex_mode,
  choose_mode, set_up, parse_format,
}
use ws_pipeline_dispatcher.LogParse.Main.Lines.{State, value_at}
use ws_pipeline_dispatcher.LogParse.Main.Loop.{all_lines}
use ws_pipeline_dispatcher.LogParse.Main.Json.{unlines}
use ws_pipeline_dispatcher.LogParse.Main.Wanted.{Selects, Asked}
use ws_pipeline_dispatcher.LogParse.Main.FullLog.{log_setup, full_log_lem}
use ws_pipeline_dispatcher.LogParse.Main.Checks.{agg_value_lem}

-- Numbers that are exact, as doubles are up to 2^53.
abbrev exact_numbers : Doubles ℤ
exact_numbers = record {
  nought = pos 0;
  of_int = λ z. z;
  atof = λ text. pos (length text);
  plus = λ a b. a +ℤ b;
  less = ltb_ℤ;
  over = λ a n. a;
  print = λ z. print_long z ++ codes ".00";
}

exact_numbers-IsExact : IsExact exact_numbers
exact_numbers-IsExact = record { nought = refl; less = λ a b s t. refl; plus = λ a b s t u. refl }

-- The expression "(.)(.*)" on lines of at least one byte.
abbrev two_groups : Regex
two_groups [] n = none
two_groups (c ∷ s) n =
    some ((pos 0, pos (length (c ∷ s))) ∷ (pos 0, pos 1) ∷ (pos 1, pos (length (c ∷ s))) ∷ [])

abbrev world : World ℤ
world = record {
  lib = table_json (
      (
        codes "a",
        object (
            field (codes "n") (whole_number 7) (field (codes "s") (string (some (codes "x"))) end)),
      )
      ∷ (codes "b", object (field (codes "n") (whole_number 5) end))
      ∷ []);
  heap = granting;
  doubles = exact_numbers;
  stdout = λ out text. none;
  full = λ out text. none;
  opens = λ path. true;
  compiles = λ pattern. some two_groups;
}

abbrev s_is_x : Filter
s_is_x = record { op = filter_equals; key = codes "s"; value = codes "x" }

abbrev lines : List Bytes
lines = codes " a\n" ∷ codes "?\n" ∷ codes "b\n" ∷ []

add_values-Aggregates_example :
    Aggregates exact_numbers exact_numbers-IsExact
      (pos 7 ∷ negsuc 4 ∷ [])
      (total_from (pos 0) (pos 7 ∷ negsuc 4 ∷ []))
      (add_values exact_numbers
        (map exact_numbers.of_int (pos 7 ∷ negsuc 4 ∷ []))
        (no_values exact_numbers))
add_values-Aggregates_example =
    add_values-Aggregates exact_numbers exact_numbers-IsExact (pos 7) (negsuc 4 ∷ [])
      (unfold ◌+ℤ◌ in (omega arith, omega arith, (omega arith, omega arith, tt)))

abbrev empty_state : State ℤ
empty_state = record { out = []; log = []; agg = no_values exact_numbers; matched = 0 }

full_log_lem_example :
    let run = all_lines world (log_setup world (some s_is_x) format_json none) lines empty_state in
    (run.1 ≡ 0)
    × ((kept : List Bytes) × Selects (λ text. Asked world.lib text (some s_is_x)) lines kept
        × (run.0.log ≡ [] ++ unlines world (some s_is_x) kept))
full_log_lem_example =
    full_log_lem world (some s_is_x) format_json none lines empty_state (λ out text. refl)

split_fields_lem_example :
    (split_fields granting (codes "a,bc") ≡ some (codes "a" ∷ codes "bc" ∷ [])) ↔ (
      (codes "a,bc" ≡ join (codes "a" ∷ codes "bc" ∷ []))
      × IsFieldList (codes "a" ∷ codes "bc" ∷ []))
split_fields_lem_example =
    split_fields_lem granting (codes "a,bc") (codes "a" ∷ codes "bc" ∷ []) refl

abbrev options : Options
options = record no_options {
  regex_pattern = some (codes "(.)(.*)");
  fields_arg = some (codes "k,v");
  agg = some (agg_max, codes "v");
}

abbrev names : List Bytes
names = codes "k" ∷ codes "v" ∷ []

abbrev setup : Setup
setup = record {
  mode = by_regex two_groups names (some 1);
  format_ = format_json;
  filter_ = none;
  agg = some (agg_max, codes "v");
  logs = false;
}

sets_up : set_up world options ≡ go setup
unfolding set_up choose_mode regex_mode agg_index index_of parse_format split_fields comma_count
    tokens equal
sets_up = refl

abbrev record_of_line : Log
record_of_line = (codes "k", some (codes "x")) ∷ (codes "v", some (codes "12")) ∷ []

parses_line : Regex.parse_line granting (codes "x12") two_groups names ≡ parsed record_of_line
unfolding Regex.parse_line field_values group_value strndup
parses_line = refl

agg_value_lem_example :
    (i : ℕ) × (some 1 ≡ some i)
    × (get_or names i [] ≡ codes "v")
    × ((text : Bytes) × (value_at record_of_line i ≡ some text))
agg_value_lem_example =
    agg_value_lem world options setup two_groups names (some 1) agg_max (codes "v") (codes "x12")
      record_of_line sets_up refl refl parses_line

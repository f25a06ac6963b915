-- ===== src/LogParse/Tests.antt =====
-- Runs of the filters of applets/log_parse.
use ws_pipeline_dispatcher.Prelude.{Bytes, true, [], ◌∷◌, ◌≡◌, ◌↔◌, refl, some, codes}
use ws_pipeline_dispatcher.ClipStore.Format.{split_at}
use ws_pipeline_dispatcher.LogParse.Csv.{emit_csv}
use ws_pipeline_dispatcher.LogParse.Csv.RoundTrip.{at_start, read_csv, read_csv-emit_csv}
use ws_pipeline_dispatcher.LogParse.Filter.{
  Filter, filter_not_equals, filter_greater_than, Log, split_not_equals, checked, try_operator,
  log_filter_parse, match_fields,
}
use ws_pipeline_dispatcher.LogParse.Filter.Parse.{IsCut, filter_parse-IsCut}
use ws_pipeline_dispatcher.LogParse.Filter.Match.{Passes, match_fields_lem}

abbrev level_filter : Filter
level_filter = record { op = filter_not_equals; key = codes "level"; value = codes "debug" }

level_parses : log_filter_parse (codes "level!=debug") ≡ some level_filter
unfolding log_filter_parse split_not_equals checked try_operator split_at
level_parses = refl

-- The operators are tried in a fixed order, not from left to right.
order_of_operators :
    log_filter_parse (codes "path=a>b")
    ≡ some (record { op = filter_greater_than; key = codes "path=a"; value = codes "b" })
unfolding log_filter_parse split_not_equals checked try_operator split_at
order_of_operators = refl

filter_parse-IsCut_example : IsCut (codes "level!=debug") level_filter
filter_parse-IsCut_example = filter_parse-IsCut (codes "level!=debug") level_filter level_parses

abbrev one_field : Log
one_field = (codes "level", some (codes "info")) ∷ []

match_fields_lem_example :
    (match_fields one_field (some level_filter) ≡ true) ↔ Passes one_field level_filter
match_fields_lem_example = match_fields_lem one_field level_filter

-- A value with a comma and a quote.
abbrev odd_value : Bytes
odd_value = codes "a,\"b"

read_csv-emit_csv_example :
    read_csv at_start [] (emit_csv (odd_value ∷ codes "c" ∷ [])) ≡ some (odd_value ∷ codes "c" ∷ [])
read_csv-emit_csv_example = read_csv-emit_csv odd_value (codes "c" ∷ [])

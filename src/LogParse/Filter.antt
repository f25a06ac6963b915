-- ===== src/LogParse/Filter.antt =====
-- applets/log_parse/log_filter_expr.c: filter expressions, and their match against parsed fields.
pub mod Parse
pub mod Match
use ws_pipeline_dispatcher.Prelude.{
  ℕ, zero, suc, ◌+◌, Bool, true, false, not, ◌&&◌, List, [], ◌∷◌, Option, none, some, ◌>>=◌, leb,
  ◌==◌, if◌then◌else◌, Bytes, equal,
}
use ws_pipeline_dispatcher.Prelude.Int.{ℤ, pos, negsuc, ltb_ℤ}
use ws_pipeline_dispatcher.ClipStore.Format.{split_at}
use ws_pipeline_dispatcher.ClipStore.Compact.{has_prefix}
use ws_pipeline_dispatcher.ClipStore.Number.{skip_spaces, scan_number, whole, max_long}

-- `filter_operator_t`
pub data FilterOperator : Type 0 where
  filter_equals filter_not_equals filter_contains filter_greater_than : FilterOperator

-- `filter_t`
pub record Filter : Type 0 where
  pub op : FilterOperator
  pub key : Bytes
  pub value : Bytes

-- `log_t`: the names of the fields, each with its value, which can be NULL.
abbrev pub Log : Type 0
Log = List (Bytes × Option Bytes)

-- `log_get`
unfoldable pub log_get : Log → Bytes → Option Bytes
log_get [] key = none
log_get ((name, value) ∷ log) key = if equal name key then value else log_get log key

-- `strtoll` with no bounds: the sign and the digits behind the white space.
abbrev pub exact_neg : ℕ → ℤ
exact_neg zero = pos 0
exact_neg (suc n) = negsuc n

unfoldable pub scan_exact : Bytes → Option (ℤ × Bytes)
scan_exact [] = none
scan_exact (c ∷ s) =
    if c == b'-'
    then scan_number exact_neg s
    else if c == b'+'
    then scan_number pos s
    else scan_number pos (c ∷ s)

abbrev pub in_range : ℤ → Bool
in_range (pos n) = leb n max_long
in_range (negsuc n) = leb n max_long

-- `parse_i64`: a number out of range sets `errno`, which fails.
unfoldable pub parse_i64 : Bytes → Option ℤ
parse_i64 s = do n ← whole (scan_exact (skip_spaces s)); if in_range n then some n else none

-- `strstr(expr, "!=")`: the text in front of it and the text behind it.
unfoldable pub split_not_equals : Bytes → Option (Bytes × Bytes)
split_not_equals [] = none
split_not_equals (c ∷ []) = none
split_not_equals (c ∷ d ∷ s) =
    let rest = split_not_equals (d ∷ s) in
    if c == b'!' && d == b'='
    then some ([], s)
    else elim rest [ none ↦ none | some (front, back) ↦ some (c ∷ front, back) ]

-- The last test of `log_filter_parse`: neither part is empty.
unfoldable pub checked : FilterOperator → Bytes → Bytes → Option Filter
checked op [] value = none
checked op (c ∷ key) [] = none
checked op (c ∷ key) (d ∷ value) = some (record { op = op; key = c ∷ key; value = d ∷ value })

-- The search for an operator, and what comes if it is not there.
unfoldable pub try_operator :
    FilterOperator → Option (Bytes × Bytes) → Option Filter → Option Filter
try_operator op none otherwise = otherwise
try_operator op (some (key, value)) otherwise = checked op key value

-- `log_filter_parse`; `none` stands for -1.
unfoldable pub log_filter_parse : Bytes → Option Filter
log_filter_parse expr = try_operator filter_not_equals (split_not_equals expr) (
    try_operator filter_greater_than (split_at b'>' expr) (
      try_operator filter_contains (split_at b'~' expr)
        (try_operator filter_equals (split_at b'=' expr) none)))

-- `strstr(value, text) != NULL`
unfoldable pub has_infix : Bytes → Bytes → Bool
has_infix text [] = has_prefix text []
has_infix text (c ∷ value) =
    let later = has_infix text value in if has_prefix text (c ∷ value) then true else later

-- The comparison of two texts as numbers.
unfoldable pub number_greater : Option ℤ → Option ℤ → Bool
number_greater (some lhs) (some rhs) = ltb_ℤ rhs lhs
number_greater (some lhs) none = false
number_greater none rhs = false

unfoldable pub match_value : FilterOperator → Bytes → Bytes → Bool
match_value filter_equals value text = equal value text
match_value filter_not_equals value text = not (equal value text)
match_value filter_contains value text = has_infix text value
match_value filter_greater_than value text = number_greater (parse_i64 value) (parse_i64 text)

-- `log_filter_match_fields`; `none` is a NULL filter.
unfoldable pub match_fields : Log → Option Filter → Bool
match_fields log none = true
match_fields log (some filter) = elim (log_get log filter.key) [
  | none ↦ false
  | some value ↦ match_value filter.op value filter.value
]

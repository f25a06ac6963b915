-- ===== src/LogParse/Main.antt =====
-- applets/log_parse/log_parse.c: the options, the checks before the input, and the loop over its
-- lines. What the system answers is given: the expression that `regcomp` makes of a pattern, if the
-- full log opens and closes, what the streams let through, and the lines of stdin.
pub mod Checks
pub mod Lines
pub mod Trim
pub mod Wanted
pub mod Loop
pub mod Json
pub mod Printed
pub mod FullLog
pub mod Tests
use ws_pipeline_dispatcher.Prelude.{
  ℕ, suc, ◌+◌, Bool, true, false, not, ◌&&◌, ◌||◌, List, [], ◌∷◌, ◌++◌, Option, none, some, ◌>>=◌,
  ◌==◌, if◌then◌else◌, length, Bytes, codes, equal, map, is_some, next_index,
}
use ws_pipeline_dispatcher.DynamicBuffer.{Heap}
use ws_pipeline_dispatcher.Json.{Cjson}
use ws_pipeline_dispatcher.LogParse.Filter.{Filter, log_filter_parse}
use ws_pipeline_dispatcher.LogParse.Regex.{Regex, split_fields}
use ws_pipeline_dispatcher.LogParse.Aggregate.{Doubles, AggOp}
use ws_pipeline_dispatcher.LogParse.Output.{Stream}

-- `log_output_format_t`
pub data Format : Type 0 where
  format_json format_csv format_count : Format

-- What `getopt_long` returns, with `optarg`.
pub data Opt : Type 0 where
  regex fields filter format full_log : Bytes → Opt
  aggregate : AggOp → Bytes → Opt
  extended help unknown : Opt

-- The variables that the options set; `none` is NULL.
pub record Options : Type 0 where
  pub regex_pattern : Option Bytes
  pub fields_arg : Option Bytes
  pub format_arg : Option Bytes
  pub filter_ : Option Filter
  pub agg : Option (AggOp × Bytes)
  pub full_log_path : Option Bytes

abbrev pub no_options : Options
no_options = record {
  regex_pattern = none;
  fields_arg = none;
  format_arg = none;
  filter_ = none;
  agg = none;
  full_log_path = none;
}

-- A value, or the exit code of the program.
pub data OrExit {ℓ} (A : Type ℓ) : Type ℓ where
  go : A → OrExit A
  exits : ℕ → OrExit A

abbrev pub and_go {ℓ κ} : {A : Type ℓ} {B : Type κ} → OrExit A → (A → OrExit B) → OrExit B
and_go (go a) next = next a
and_go (exits code) next = exits code

abbrev pub set_filter : Options → Option Filter → OrExit Options
set_filter o none = exits 1
set_filter o (some f) = go (record o { filter_ = some f })

-- A case of the option loop.
unfoldable pub take_option : Opt → Options → OrExit Options
take_option (regex s) o = go (record o { regex_pattern = some s })
take_option (fields s) o = go (record o { fields_arg = some s })
take_option (filter s) o = set_filter o (log_filter_parse s)
take_option (format s) o = go (record o { format_arg = some s })
take_option (aggregate op s) o = go (record o { agg = some (op, s) })
take_option (full_log s) o = go (record o { full_log_path = some s })
take_option extended o = go o
take_option help o = exits 0
take_option unknown o = exits 1

unfoldable pub take_options : List Opt → Options → OrExit Options
unfolding take_option
take_options [] o = go o
take_options (opt ∷ opts) o = and_go (take_option opt o) (take_options opts)

-- `parse_format`; the format is JSON if there is no option.
unfoldable pub parse_format : Option Bytes → Option Format
parse_format none = some format_json
parse_format (some arg) =
    if equal arg (codes "json")
    then some format_json
    else if equal arg (codes "csv")
    then some format_csv
    else if equal arg (codes "count")
    then some format_count
    else none

-- The surroundings of a run.
pub record World (W : Type 0) : Type 0 where
  pub lib : Cjson
  pub heap : Heap
  pub doubles : Doubles W
  pub stdout : Stream
  pub full : Stream
  pub opens : Bytes → Bool
  pub compiles : Bytes → Option Regex

-- How lines are read: by an expression and names, with the index of the aggregate's field, or as
-- JSON.
pub data Mode : Type 0 where
  by_regex : Regex → List Bytes → Option ℕ → Mode
  by_json : Mode

-- What the loop over the lines uses.
pub record Setup : Type 0 where
  pub mode : Mode
  pub format_ : Format
  pub filter_ : Option Filter
  pub agg : Option (AggOp × Bytes)
  pub logs : Bool

-- The index of the field of an aggregate.
unfoldable pub index_of : List Bytes → Bytes → Option ℕ
index_of [] field = none
index_of (name ∷ names) field =
    let later = index_of names field in if equal name field then some 0 else next_index later

abbrev pub or_exit {ℓ} : {A : Type ℓ} → Option A → OrExit A
or_exit none = exits 1
or_exit (some a) = go a

abbrev pub is_count : Format → Bool
is_count format_count = true
is_count format_json = false
is_count format_csv = false

-- The index for an aggregate, which has to be there.
unfoldable pub agg_index : List Bytes → Option (AggOp × Bytes) → OrExit (Option ℕ)
unfolding index_of
agg_index names none = go none
agg_index names (some (op, field)) = and_go (or_exit (index_of names field)) (λ i. go (some i))

module _ {W : Type 0} (w : World W) where
  abbrev pub open_log : Option Bytes → OrExit Bool
  open_log none = go false
  open_log (some path) = if w.opens path then go true else exits 1

  -- The checks of the regex mode: no list of names is empty, as `split_fields` returns at least one.
  unfoldable pub regex_mode : Bytes → Option Bytes → Option (AggOp × Bytes) → OrExit Mode
  unfolding agg_index
  regex_mode pattern none agg = exits 1
  regex_mode pattern (some arg) agg = and_go (or_exit (split_fields w.heap arg)) λ names.
      if length names == 0
      then exits 1
      else and_go (or_exit (w.compiles pattern))
          λ regex. and_go (agg_index names agg) λ i. go (by_regex regex names i)

  abbrev pub mode_for : Options → Format → Option Bytes → OrExit Mode
  mode_for o fmt (some pattern) = regex_mode pattern o.fields_arg o.agg
  mode_for o fmt none =
      if is_some o.fields_arg || (is_some o.format_arg && not (is_count fmt) && not (is_some o.agg))
      then exits 1
      else go by_json

  unfoldable pub choose_mode : Options → Format → OrExit Mode
  unfolding regex_mode
  choose_mode o fmt = mode_for o fmt o.regex_pattern

  -- From the options to the loop.
  unfoldable pub set_up : Options → OrExit Setup
  unfolding parse_format choose_mode
  set_up o = and_go (or_exit (parse_format o.format_arg)) λ fmt.
      and_go (open_log o.full_log_path) λ logs. and_go (choose_mode o fmt) λ mode.
        go (record { mode = mode; format_ = fmt; filter_ = o.filter_; agg = o.agg; logs = logs })

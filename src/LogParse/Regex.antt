-- ===== src/LogParse/Regex.antt =====
-- applets/log_parse/log_regex.c: the names of `--fields`, and the captured values of a line. The
-- regular expression is that of the system: a parameter gives the offsets of its groups.
pub mod Fields
pub mod Groups
use ws_pipeline_dispatcher.Prelude.{
  ℕ, suc, ◌+◌, ◌-◌, ◌*◌, Bool, true, false, List, [], ◌∷◌, ◌++◌, Option, none, some, ltb, ◌==◌,
  if◌then◌else◌, length, take, drop, get_or, Bytes,
}
use ws_pipeline_dispatcher.Prelude.Int.{ℤ, pos, negsuc}
use ws_pipeline_dispatcher.DynamicBuffer.{Heap}
use ws_pipeline_dispatcher.Library.{strndup}
use ws_pipeline_dispatcher.LogParse.Filter.{Log}

-- The count of `log_regex_split_fields`: 1 and the commas.
unfoldable pub comma_count : Bytes → ℕ
comma_count [] = 1
comma_count (c ∷ s) = let rest = comma_count s in if c == b',' then suc rest else rest

abbrev pub put_token : Bytes → List Bytes → List Bytes
put_token [] tokens = tokens
put_token (c ∷ token) tokens = (c ∷ token) ∷ tokens

-- The tokens of `strtok_r(…, ",", …)`, behind the bytes of a token so far: none is empty.
unfoldable pub tokens : Bytes → Bytes → List Bytes
tokens token [] = put_token token []
tokens token (c ∷ s) =
    let next = tokens [] s in
    let more = tokens (token ++ c ∷ []) s in if c == b',' then put_token token next else more

-- `log_regex_split_fields`: the names, or `none` for -1. Each array of pointers takes 8 bytes an
-- entry.
unfoldable pub split_fields : Heap → Bytes → Option (List Bytes)
split_fields heap arg =
    let count = comma_count arg in
    let names = tokens [] arg in
    if heap.grants (count * 8) then if length names == count then some names else none else none

-- A group of `regmatch_t`: `rm_so` and `rm_eo`.
abbrev pub Group : Type 0
Group = ℤ × ℤ

-- `regexec` with `nmatch` groups; `none` stands for no match.
abbrev pub Regex : Type 0
Regex = Bytes → ℕ → Option (List Group)

-- What `log_regex_parse_line` returns: 0 with the values, 1, or -1.
pub data Parsed : Type 0 where
  parsed : Log → Parsed
  unmatched : Parsed
  no_memory : Parsed

-- The value of a group; an unset or turned group has none.
pub data Value : Type 0 where
  value : Option Bytes → Value
  unset : Value

unfoldable pub group_value : Heap → Bytes → Group → Value
group_value heap line (negsuc so, eo) = unset
group_value heap line (pos so, negsuc eo) = unset
group_value heap line (pos so, pos eo) =
    if ltb eo so
    then unset
    else value (strndup (heap.grants (eo - so + 1)) (drop so line) (eo - so))

abbrev pub put_value : Bytes → Value → Parsed → Parsed
put_value name unset rest = unmatched
put_value name (value none) rest = no_memory
put_value name (value (some s)) (parsed log) = parsed ((name, some s) ∷ log)
put_value name (value (some s)) unmatched = unmatched
put_value name (value (some s)) no_memory = no_memory

-- The group of a number; the groups that the expression does not have are unset.
abbrev pub no_group : Group
no_group = (negsuc 0, negsuc 0)

-- The loop over the fields, with the groups from the first one on.
unfoldable pub field_values : Heap → Bytes → List Bytes → List Group → Parsed
unfolding group_value
field_values heap line [] groups = parsed []
field_values heap line (name ∷ names) groups =
    put_value name (group_value heap line (get_or groups 0 no_group))
      (field_values heap line names (drop 1 groups))

abbrev pub after_exec : Heap → Bytes → List Bytes → Option (List Group) → Parsed
after_exec heap line names none = unmatched
after_exec heap line names (some groups) = field_values heap line names (drop 1 groups)

-- `log_regex_parse_line`; a `regmatch_t` has 8 bytes.
unfoldable pub parse_line : Heap → Bytes → Regex → List Bytes → Parsed
unfolding field_values
parse_line heap line regex names =
    let nmatch = length names + 1 in
    if heap.grants (nmatch * 8) then after_exec heap line names (regex line nmatch) else no_memory

-- ===== src/LogParse/Regex/Groups.antt =====
-- applets/log_parse/log_regex.c, `log_regex_parse_line`: what a parsed record holds.
use mathlib.Core.Path.{subst}
use mathlib.Core.List.{append_assoc}
use ws_pipeline_dispatcher.Prelude.{
  ℕ, zero, suc, ◌+◌, ◌-◌, ◌*◌, Bool, List, [], ◌∷◌, ◌++◌, ◌≡◌, refl, sym, ap, ◌∙◌, inl, inr, Option,
  none, some, arith, ltb, Bool-cases, length, take, drop, get_or, Bytes,
}
use ws_pipeline_dispatcher.Prelude.Int.{pos, negsuc}
use ws_pipeline_dispatcher.DynamicBuffer.{Heap}
use ws_pipeline_dispatcher.Library.{strndup}
use ws_pipeline_dispatcher.LogParse.Filter.{Log}
use ws_pipeline_dispatcher.LogParse.Regex.{
  Group, Regex, Parsed, parsed, unmatched, no_memory, Value, value, unset, group_value, put_value,
  no_group, field_values, after_exec, parse_line,
}

-- The text is a piece of the line.
abbrev pub IsPiece : Bytes → Bytes → Type 0
IsPiece line s = (front : Bytes) × (back : Bytes) × (line ≡ front ++ s ++ back)

-- Each name in its place, with a piece of the line.
pub data Captures (line : Bytes) : List Bytes → Log → Type 0 where
  all_done : Captures line [] []
  capture :
      (name s : Bytes) (names : List Bytes) (log : Log)
      → IsPiece line s
      → Captures line names log
      → Captures line (name ∷ names) ((name, some s) ∷ log)

take-drop : (n : ℕ) (s : Bytes) → take n s ++ drop n s ≡ s
take-drop zero s = refl
take-drop (suc n) [] = refl
take-drop (suc n) (c ∷ s) = ap (λ t. c ∷ t) (take-drop n s)

strndup-IsPiece :
    (granted : Bool) (line : Bytes) (so len : ℕ) (s : Bytes)
    → strndup granted (drop so line) len ≡ some s
    → IsPiece line s
unfolding strndup
strndup-IsPiece granted line so len s e =
    let same : take len (drop so line) ≡ s = ground arith in
    (
      take so line,
      drop len (drop so line),
      sym (
          ap (λ t. take so line ++ t ++ drop len (drop so line)) (sym same)
          ∙ append_assoc (take so line) (take len (drop so line)) (drop len (drop so line))
          ∙ ap (λ t. take so line ++ t) (take-drop len (drop so line))
          ∙ take-drop so line),
    )

abbrev ValueIsPiece : Bytes → Value → Type 0
ValueIsPiece line v = (s : Bytes) → v ≡ value (some s) → IsPiece line s

value_inj : {a b : Option Bytes} → value a ≡ value b → a ≡ b
value_inj e = cc

group_value-IsPiece :
    (heap : Heap) (line : Bytes) (g : Group) → ValueIsPiece line (group_value heap line g)
unfolding group_value
group_value-IsPiece heap line (negsuc so, eo) s e = absurd (cc)
group_value-IsPiece heap line (pos so, negsuc eo) s e = absurd (cc)
group_value-IsPiece heap line (pos so, pos eo) s e = elim (Bool-cases (ltb eo so)) [
  | inl turned ↦ absurd (let e' = rw turned at e in cc)
  | inr good ↦ strndup-IsPiece _ line so (eo - so) s (value_inj (rw good at e))
]

put_value-Captures :
    (line name : Bytes) (v : Value) (rest : Parsed) (names : List Bytes) (log : Log)
    → ValueIsPiece line v
    → ((log' : Log) → rest ≡ parsed log' → Captures line names log')
    → put_value name v rest ≡ parsed log
    → Captures line (name ∷ names) log
put_value-Captures line name unset rest names log h k e = absurd (cc)
put_value-Captures line name (value none) rest names log h k e = absurd (cc)
put_value-Captures line name (value (some s)) (parsed log') names log h k e =
    let same : (name, some s) ∷ log' ≡ log = cc in
    subst (Captures line (name ∷ names)) same (capture name s names log' (h s refl) (k log' refl))
put_value-Captures line name (value (some s)) unmatched names log h k e = absurd (cc)
put_value-Captures line name (value (some s)) no_memory names log h k e = absurd (cc)

field_values-Captures :
    (heap : Heap) (line : Bytes) (names : List Bytes) (groups : List Group) (log : Log)
    → field_values heap line names groups ≡ parsed log
    → Captures line names log
unfolding field_values
field_values-Captures heap line [] groups log e =
    let same : [] ≡ log = cc in subst (Captures line []) same all_done
field_values-Captures heap line (name ∷ names) groups log e =
    put_value-Captures line name _ _ names log
      (group_value-IsPiece heap line (get_or groups 0 no_group))
      (λ log' e'. field_values-Captures heap line names (drop 1 groups) log' e') e

after_exec-Captures :
    (heap : Heap) (line : Bytes) (names : List Bytes) (o : Option (List Group)) (log : Log)
    → after_exec heap line names o ≡ parsed log
    → Captures line names log
after_exec-Captures heap line names none log e = absurd (cc)
after_exec-Captures heap line names (some groups) log e =
    field_values-Captures heap line names (drop 1 groups) log e

-- A line that is parsed gives a record with exactly the names of the fields, in their order, each
-- with a value that is a piece of the line.
pub parse_line-Captures :
    (heap : Heap) (line : Bytes) (regex : Regex) (names : List Bytes) (log : Log)
    → parse_line heap line regex names ≡ parsed log
    → Captures line names log
unfolding parse_line
parse_line-Captures heap line regex names log e =
    elim (Bool-cases (heap.grants ((length names + 1) * 8))) [
      | inl granted ↦
          after_exec-Captures heap line names (regex line (length names + 1)) log (rw granted at e)
      | inr denied ↦ absurd (let e' = rw denied at e in cc)
    ]

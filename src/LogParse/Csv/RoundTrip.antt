-- ===== src/LogParse/Csv/RoundTrip.antt =====
-- A reader of RFC 4180 lines gets the values back.
use mathlib.Core.List.{append_assoc, append-nil}
use ws_pipeline_dispatcher.Prelude.{
  ℕ, true, false, List, [], ◌∷◌, ◌++◌, ◌≡◌, refl, ap, ◌∙◌, inl, inr, arith, Option, none, some,
  ◌==◌, if◌then◌else◌, Bool-cases, Bytes,
}
use ws_pipeline_dispatcher.LogParse.Csv.{
  is_special, has_special, double_quotes, csv_field, csv_rest, emit_csv,
}

-- Where the reader is: at the start of a field, in a plain field, in a quoted one, or behind a
-- quote in that.
pub data Place : Type 0 where
  at_start in_plain in_quotes behind_quote : Place

unfoldable pub with_field : Bytes → Option (List Bytes) → Option (List Bytes)
with_field value none = none
with_field value (some values) = some (value ∷ values)

-- The reader, on the bytes of the field so far.
unfoldable pub read_csv : Place → Bytes → Bytes → Option (List Bytes)
read_csv place field [] = none
read_csv at_start field (c ∷ s) =
    let quoted = read_csv in_quotes [] s in
    let next = read_csv at_start [] s in
    let plain = read_csv in_plain (c ∷ []) s in
    if c == b'"'
    then quoted
    else if c == b','
    then with_field [] next
    else if c == 10
    then some ([] ∷ [])
    else plain
read_csv in_plain field (c ∷ s) =
    let next = read_csv at_start [] s in
    let plain = read_csv in_plain (field ++ c ∷ []) s in
    if c == b',' then with_field field next else if c == 10 then some (field ∷ []) else plain
read_csv in_quotes field (c ∷ s) =
    let closed = read_csv behind_quote field s in
    let more = read_csv in_quotes (field ++ c ∷ []) s in if c == b'"' then closed else more
read_csv behind_quote field (c ∷ s) =
    let next = read_csv at_start [] s in
    let more = read_csv in_quotes (field ++ c ∷ []) s in
    if c == b'"'
    then more
    else if c == b','
    then with_field field next
    else if c == 10
    then some (field ∷ [])
    else none

snoc_lem : (field s : Bytes) (c : ℕ) → (field ++ c ∷ []) ++ s ≡ field ++ c ∷ s
snoc_lem field s c = append_assoc field (c ∷ []) s

read_quoted :
    (field s rest : Bytes)
    → read_csv in_quotes field (double_quotes s ++ b'"' ∷ rest)
      ≡ read_csv behind_quote (field ++ s) rest
unfolding read_csv double_quotes
read_quoted field [] rest = rw (append-nil field) refl
read_quoted field (c ∷ s) rest =
    let ih = read_quoted (field ++ c ∷ []) s rest in
    let join = ap (λ f. read_csv behind_quote f rest) (snoc_lem field s c) in
    elim (Bool-cases (c == b'"')) [
      | inl e ↦ rw e (rw e (ih ∙ join))
      | inr e ↦ rw e (rw e (ih ∙ join))
    ]

read_plain :
    (field s rest : Bytes)
    → has_special s ≡ false
    → read_csv in_plain field (s ++ rest) ≡ read_csv in_plain (field ++ s) rest
unfolding read_csv has_special
read_plain field [] rest h = rw (append-nil field) refl
read_plain field (c ∷ s) rest h =
    let later : has_special s ≡ false = ground arith in
    let no_comma : (c == b',') ≡ false = ground arith in
    let no_end : (c == 10) ≡ false = ground arith in
    let ih = read_plain (field ++ c ∷ []) s rest later in
    rw (no_comma, no_end) (ih ∙ ap (λ f. read_csv in_plain f rest) (snoc_lem field s c))

-- The fields behind a comma are read.
abbrev Following : List Bytes → Type 0
Following [] = Unit
Following (v ∷ vs) = read_csv at_start [] (csv_field v ++ csv_rest vs) ≡ some (v ∷ vs)

-- The text behind a field: a comma and the next fields, or the end of the line.
read_rest :
    (field : Bytes) (values : List Bytes)
    → Following values
    → (read_csv in_plain field (csv_rest values) ≡ some (field ∷ values))
      × (read_csv behind_quote field (csv_rest values) ≡ some (field ∷ values))
      × (read_csv at_start [] (csv_rest values) ≡ some ([] ∷ values))
unfolding read_csv csv_rest with_field
read_rest field [] h = (refl, refl, refl)
read_rest field (v ∷ vs) h =
    (ap (with_field field) h, ap (with_field field) h, ap (with_field []) h)

quoted_field :
    (s rest : Bytes)
    → has_special s ≡ true
    → csv_field s ++ rest ≡ b'"' ∷ (double_quotes s ++ b'"' ∷ rest)
unfolding csv_field
quoted_field s rest h = rw h (ap (λ t. b'"' ∷ t) (append_assoc (double_quotes s) (b'"' ∷ []) rest))

plain_field : (s rest : Bytes) → has_special s ≡ false → csv_field s ++ rest ≡ s ++ rest
unfolding csv_field
plain_field s rest h = rw h refl

start_plain :
    (c : ℕ) (s : Bytes)
    → is_special c ≡ false
    → read_csv at_start [] (c ∷ s) ≡ read_csv in_plain (c ∷ []) s
unfolding read_csv
start_plain c s h =
    let no_quote : (c == b'"') ≡ false = ground arith in
    let no_comma : (c == b',') ≡ false = ground arith in
    let no_end : (c == 10) ≡ false = ground arith in rw (no_quote, no_comma, no_end) refl

start_quoted : (s : Bytes) → read_csv at_start [] (b'"' ∷ s) ≡ read_csv in_quotes [] s
unfolding read_csv
start_quoted s = refl

no_special :
    (c : ℕ) (s : Bytes)
    → has_special (c ∷ s) ≡ false
    → (is_special c ≡ false) × (has_special s ≡ false)
unfolding has_special
no_special c s h = (ground arith, ground arith)

first_field :
    (value : Bytes) (values : List Bytes)
    → Following values
    → read_csv at_start [] (csv_field value ++ csv_rest values) ≡ some (value ∷ values)
first_field value values h = elim (Bool-cases (has_special value)) [
  | inl e ↦
      ap (read_csv at_start []) (quoted_field value (csv_rest values) e)
      ∙ start_quoted (double_quotes value ++ b'"' ∷ csv_rest values)
      ∙ read_quoted [] value (csv_rest values)
      ∙ (read_rest value values h).1
  | inr e ↦ ap (read_csv at_start []) (plain_field value (csv_rest values) e) ∙ unquoted value e
]
  where
    unquoted :
        (s : Bytes)
        → has_special s ≡ false
        → read_csv at_start [] (s ++ csv_rest values) ≡ some (s ∷ values)
    unquoted [] e = (read_rest [] values h).2
    unquoted (c ∷ s) e =
        let split = no_special c s e in
        start_plain c (s ++ csv_rest values) split.0
        ∙ read_plain (c ∷ []) s (csv_rest values) split.1
        ∙ (read_rest (c ∷ s) values h).0

-- The CSV line of one or more values is read back as the same values by a reader of quoted,
-- comma-separated fields.
pub read_csv-emit_csv :
    (value : Bytes) (values : List Bytes)
    → read_csv at_start [] (emit_csv (value ∷ values)) ≡ some (value ∷ values)
unfolding emit_csv
read_csv-emit_csv value values = first_field value values (follow values)
  where
    follow : (vs : List Bytes) → Following vs
    follow [] = tt
    follow (v ∷ vs) = first_field v vs (follow vs)

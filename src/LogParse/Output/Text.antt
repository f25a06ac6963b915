-- ===== src/LogParse/Output/Text.antt =====
-- applets/log_parse/log_output_format.c: the texts that the buffers are filled with.
use mathlib.Core.Path.{subst}
use mathlib.Core.List.{append_assoc}
use ws_pipeline_dispatcher.Prelude.{
  ℕ, Bool, true, false, List, [], ◌∷◌, ◌++◌, ◌≡◌, refl, sym, ap, ◌∙◌, inl, inr, Option, none, some,
  ◌==◌, if◌then◌else◌, Bool-cases, Bytes, codes,
}
use ws_pipeline_dispatcher.DynamicBuffer.{DynamicBuffer, Heap}
use ws_pipeline_dispatcher.DynamicBuffer.Reserve.{IsBuffer, unallocated}
use ws_pipeline_dispatcher.DynamicBuffer.Chain.{
  put_char, joined, Writes, Writes-IsBuffer, written, broken, and_then-Writes, put_char-Writes,
  put_str-Writes, nothing-Writes,
}
use ws_pipeline_dispatcher.Json.{Cjson, json_string}
use ws_pipeline_dispatcher.Json.Getters.{write_string-WritesString, WritesString-Writes}
use ws_pipeline_dispatcher.StreamMerge.Emit.Text.{Prints, cut_off, cut_print-Prints}
use ws_pipeline_dispatcher.StreamMerge.Emit.{fresh_buffer}
use ws_pipeline_dispatcher.LogParse.Filter.{Log}
use ws_pipeline_dispatcher.LogParse.Csv.{has_special, double_quotes, csv_field, csv_rest, emit_csv}
use ws_pipeline_dispatcher.LogParse.Output.{
  Stream, print_filled, write_json, write_value, put_fields, json_buffer, put_quoted,
  append_csv_field, put_values, csv_buffer,
}

abbrev pub comma : Bool → Bytes
comma first = if first then [] else b',' ∷ []

module _ (heap : Heap) where
  comma-Writes :
      (first : Bool) (buf : DynamicBuffer)
      → IsBuffer buf
      → Writes buf (some (comma first)) (if first then (buf, true) else put_char heap buf b',')
  comma-Writes true buf b = nothing-Writes buf b
  comma-Writes false buf b = put_char-Writes heap buf b',' b

  abbrev quote : Bool → Bytes
  quote doubled = if doubled then b'"' ∷ [] else []

  quote-Writes :
      (doubled : Bool) (buf : DynamicBuffer)
      → IsBuffer buf
      → Writes buf (some (quote doubled)) (if doubled then put_char heap buf b'"' else (buf, true))
  quote-Writes true buf b = put_char-Writes heap buf b'"' b
  quote-Writes false buf b = nothing-Writes buf b

  double_quotes-step :
      (c : ℕ) (s : Bytes)
      → double_quotes (c ∷ s) ≡ quote (c == b'"') ++ ((c ∷ []) ++ double_quotes s)
  unfolding double_quotes
  double_quotes-step c s = elim (Bool-cases (c == b'"')) [ inl e ↦ rw e refl | inr e ↦ rw e refl ]

  put_quoted-Writes :
      (s : Bytes) (buf : DynamicBuffer)
      → IsBuffer buf
      → Writes buf (some (double_quotes s)) (put_quoted heap s buf)
  unfolding put_quoted double_quotes
  put_quoted-Writes [] buf b = nothing-Writes buf b
  put_quoted-Writes (c ∷ s) buf b =
      let first = quote-Writes (c == b'"') buf b in
      let byte = put_char-Writes heap _ c (Writes-IsBuffer _ _ _ first) in
      let rest = put_quoted-Writes s _ (Writes-IsBuffer _ _ _ byte) in
      subst (λ t. Writes buf (some t) (put_quoted heap (c ∷ s) buf)) (sym (double_quotes-step c s))
        (and_then-Writes buf _ _ _ _ first (and_then-Writes _ _ _ _ _ byte rest))

  append_csv_field-Writes :
      (buf : DynamicBuffer) (s : Bytes)
      → IsBuffer buf
      → Writes buf (some (csv_field s)) (append_csv_field heap buf s)
  unfolding append_csv_field csv_field
  append_csv_field-Writes buf s b = elim (Bool-cases (has_special s)) [
    | inr plain ↦ rw plain (put_str-Writes heap buf s b)
    | inl special ↦
        let opened = put_char-Writes heap buf b'"' b in
        let bytes = put_quoted-Writes s _ (Writes-IsBuffer _ _ _ opened) in
        let closed = put_char-Writes heap _ b'"' (Writes-IsBuffer _ _ _ bytes) in
        rw special (and_then-Writes buf _ _ _ _ opened (and_then-Writes _ _ _ _ _ bytes closed))
  ]

  -- The values with commas between them, without the end of the line.
  abbrev row_text : Bool → List Bytes → Bytes
  row_text first [] = []
  row_text first (value ∷ values) = comma first ++ (csv_field value ++ row_text false values)

  put_values-Writes :
      (first : Bool) (values : List Bytes) (buf : DynamicBuffer)
      → IsBuffer buf
      → Writes buf (some (row_text first values)) (put_values heap first values buf)
  unfolding put_values
  put_values-Writes first [] buf b = nothing-Writes buf b
  put_values-Writes first (value ∷ values) buf b =
      let sep = comma-Writes first buf b in
      let field = append_csv_field-Writes _ value (Writes-IsBuffer _ _ _ sep) in
      let rest = put_values-Writes false values _ (Writes-IsBuffer _ _ _ field) in
      and_then-Writes buf _ _ _ _ sep (and_then-Writes _ _ _ _ _ field rest)

  rest_text : (values : List Bytes) → row_text false values ++ b'\n' ∷ [] ≡ csv_rest values
  unfolding csv_rest
  rest_text [] = refl
  rest_text (value ∷ values) =
      ap (λ t. b',' ∷ t)
        (append_assoc (csv_field value) (row_text false values) (b'\n' ∷ [])
          ∙ ap (λ t. csv_field value ++ t) (rest_text values))

  whole_text : (values : List Bytes) → row_text true values ++ b'\n' ∷ [] ≡ emit_csv values
  unfolding emit_csv
  whole_text [] = refl
  whole_text (value ∷ values) =
      append_assoc (csv_field value) (row_text false values) (b'\n' ∷ [])
      ∙ ap (λ t. csv_field value ++ t) (rest_text values)

  -- If the memory is there, the buffer of a CSV row is filled with the row's text.
  pub csv_buffer-Writes :
      (values : List Bytes) → Writes fresh_buffer (some (emit_csv values)) (csv_buffer heap values)
  unfolding csv_buffer
  csv_buffer-Writes values =
      let row = put_values-Writes true values fresh_buffer (unallocated refl refl refl) in
      subst (λ t. Writes fresh_buffer (some t) (csv_buffer heap values)) (whole_text values)
        (and_then-Writes fresh_buffer _ _ _ _ row
          (put_char-Writes heap _ b'\n' (Writes-IsBuffer _ _ _ row)))

module _ (lib : Cjson) where
  abbrev value_text : Option Bytes → Option Bytes
  value_text none = none
  value_text (some s) = json_string lib s

  abbrev fields_text : Bool → Log → Option Bytes
  fields_text first [] = some []
  fields_text first ((name, value) ∷ log) = joined (some (comma first)) (
      joined (json_string lib name)
        (joined (some (b':' ∷ [])) (joined (value_text value) (fields_text false log))))

  -- The JSON object of a record and the end of the line, if its names and values have JSON texts.
  abbrev pub json_line : Log → Option Bytes
  json_line log = joined (some (b'{' ∷ [])) (joined (fields_text true log) (some (codes "}\n")))

module _ (lib : Cjson) (heap : Heap) where
  write_value-Writes :
      (buf : DynamicBuffer) (value : Option Bytes)
      → IsBuffer buf
      → Writes buf (value_text lib value) (write_value lib heap buf value)
  write_value-Writes buf none b = broken buf b
  write_value-Writes buf (some s) b =
      WritesString-Writes lib buf s _ (write_string-WritesString lib heap buf s b)

  put_fields-Writes :
      (first : Bool) (log : Log) (buf : DynamicBuffer)
      → IsBuffer buf
      → Writes buf (fields_text lib first log) (put_fields lib heap first log buf)
  unfolding put_fields
  put_fields-Writes first [] buf b = nothing-Writes buf b
  put_fields-Writes first ((name, value) ∷ log) buf b =
      let sep = comma-Writes heap first buf b in
      let key =
        WritesString-Writes lib _ name _
          (write_string-WritesString lib heap _ name (Writes-IsBuffer _ _ _ sep)) in
      let colon = put_char-Writes heap _ b':' (Writes-IsBuffer _ _ _ key) in
      let text = write_value-Writes _ value (Writes-IsBuffer _ _ _ colon) in
      let rest = put_fields-Writes false log _ (Writes-IsBuffer _ _ _ text) in
      and_then-Writes buf _ _ _ _ sep (
        and_then-Writes _ _ _ _ _ key
          (and_then-Writes _ _ _ _ _ colon (and_then-Writes _ _ _ _ _ text rest)))

  json_buffer-Writes :
      (log : Log) → Writes fresh_buffer (json_line lib log) (json_buffer lib heap log)
  unfolding json_buffer
  json_buffer-Writes log =
      let opened = put_char-Writes heap fresh_buffer b'{' (unallocated refl refl refl) in
      let fields = put_fields-Writes true log _ (Writes-IsBuffer _ _ _ opened) in
      and_then-Writes fresh_buffer _ _ _ _ opened (
        and_then-Writes _ _ _ _ _ fields
          (put_str-Writes heap _ (codes "}\n") (Writes-IsBuffer _ _ _ fields)))

  print_filled-Prints :
      (stream : Stream) (out : Bytes) (o : Option Bytes) (r : DynamicBuffer × Bool)
      → Writes fresh_buffer o r
      → Prints out o (print_filled stream out r)
  print_filled-Prints stream out o r (broken buf b) = cut_off out
  print_filled-Prints stream out o r (written buf text e b c) =
      rw (e, c) (cut_print-Prints out text (stream out text))

  -- A write that returns 0 has printed the JSON object of the record and the end of the line.
  pub write_json-Prints :
      (stream : Stream) (log : Log) (out : Bytes)
      → Prints out (json_line lib log) (write_json lib heap stream log out)
  unfolding write_json
  write_json-Prints stream log out =
      print_filled-Prints stream out (json_line lib log) _ (json_buffer-Writes log)

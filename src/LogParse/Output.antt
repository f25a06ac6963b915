-- ===== src/LogParse/Output.antt =====
-- applets/log_parse/log_output_format.c: the records of a line as JSON and as CSV, through a buffer.
pub mod Text
use ws_pipeline_dispatcher.Prelude.{
  ℕ, Bool, true, false, ◌||◌, List, [], ◌∷◌, ◌++◌, Option, none, some, ◌==◌, if◌then◌else◌, Bytes,
  codes, map,
}
use ws_pipeline_dispatcher.DynamicBuffer.{DynamicBuffer, Heap}
use ws_pipeline_dispatcher.DynamicBuffer.Reserve.{content}
use ws_pipeline_dispatcher.DynamicBuffer.Chain.{put_char, put_str, and_then}
use ws_pipeline_dispatcher.Json.{Cjson, write_string}
use ws_pipeline_dispatcher.StreamMerge.Emit.{Printed, cut_print, fresh_buffer}
use ws_pipeline_dispatcher.LogParse.Filter.{Log}
use ws_pipeline_dispatcher.LogParse.Csv.{has_special}

-- A stream: the number of bytes that a failing call lets through, or that it succeeds.
abbrev pub Stream : Type 0
Stream = Bytes → Bytes → Option ℕ

-- The fate of a buffer: it is printed if it was filled.
abbrev pub print_filled : Stream → Bytes → DynamicBuffer × Bool → Printed
print_filled stream out (buf, true) = cut_print out (content buf) (stream out (content buf))
print_filled stream out (buf, false) = (out, false)

module _ (lib : Cjson) (heap : Heap) where
  -- `jsonl_write_string` of a value, which fails on NULL.
  abbrev pub write_value : DynamicBuffer → Option Bytes → DynamicBuffer × Bool
  write_value buf none = (buf, false)
  write_value buf (some s) = write_string lib heap buf s

  abbrev pub put_comma : Bool → DynamicBuffer → DynamicBuffer × Bool
  put_comma first buf = if first then (buf, true) else put_char heap buf b','

  -- The loop over the fields, `first` at index 0.
  unfoldable pub put_fields : Bool → Log → DynamicBuffer → DynamicBuffer × Bool
  put_fields first [] buf = (buf, true)
  put_fields first ((name, value) ∷ log) buf =
      let comma = put_comma first buf in
      let key = write_string lib heap comma.0 name in
      let colon = put_char heap key.0 b':' in
      let text = write_value colon.0 value in
      let rest = put_fields false log text.0 in
      and_then comma (and_then key (and_then colon (and_then text rest)))

  -- The record in the buffer.
  unfoldable pub json_buffer : Log → DynamicBuffer × Bool
  unfolding put_fields
  json_buffer log =
      let opened = put_char heap fresh_buffer b'{' in
      let fields = put_fields true log opened.0 in
      and_then opened (and_then fields (put_str heap fields.0 (codes "}\n")))

  -- `log_output_write_json`; `true` stands for 0 and `false` for -1.
  unfoldable pub write_json : Stream → Log → Bytes → Printed
  unfolding json_buffer
  write_json stream log out = print_filled stream out (json_buffer log)

module _ (heap : Heap) where
  -- The loop of `append_csv_field` over the bytes of a quoted field.
  unfoldable pub put_quoted : Bytes → DynamicBuffer → DynamicBuffer × Bool
  put_quoted [] buf = (buf, true)
  put_quoted (c ∷ s) buf =
      let quote = if c == b'"' then put_char heap buf b'"' else (buf, true) in
      let byte = put_char heap quote.0 c in and_then quote (and_then byte (put_quoted s byte.0))

  -- `append_csv_field`
  unfoldable pub append_csv_field : DynamicBuffer → Bytes → DynamicBuffer × Bool
  unfolding put_quoted
  append_csv_field buf s =
      let opened = put_char heap buf b'"' in
      let bytes = put_quoted s opened.0 in
      if has_special s
      then and_then opened (and_then bytes (put_char heap bytes.0 b'"'))
      else put_str heap buf s

  -- The loop over the values, `first` at index 0.
  unfoldable pub put_values : Bool → List Bytes → DynamicBuffer → DynamicBuffer × Bool
  unfolding append_csv_field
  put_values first [] buf = (buf, true)
  put_values first (value ∷ values) buf =
      let comma = if first then (buf, true) else put_char heap buf b',' in
      let field = append_csv_field comma.0 value in
      and_then comma (and_then field (put_values false values field.0))

  unfoldable pub csv_buffer : List Bytes → DynamicBuffer × Bool
  unfolding put_values
  csv_buffer values =
      let row = put_values true values fresh_buffer in and_then row (put_char heap row.0 b'\n')

  -- `log_output_emit_csv`, which takes no notice of a failing `fputs`.
  abbrev pub print_row : Stream → Bytes → DynamicBuffer × Bool → Printed
  print_row stream out (buf, true) = ((print_filled stream out (buf, true)).0, true)
  print_row stream out (buf, false) = (out, false)

  unfoldable pub print_csv : Stream → List Bytes → Bytes → Printed
  unfolding csv_buffer
  print_csv stream values out = print_row stream out (csv_buffer values)

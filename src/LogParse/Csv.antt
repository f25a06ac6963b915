-- ===== src/LogParse/Csv.antt =====
-- applets/log_parse/log_output_format.c: the CSV line of a record, with every append to the buffer
-- granted.
pub mod RoundTrip
use ws_pipeline_dispatcher.Prelude.{
  ℕ, Bool, true, false, ◌||◌, List, [], ◌∷◌, ◌++◌, ◌==◌, if◌then◌else◌, Bytes,
}

-- A byte that makes `append_csv_field` quote.
abbrev pub is_special : ℕ → Bool
is_special c = c == b',' || (c == b'"' || (c == 10 || c == 13))

unfoldable pub has_special : Bytes → Bool
has_special [] = false
has_special (c ∷ s) = is_special c || has_special s

-- The loop over the bytes of a quoted field.
unfoldable pub double_quotes : Bytes → Bytes
double_quotes [] = []
double_quotes (c ∷ s) =
    let rest = double_quotes s in if c == b'"' then b'"' ∷ c ∷ rest else c ∷ rest

-- What `append_csv_field` appends.
unfoldable pub csv_field : Bytes → Bytes
csv_field s = if has_special s then b'"' ∷ (double_quotes s ++ b'"' ∷ []) else s

-- The fields behind the first, each behind its comma, and the end of the line.
unfoldable pub csv_rest : List Bytes → Bytes
csv_rest [] = 10 ∷ []
csv_rest (value ∷ values) = b',' ∷ (csv_field value ++ csv_rest values)

-- `log_output_emit_csv`: what it writes to stdout.
unfoldable pub emit_csv : List Bytes → Bytes
emit_csv [] = 10 ∷ []
emit_csv (value ∷ values) = csv_field value ++ csv_rest values

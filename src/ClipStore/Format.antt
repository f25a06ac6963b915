-- ===== src/ClipStore/Format.antt =====
-- applets/clip_store/db_format.c: the lines of the database. Also the reading of lines in
-- `load_latest_rows`. miniz is a parameter.
pub mod Text
pub mod Packed
pub mod File
use ws_pipeline_dispatcher.Prelude.{
  ℕ, zero, suc, ◌+◌, ◌*◌, ◌/◌, Bool, true, false, ◌&&◌, ◌||◌, List, [], ◌∷◌, ◌++◌, Option, none,
  some, ◌>>=◌, map, ◌==◌, if◌then◌else◌, length, Bytes,
}
use ws_pipeline_dispatcher.Prelude.Int.{ℤ}
use ws_pipeline_dispatcher.Base64.{base64_encode, base64_decode}
use ws_pipeline_dispatcher.ClipStore.Row.{Row}
use ws_pipeline_dispatcher.ClipStore.Number.{print_long, whole_long}

-- What `uncompress` answers: `Z_OK`, `Z_BUF_ERROR` or another status.
pub data Inflated : Type 0 where
  z_ok : Bytes → Inflated
  z_buf_error : Inflated
  z_failed : Inflated

-- The calls of miniz; a first number is the size of the destination.
pub record Zlib : Type 0 where
  pub compress_bound : ℕ → ℕ
  pub compress : ℕ → Bytes → Option Bytes
  pub uncompress : ℕ → Bytes → Inflated

-- Which requests to the C library are granted: memory, `fseek` and `fprintf`; and whether the reads
-- of a file come to its end, so that `ferror` is 0.
pub record System : Type 0 where
  pub grants : ℕ → Bool
  pub seeks : Bool
  pub prints : Bool
  pub reads : Bool

-- The text before the first `c`, and the text behind it: `strchr`, and a NUL in its place.
unfoldable pub split_at : ℕ → Bytes → Option (Bytes × Bytes)
split_at c [] = none
split_at c (x ∷ s) =
    let rest = split_at c s in
    if x == c
    then some ([], s)
    else elim rest [ none ↦ none | some (front, back) ↦ some (x ∷ front, back) ]

-- The bytes up to the first NUL.
unfoldable pub c_string : Bytes → Bytes
c_string [] = []
c_string (x ∷ s) = let rest = c_string s in if x == 0 then [] else x ∷ rest

-- The loop goes on as long as the buffer is too small.
unfoldable pub after_uncompress : Inflated → Option Bytes → Option Bytes
after_uncompress (z_ok value) again = some value
after_uncompress z_buf_error again = again
after_uncompress z_failed again = none

-- The loop over `uncompress`, which doubles the buffer as long as it is too small.
unfoldable pub inflate : Zlib → System → ℕ → ℕ → Bytes → Option Bytes
inflate zlib sys zero uncomp_len comp = none
inflate zlib sys (suc rounds) uncomp_len comp =
    let again = inflate zlib sys rounds (uncomp_len * 2) comp in
    after_uncompress (zlib.uncompress uncomp_len comp)
      (if sys.grants (uncomp_len * 2) then again else none)

-- From 2^10 bytes on, so many rounds reach every size of an object.
abbrev pub inflate_rounds : ℕ
inflate_rounds = 64

-- The text behind `Z:`.
unfoldable pub packed_text : Bytes → Option Bytes
packed_text (z ∷ colon ∷ text) = if z == b'Z' && colon == b':' then some text else none
packed_text _ = none

-- The value that a compressed text stands for, as a C string.
unfoldable pub unpack : Zlib → System → Bytes → Option Bytes
unpack zlib sys text = do
  decoded ← if sys.grants (length text + 1) then base64_decode b':' text (length text + 1) else none
  let uncomp_len = decoded.1 * 4 + 1024 in
      if sys.grants uncomp_len
      then (inflate zlib sys inflate_rounds uncomp_len decoded.0 >>= λ value. some (c_string value))
      else none

unfoldable pub stored_value : Zlib → System → Bytes → Option Bytes
stored_value zlib sys field = elim (packed_text field) [
  | none ↦ some field
  | some text ↦ unpack zlib sys text
]

-- `parse_db_row`; `none` stands for -1.
unfoldable pub parse_db_row : Zlib → System → Bytes → Option Row
parse_db_row zlib sys line = do
  (key, fields) ← split_at 9 line
  (field, number) ← split_at 9 fields
  expire_at ← whole_long number
  value ← stored_value zlib sys field
  some (record { key = key; value = value; expire_at = expire_at })

-- The value field that `append_db_row` prints.
unfoldable pub value_field : Zlib → System → Bytes → Option Bytes
value_field zlib sys [] = some []
value_field zlib sys (c ∷ cs) =
    let value = c ∷ cs in
    let bound = zlib.compress_bound (length value) in
    do
      comp ← if sys.grants bound then zlib.compress bound value else none
      let b64_len = 4 * ((length comp + 2) / 3) + 1 in
          if sys.grants (b64_len + 3)
          then (base64_encode comp b64_len >>= λ text. some (b'Z' ∷ b':' ∷ text))
          else none

-- `"%s\t%s\t%ld"`
unfoldable pub db_line : Bytes → Bytes → ℤ → Bytes
db_line key field expire_at = key ++ 9 ∷ (field ++ 9 ∷ print_long expire_at)

-- `append_db_row`: the file behind the call; `none` stands for -1.
unfoldable pub append_db_row : Zlib → System → Bytes → Bytes → Bytes → ℤ → Option Bytes
append_db_row zlib sys file key value expire_at =
    if sys.seeks
    then (do
      field ← value_field zlib sys value
      if sys.prints then some (file ++ (db_line key field expire_at ++ 10 ∷ [])) else none)
    else none

-- The first line of a text gets one more character at its front.
unfoldable pub prepend : ℕ → List Bytes → List Bytes
prepend c [] = (c ∷ []) ∷ []
prepend c (line ∷ lines) = (c ∷ line) ∷ lines

-- The lines that `getline` reads, each with its newline.
unfoldable pub read_lines : Bytes → List Bytes
read_lines [] = []
read_lines (c ∷ s) = let rest = read_lines s in if c == 10 then (10 ∷ []) ∷ rest else prepend c rest

-- `line[strcspn(line, "\r\n")] = '\0'`, and the C string that is left.
unfoldable pub cut_line : Bytes → Bytes
cut_line [] = []
cut_line (c ∷ s) = let rest = cut_line s in if (c == 13 || c == 10) || c == 0 then [] else c ∷ rest

-- What the loop of `load_latest_rows` makes of the lines of a file.
unfoldable pub read_rows : Zlib → System → Bytes → List (Option Row)
read_rows zlib sys file = map (λ line. parse_db_row zlib sys (cut_line line)) (read_lines file)

-- ===== src/Json.antt =====
-- lib/jsonl_codec.c: the fields of a JSON Lines record. cJSON is not in the repository: its trees
-- are the data type `Value`, and its functions are the record `Cjson` that the getters take. An
-- out pointer is the result of a getter: `none` stands for -1 with nothing written. NULL lines and
-- keys and the freeing of trees are left out.
pub mod Numbers
pub mod Getters
pub mod Tests
use ws_pipeline_dispatcher.Prelude.{
  ℕ, ◌-◌, ◌*◌, ◌/◌, ◌%◌, ◌^◌, Bool, true, false, ◌&&◌, ◌||◌, [], ◌∷◌, Option, none, some, ltb, leb,
  ◌==◌, if◌then◌else◌, ◌>>=◌, length, Bytes, is_some,
}
use ws_pipeline_dispatcher.Prelude.Int.{ℤ, pos, negsuc}
use ws_pipeline_dispatcher.DynamicBuffer.{DynamicBuffer, Heap, dynamic_buffer_append_str, is_done}

-- A `double`: a finite one is a sign and `significand / 2 ^ scale`.
pub data Double : Type 0 where
  finite : Bool → ℕ → ℕ → Double
  infinite : Bool → Double
  nan : Double

-- `cJSON` by its type; the text of a string may be NULL.
mutual
  pub data Value : Type 0 where
    null : Value
    boolean : Bool → Value
    number : Double → Value
    string : Option Bytes → Value
    array : Items → Value
    object : Fields → Value

  pub data Items : Type 0 where
    nil : Items
    cons : Value → Items → Items

  pub data Fields : Type 0 where
    end : Fields
    field : Bytes → Value → Fields → Fields

-- The functions of cJSON; `none` is NULL.
pub record Cjson : Type 0 where
  -- `cJSON_ParseWithOpts(line, &end, 0)`: the tree and the text from `end` on
  pub parse_with_opts : Bytes → Option (Value × Bytes)
  -- `cJSON_GetObjectItemCaseSensitive`
  pub get_object_item : Value → Bytes → Option Value
  -- `cJSON_PrintUnformatted`
  pub print_unformatted : Value → Option Bytes
  -- `cJSON_CreateString`
  pub create_string : Bytes → Option Value

-- `isspace` in the C locale.
abbrev pub is_space : ℕ → Bool
is_space c = (leb 9 c && leb c 13) || c == b' '

-- The loop over `parse_end`, and the test that it stopped at the NUL.
unfoldable pub only_spaces : Bytes → Bool
only_spaces [] = true
only_spaces (c ∷ s) = is_space c && only_spaces s

-- `parse_object`, from the result of `cJSON_ParseWithOpts`.
unfoldable pub whole_object : Option (Value × Bytes) → Option Value
whole_object none = none
whole_object (some (object fs, rest)) = if only_spaces rest then some (object fs) else none
whole_object (some (v, rest)) = none

-- JSONL_MAX_SAFE_INTEGER
abbrev pub max_safe_integer : ℕ
max_safe_integer = 2 ^ 53 - 1

-- `x < -JSONL_MAX_SAFE_INTEGER`
abbrev pub below_safe : Double → Bool
below_safe (finite negative m e) = negative && ltb (max_safe_integer * 2 ^ e) m
below_safe (infinite negative) = negative
below_safe nan = false

-- `x > JSONL_MAX_SAFE_INTEGER`
abbrev pub above_safe : Double → Bool
above_safe (finite true m e) = false
above_safe (finite false m e) = ltb (max_safe_integer * 2 ^ e) m
above_safe (infinite true) = false
above_safe (infinite false) = true
above_safe nan = false

-- `x < 0.0`
abbrev pub below_zero : Double → Bool
below_zero (finite negative m e) = negative && ltb 0 m
below_zero (infinite negative) = negative
below_zero nan = false

-- -n
abbrev pub minus : ℕ → ℤ
minus n = if n == 0 then pos 0 else negsuc (n - 1)

-- A cast to an integer and back gives the same `double`: the integer, if there is no fraction. The
-- cast of what is not finite is undefined in C.
unfoldable pub exact_int64 : Double → Option ℤ
exact_int64 (finite true m e) = if m % 2 ^ e == 0 then some (minus (m / 2 ^ e)) else none
exact_int64 (finite false m e) = if m % 2 ^ e == 0 then some (pos (m / 2 ^ e)) else none
exact_int64 (infinite negative) = none
exact_int64 nan = none

unfoldable pub exact_uint64 : Double → Option ℕ
exact_uint64 (finite negative m e) = if m % 2 ^ e == 0 then some (m / 2 ^ e) else none
exact_uint64 (infinite negative) = none
exact_uint64 nan = none

-- The getters from the item on.
unfoldable pub int64_of : Value → Option ℤ
int64_of (number x) = if below_safe x || above_safe x then none else exact_int64 x
int64_of null = none
int64_of (boolean b) = none
int64_of (string s) = none
int64_of (array vs) = none
int64_of (object fs) = none

unfoldable pub uint64_of : Value → Option ℕ
uint64_of (number x) = if below_zero x || above_safe x then none else exact_uint64 x
uint64_of null = none
uint64_of (boolean b) = none
uint64_of (string s) = none
uint64_of (array vs) = none
uint64_of (object fs) = none

unfoldable pub bool_of : Value → Option Bool
bool_of (boolean b) = some b
bool_of null = none
bool_of (number x) = none
bool_of (string s) = none
bool_of (array vs) = none
bool_of (object fs) = none

-- The copy of a text with its NUL into a buffer of `size` bytes.
unfoldable pub copy_out : ℕ → Bytes → Option Bytes
copy_out size s = if leb size (length s) then none else some s

unfoldable pub string_of : Value → Option Bytes
string_of (string s) = s
string_of null = none
string_of (boolean b) = none
string_of (number x) = none
string_of (array vs) = none
string_of (object fs) = none

module _ (lib : Cjson) where
  -- `parse_object`
  unfoldable pub parse_object : Bytes → Option Value
  unfolding whole_object
  parse_object line = whole_object (lib.parse_with_opts line)

  -- `get_item(parse_object(line), key)`; the item of NULL is NULL.
  unfoldable pub get_item : Bytes → Bytes → Option Value
  get_item line key = parse_object line >>= λ root. lib.get_object_item root key

  -- `jsonl_get_string`
  unfoldable pub get_string : Bytes → Bytes → ℕ → Option Bytes
  get_string line key size =
      if size == 0 then none else get_item line key >>= λ item. string_of item >>= copy_out size

  -- `jsonl_get_int64`
  unfoldable pub get_int64 : Bytes → Bytes → Option ℤ
  get_int64 line key = get_item line key >>= int64_of

  -- `jsonl_get_uint64`
  unfoldable pub get_uint64 : Bytes → Bytes → Option ℕ
  get_uint64 line key = get_item line key >>= uint64_of

  -- `jsonl_get_bool`
  unfoldable pub get_bool : Bytes → Bytes → Option Bool
  get_bool line key = get_item line key >>= bool_of

  -- `jsonl_is_object`
  unfoldable pub is_object : Bytes → Bool
  is_object line = is_some (parse_object line)

  -- The text of a scalar: that of a string, and the print of any other.
  unfoldable pub scalar_of : Value → Option Bytes
  scalar_of (object fs) = none
  scalar_of (array vs) = none
  scalar_of (string s) = s
  scalar_of null = lib.print_unformatted null
  scalar_of (boolean b) = lib.print_unformatted (boolean b)
  scalar_of (number x) = lib.print_unformatted (number x)

  -- `jsonl_get_scalar_text`
  unfoldable pub get_scalar_text : Bytes → Bytes → ℕ → Option Bytes
  get_scalar_text line key size =
      if size == 0 then none else get_item line key >>= λ item. scalar_of item >>= copy_out size

  -- The text that `jsonl_write_string` appends.
  unfoldable pub json_string : Bytes → Option Bytes
  json_string s = lib.create_string s >>= lib.print_unformatted

  -- `jsonl_write_string`, from the printed text on; `true` stands for 0 and `false` for -1.
  unfoldable pub append_printed : Heap → DynamicBuffer → Option Bytes → DynamicBuffer × Bool
  append_printed heap buf none = (buf, false)
  append_printed heap buf (some text) =
      let (buf', status) = dynamic_buffer_append_str heap buf (some text) in (buf', is_done status)

  unfoldable pub write_string : Heap → DynamicBuffer → Bytes → DynamicBuffer × Bool
  write_string heap buf s = append_printed heap buf (json_string s)

-- ===== src/Json/Tests.antt =====
-- Tests for lib/jsonl_codec.c, with a table of texts in the place of the parser.
use ws_pipeline_dispatcher.Prelude.{
  ℕ, ◌<◌, ◌^◌, true, false, List, [], ◌∷◌, ◌++◌, ◌≡◌, ◌↔◌, refl, Option, none, some, if◌then◌else◌,
  length, Bytes, codes, equal,
}
use ws_pipeline_dispatcher.Prelude.Int.{ℤ, pos}
use ws_pipeline_dispatcher.DynamicBuffer.{DynamicBuffer, Heap}
use ws_pipeline_dispatcher.ClipStore.Number.{print_long}
use ws_pipeline_dispatcher.Json.{
  finite, Value, null, boolean, number, string, object, Fields, end, field, Cjson, get_item,
  get_string, get_int64, get_uint64, get_scalar_text, parse_object, only_spaces, int64_of,
  uint64_of, exact_int64, copy_out, scalar_of, string_of,
}
use ws_pipeline_dispatcher.Json.Getters.{HasInteger, get_integers_lem, get_texts_lem, Spells}

abbrev parse_table : List (Bytes × Value) → Bytes → Option (Value × Bytes)
parse_table [] line = none
parse_table ((text, v) ∷ table) line =
    if equal text line then some (v, []) else parse_table table line

abbrev first_field : Fields → Bytes → Option Value
first_field end key = none
first_field (field k v fs) key = if equal k key then some v else first_field fs key

abbrev item_of : Value → Bytes → Option Value
item_of (object fs) key = first_field fs key
item_of v key = none

abbrev print_value : Value → Option Bytes
print_value null = some (codes "null")
print_value (boolean true) = some (codes "true")
print_value (boolean false) = some (codes "false")
print_value (number (finite false m e)) = some (print_long (pos m))
print_value (string (some s)) = some (b'"' ∷ s ++ codes "\"")
print_value v = none

abbrev pub table_json : List (Bytes × Value) → Cjson
table_json table = record {
  parse_with_opts = parse_table table;
  get_object_item = item_of;
  print_unformatted = print_value;
  create_string = λ s. some (string (some s));
}

abbrev pub whole_number : ℕ → Value
whole_number n = number (finite false n 0)

abbrev sample : Cjson
sample = table_json (
    (
      codes "a",
      object (
          field (codes "n") (whole_number 7) (
            field (codes "half") (number (finite false 1 1)) (
              field (codes "big") (whole_number (2 ^ 53)) (
                field (codes "s") (string (some (codes "hello")))
                  (field (codes "t") (boolean true) end))))),
    )
    ∷ [])

reads_a_number : get_int64 sample (codes "a") (codes "n") ≡ some (pos 7)
unfolding get_int64 get_uint64 get_string get_scalar_text get_item parse_object equal only_spaces
    int64_of uint64_of exact_int64 copy_out scalar_of string_of
reads_a_number = refl

refuses_a_fraction : get_int64 sample (codes "a") (codes "half") ≡ none
unfolding get_int64 get_uint64 get_string get_scalar_text get_item parse_object equal only_spaces
    int64_of uint64_of exact_int64 copy_out scalar_of string_of
refuses_a_fraction = refl

refuses_a_rounded_number : get_uint64 sample (codes "a") (codes "big") ≡ none
unfolding get_int64 get_uint64 get_string get_scalar_text get_item parse_object equal only_spaces
    int64_of uint64_of exact_int64 copy_out scalar_of string_of
refuses_a_rounded_number = refl

needs_room_for_the_nul : get_string sample (codes "a") (codes "s") 5 ≡ none
unfolding get_int64 get_uint64 get_string get_scalar_text get_item parse_object equal only_spaces
    int64_of uint64_of exact_int64 copy_out scalar_of string_of
needs_room_for_the_nul = refl

prints_a_scalar : get_scalar_text sample (codes "a") (codes "t") 5 ≡ some (codes "true")
unfolding get_int64 get_uint64 get_string get_scalar_text get_item parse_object equal only_spaces
    int64_of uint64_of exact_int64 copy_out scalar_of string_of
prints_a_scalar = refl

get_integers_lem_example :
    ((z : ℤ)
      → (get_int64 sample (codes "a") (codes "n") ≡ some z)
        ↔ HasInteger sample (codes "a") (codes "n") z)
    × ((n : ℕ)
        → (get_uint64 sample (codes "a") (codes "n") ≡ some n)
          ↔ HasInteger sample (codes "a") (codes "n") (pos n))
get_integers_lem_example = get_integers_lem sample (codes "a") (codes "n")

get_texts_lem_example :
    ((get_string sample (codes "a") (codes "s") 6 ≡ some (codes "hello")) ↔ (
      (get_item sample (codes "a") (codes "s") ≡ some (string (some (codes "hello"))))
      × (length (codes "hello") < 6)))
    × ((get_scalar_text sample (codes "a") (codes "s") 6 ≡ some (codes "hello")) ↔ (
        ((item : Value) × (get_item sample (codes "a") (codes "s") ≡ some item)
          × Spells sample item (codes "hello"))
        × (length (codes "hello") < 6)))
get_texts_lem_example = get_texts_lem sample (codes "a") (codes "s") 6 (codes "hello")

abbrev pub unfilled : DynamicBuffer
unfilled = record { data_ = none; len = 0; cap = 0; failed = false }

abbrev pub granting : Heap
granting = record { grants = λ n. true; junk = λ i. 1 }

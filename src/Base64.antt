-- ===== src/Base64.antt =====
-- lib/base64.c: the text form of compressed database values.
pub mod Spec
pub mod Groups
pub mod RoundTrip
pub mod Bounds
pub mod Tests
use ws_pipeline_dispatcher.Prelude.{
  ℕ, zero, suc, ◌+◌, ◌-◌, ◌*◌, ◌/◌, ◌%◌, ◌^◌, Bool, true, false, not, ◌&&◌, ◌||◌, List, [], ◌∷◌,
  ◌++◌, Option, none, some, ◌>>=◌, ltb, leb, ◌==◌, if◌then◌else◌, length, get_or, set, Bytes, codes,
}

-- `b64_table[i]`
unfoldable pub b64_table : ℕ → ℕ
b64_table i = get_or (codes "ABCDEFGHIJKLMNOPQRSTUVWXYZabcdefghijklmnopqrstuvwxyz0123456789+/") i 0

-- The four characters for three octets. A shift is a division and `& 0x3F` is a remainder.
unfoldable pub encode_group : ℕ → ℕ → ℕ → Bytes
encode_group octet_a octet_b octet_c =
    let triple = (octet_a * 2 ^ 16 + octet_b * 2 ^ 8 + octet_c) % 2 ^ 32 in
    b64_table (triple / 2 ^ 18 % 64)
    ∷ b64_table (triple / 2 ^ 12 % 64)
    ∷ b64_table (triple / 2 ^ 6 % 64)
    ∷ b64_table (triple % 64)
    ∷ []

-- The main loop: past the end of the source an octet is 0.
unfoldable pub encode_groups : Bytes → Bytes
unfolding encode_group
encode_groups [] = []
encode_groups (a ∷ []) = encode_group a 0 0
encode_groups (a ∷ b ∷ []) = encode_group a b 0
encode_groups (a ∷ b ∷ c ∷ src) = encode_group a b c ++ encode_groups src

-- `for (pad = …; …; pad++) out[out_len - 1 - pad] = '='`, on the rounds left.
unfoldable pub pad_loop : ℕ → ℕ → ℕ → Bytes → Bytes
pad_loop zero pad out_len out = out
pad_loop (suc n) pad out_len out = pad_loop n (pad + 1) out_len (set out (out_len - 1 - pad) b'=')

-- `base64_encode`; `none` stands for -1. The final NUL is not part of the text.
unfoldable pub base64_encode : Bytes → ℕ → Option Bytes
unfolding encode_groups pad_loop
base64_encode src out_max =
    let len = length src in
    let out_len = 4 * ((len + 2) / 3) in
    if ltb out_max (out_len + 1)
    then none
    else some (pad_loop ((3 - len % 3) % 3) 0 out_len (encode_groups src))

-- `b64_index`; `none` stands for -1.
unfoldable pub b64_index : ℕ → Option ℕ
b64_index c =
    if leb b'A' c && leb c b'Z'
    then some (c - b'A')
    else if leb b'a' c && leb c b'z'
    then some (c - b'a' + 26)
    else if leb b'0' c && leb c b'9'
    then some (c - b'0' + 52)
    else if c == b'+'
    then some 62
    else if c == b'/'
    then some 63
    else none

-- `src[i] == '=' ? 0 : b64_index(src[i])`
unfoldable pub sextet : ℕ → Option ℕ
unfolding b64_index
sextet c = if c == b'=' then some 0 else b64_index c

-- The guarded write `if (j < ol) out[j++] = byte`, on the bytes written so far.
unfoldable pub put_byte : ℕ → ℕ → Bytes → Bytes
put_byte ol byte out = if ltb (length out) ol then out ++ byte ∷ [] else out

unfoldable pub decode_group : ℕ → ℕ → ℕ → ℕ → ℕ → Bytes → Bytes
unfolding put_byte
decode_group ol a b c d out =
    let triple = (a * 2 ^ 18 + b * 2 ^ 12 + c * 2 ^ 6 + d) % 2 ^ 32 in
    let out = put_byte ol (triple / 2 ^ 16 % 256) out in
    let out = put_byte ol (triple / 2 ^ 8 % 256) out in put_byte ol (triple % 256) out

-- The main loop. A length that is no multiple of 4 does not reach it.
unfoldable pub decode_groups : ℕ → Bytes → Bytes → Option Bytes
decode_groups ol [] out = some out
decode_groups ol (w ∷ x ∷ y ∷ z ∷ src) out = do
  a ← sextet w
  b ← sextet x
  c ← sextet y
  d ← sextet z
  decode_groups ol src (decode_group ol a b c d out)
decode_groups ol _ out = none

-- `src[len - 1 - k]`; the byte in front of the text stands for `src[-1]`.
unfoldable pub from_end : ℕ → Bytes → ℕ → ℕ
from_end front src k = get_or (front ∷ src) (length src - k) 0

-- `ol`, in 64-bit arithmetic.
unfoldable pub decoded_length : ℕ → Bytes → ℕ
unfolding from_end
decoded_length front src =
    let len = length src in
    let ol = len / 4 * 3 in
    let ol = if from_end front src 0 == b'=' then (ol + 2 ^ 64 - 1) % 2 ^ 64 else ol in
    if ltb 1 len && from_end front src 1 == b'=' then (ol + 2 ^ 64 - 1) % 2 ^ 64 else ol

-- `base64_decode`: the bytes written and `*out_len`; `none` stands for -1. The byte in
-- front of the text is an argument, since the code reads it where the text is empty.
unfoldable pub base64_decode : ℕ → Bytes → ℕ → Option (Bytes × ℕ)
base64_decode front src out_max =
    if not (length src % 4 == 0)
    then none
    else if ltb out_max (decoded_length front src)
    then none
    else do
      out ← decode_groups (decoded_length front src) src []
      some (out, decoded_length front src)

-- ===== src/Base64/Spec.antt =====
-- What the encoder writes, group by group, with the padding in its place.
use mathlib.Core.Path.{ap₂}
use ws_pipeline_dispatcher.Prelude.{
  ℕ, zero, suc, ◌+◌, ◌-◌, ◌*◌, ◌/◌, ◌%◌, ◌^◌, ◌≤◌, ◌<◌, [], ◌∷◌, ◌++◌, ◌≡◌, refl, ap, ◌∙◌, none,
  some, if◌then◌else◌, ltb, arith, length, set, Bytes,
}
use ws_pipeline_dispatcher.Base64.{b64_table, encode_group, encode_groups, pad_loop, base64_encode}

-- RFC 4648 text: three octets give four characters, and a rest of one or two octets gives two or
-- three characters and `=` up to four.
unfoldable pub encoded : Bytes → Bytes
encoded [] = []
encoded (a ∷ []) = b64_table (a / 4) ∷ b64_table (a % 4 * 16) ∷ b'=' ∷ b'=' ∷ []
encoded (a ∷ b ∷ []) =
    b64_table (a / 4) ∷ b64_table (a % 4 * 16 + b / 16) ∷ b64_table (b % 16 * 4) ∷ b'=' ∷ []
encoded (a ∷ b ∷ c ∷ src) =
    b64_table (a / 4)
    ∷ b64_table (a % 4 * 16 + b / 16)
    ∷ b64_table (b % 16 * 4 + c / 64)
    ∷ b64_table (c % 64)
    ∷ encoded src

abbrev pub AllBytes : Bytes → Type 0
AllBytes [] = Unit
AllBytes (b ∷ bs) = (b < 256) × AllBytes bs

-- The four characters of three octets, by octets.
abbrev characters : ℕ → ℕ → ℕ → Bytes
characters a b c =
    b64_table (a / 4)
    ∷ b64_table (a % 4 * 16 + b / 16)
    ∷ b64_table (b % 16 * 4 + c / 64)
    ∷ b64_table (c % 64)
    ∷ []

encode_group_lem : (a b c : ℕ) → a < 256 → b < 256 → c < 256 → encode_group a b c ≡ characters a b c
unfolding encode_group
encode_group_lem a b c ha hb hc =
    let t = (a * 2 ^ 16 + b * 2 ^ 8 + c) % 2 ^ 32 in
    let p : t / 2 ^ 18 % 64 ≡ a / 4 = omega arith in
    let q : t / 2 ^ 12 % 64 ≡ a % 4 * 16 + b / 16 = omega arith in
    let r : t / 2 ^ 6 % 64 ≡ b % 16 * 4 + c / 64 = omega arith in
    let s : t % 64 ≡ c % 64 = omega arith in rw (p, q, r, s)

-- The text before the padding is written.
unpadded : Bytes → Bytes
unpadded [] = []
unpadded (a ∷ []) = characters a 0 0
unpadded (a ∷ b ∷ []) = characters a b 0
unpadded (a ∷ b ∷ c ∷ src) = characters a b c ++ unpadded src

encode_groups-unpadded : (src : Bytes) → AllBytes src → encode_groups src ≡ unpadded src
unfolding encode_groups unpadded
encode_groups-unpadded [] h = refl
encode_groups-unpadded (a ∷ []) h = encode_group_lem a 0 0 h.0 (omega arith) (omega arith)
encode_groups-unpadded (a ∷ b ∷ []) h = encode_group_lem a b 0 h.0 h.1.0 (omega arith)
encode_groups-unpadded (a ∷ b ∷ c ∷ src) (ha, (hb, (hc, hs))) =
    ap₂ ◌++◌ (encode_group_lem a b c ha hb hc) (encode_groups-unpadded src hs)

length-encode_groups : (src : Bytes) → length (encode_groups src) ≡ 4 * ((length src + 2) / 3)
unfolding encode_groups
length-encode_groups [] = omega arith
length-encode_groups (a ∷ []) = omega arith
length-encode_groups (a ∷ b ∷ []) = omega arith
length-encode_groups (a ∷ b ∷ c ∷ src) = omega (arith, length-encode_groups src)

-- Writes near the end of the text leave its first group alone.
pad_loop-group :
    (n pad out_len : ℕ) (w x y z : ℕ) (out : Bytes)
    → pad + n ≤ out_len
    → pad_loop n pad (out_len + 4) (w ∷ x ∷ y ∷ z ∷ out)
      ≡ w ∷ x ∷ y ∷ z ∷ pad_loop n pad out_len out
unfolding pad_loop
pad_loop-group zero pad out_len w x y z out h = refl
pad_loop-group (suc n) pad out_len w x y z out h =
    let e : out_len + 4 - 1 - pad ≡ suc (suc (suc (suc (out_len - 1 - pad)))) = omega arith in
    rw e
      (pad_loop-group n (pad + 1) out_len w x y z (set out (out_len - 1 - pad) b'=') (omega arith))

abbrev pub text_length : Bytes → ℕ
text_length src = 4 * ((length src + 2) / 3)

abbrev pad_count : Bytes → ℕ
pad_count src = (3 - length src % 3) % 3

padded-encoded :
    (src : Bytes) → pad_loop (pad_count src) 0 (text_length src) (unpadded src) ≡ encoded src
unfolding encoded unpadded
padded-encoded [] = unfold pad_loop in refl
padded-encoded (a ∷ []) =
    let e : a % 4 * 16 + 0 / 16 ≡ a % 4 * 16 = omega arith in unfold pad_loop in rw e
padded-encoded (a ∷ b ∷ []) =
    let e : b % 16 * 4 + 0 / 64 ≡ b % 16 * 4 = omega arith in unfold pad_loop in rw e
padded-encoded (a ∷ b ∷ c ∷ src) =
    let n : pad_count (a ∷ b ∷ c ∷ src) ≡ pad_count src = omega arith in
    let l : text_length (a ∷ b ∷ c ∷ src) ≡ text_length src + 4 = omega arith in
    rw (n, l)
      (rw (pad_loop-group (pad_count src) 0 (text_length src) _ _ _ _ (unpadded src) (omega arith))
        (rw (padded-encoded src)))

-- The encoder writes the RFC 4648 text of the octets, padding included, if there is room for it
-- and its NUL, and fails otherwise.
pub base64_encode-encoded :
    (src : Bytes) (out_max : ℕ)
    → AllBytes src
    → base64_encode src out_max
      ≡ (if ltb out_max (text_length src + 1) then none else some (encoded src))
unfolding base64_encode
base64_encode-encoded src out_max h =
    let e = ap (pad_loop (pad_count src) 0 (text_length src)) (encode_groups-unpadded src h) in
    ap (λ text. if ltb out_max (text_length src + 1) then none else some text)
      (e ∙ padded-encoded src)

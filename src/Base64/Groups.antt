-- ===== src/Base64/Groups.antt =====
-- The decoder of lib/base64.c takes back the characters of each group of octets.
use mathlib.Core.List.{append-nil, append_assoc}
use ws_pipeline_dispatcher.Prelude.{
  ℕ, zero, suc, ◌+◌, ◌*◌, ◌/◌, ◌%◌, ◌^◌, ◌≤◌, ◌<◌, Bool, true, false, ◌&&◌, [], ◌∷◌, ◌++◌, ◌≡◌,
  refl, ap, ◌∙◌, not, false_of_not, Option, none, some, arith, ◌==◌, length, length-append, Bytes,
}
use ws_pipeline_dispatcher.Base64.{b64_table, sextet, put_byte, decode_group, decode_groups}
use ws_pipeline_dispatcher.Base64.Spec.{encoded, AllBytes, text_length}

-- The test passes for every number below `count`.
holds_to : (ℕ → Bool) → ℕ → Bool
holds_to test zero = true
holds_to test (suc count) = holds_to test count && test count

holds_to_lem :
    (test : ℕ → Bool) (count i : ℕ) → i < count → holds_to test count ≡ true → test i ≡ true
unfolding holds_to
holds_to_lem test zero i l h = absurd (omega arith)
holds_to_lem test (suc count) i l h = ground (arith, holds_to_lem test count i)

is_some_of : Option ℕ → ℕ → Bool
is_some_of none x = false
is_some_of (some y) x = y == x

is_some_of_lem : (o : Option ℕ) (x : ℕ) → is_some_of o x ≡ true → o ≡ some x
unfolding is_some_of
is_some_of_lem o x h = ground arith

table_checked : holds_to (λ x. is_some_of (sextet (b64_table x)) x) 64 ≡ true
unfolding holds_to sextet b64_table is_some_of
table_checked = refl

-- Every table entry is read back, and none of them is the padding.
pub sextet-table : (x : ℕ) → x < 64 → sextet (b64_table x) ≡ some x
sextet-table x h =
    is_some_of_lem (sextet (b64_table x)) x
      (holds_to_lem (λ y. is_some_of (sextet (b64_table y)) y) 64 x h table_checked)

unpadded_checked : holds_to (λ x. not (b64_table x == b'=')) 64 ≡ true
unfolding holds_to b64_table
unpadded_checked = refl

pub table-ne-pad : (x : ℕ) → x < 64 → (b64_table x == b'=') ≡ false
table-ne-pad x h =
    false_of_not _ (holds_to_lem (λ y. not (b64_table y == b'=')) 64 x h unpadded_checked)

-- The length of an encoded text and its last two characters give back the number of octets.
pub length-encoded : (src : Bytes) → length (encoded src) ≡ text_length src
unfolding encoded
length-encoded [] = omega arith
length-encoded (a ∷ []) = omega arith
length-encoded (a ∷ b ∷ []) = omega arith
length-encoded (a ∷ b ∷ c ∷ src) = omega (arith, length-encoded src)

decode_group_lem :
    (ol a b c : ℕ) (out : Bytes)
    → a < 256
    → b < 256
    → c < 256
    → decode_group ol (a / 4) (a % 4 * 16 + b / 16) (b % 16 * 4 + c / 64) (c % 64) out
      ≡ put_byte ol c (put_byte ol b (put_byte ol a out))
unfolding decode_group
decode_group_lem ol a b c out ha hb hc =
    let t =
      (a / 4 * 2 ^ 18 + (a % 4 * 16 + b / 16) * 2 ^ 12 + (b % 16 * 4 + c / 64) * 2 ^ 6 + c % 64)
      % 2 ^ 32 in
    let p : t / 2 ^ 16 % 256 ≡ a = omega arith in
    let q : t / 2 ^ 8 % 256 ≡ b = omega arith in let r : t % 256 ≡ c = omega arith in rw (p, q, r)

decode_step :
    (ol : ℕ) (w x y z a b c d : ℕ) (src out : Bytes)
    → sextet w ≡ some a
    → sextet x ≡ some b
    → sextet y ≡ some c
    → sextet z ≡ some d
    → decode_groups ol (w ∷ x ∷ y ∷ z ∷ src) out
      ≡ decode_groups ol src (decode_group ol a b c d out)
unfolding decode_groups
decode_step ol w x y z a b c d src out p q r s = rw (p, q, r, s)

sextet_pad : sextet b'=' ≡ some 0
unfolding sextet
sextet_pad = refl

put_room : (ol b : ℕ) (out : Bytes) → length out < ol → put_byte ol b out ≡ out ++ b ∷ []
unfolding put_byte
put_room ol b out h = ground arith

put_full : (ol b : ℕ) (out : Bytes) → length out ≡ ol → put_byte ol b out ≡ out
unfolding put_byte
put_full ol b out h = ground arith

pub length-concat : (out : Bytes) (b : ℕ) → length (out ++ b ∷ []) ≡ length out + 1
length-concat out b = omega (arith, length-append out (b ∷ []))

put_three :
    (ol a b c : ℕ) (out : Bytes)
    → length out + 3 ≤ ol
    → put_byte ol c (put_byte ol b (put_byte ol a out)) ≡ out ++ a ∷ b ∷ c ∷ []
put_three ol a b c out h = rw (put_room ol a out (omega arith)) (
    rw (put_room ol b (out ++ a ∷ []) (omega (arith, length-concat out a))) (
      rw
        (put_room ol c ((out ++ a ∷ []) ++ b ∷ [])
          (omega (arith, length-concat out a, length-concat (out ++ a ∷ []) b)))
        (simp append_assoc)))

-- A padded last group gives one octet, or two.
decode_one :
    (ol a : ℕ) (out : Bytes)
    → a < 256
    → length out + 1 ≡ ol
    → decode_group ol (a / 4) (a % 4 * 16) 0 0 out ≡ out ++ a ∷ []
decode_one ol a out ha h =
    let three = decode_group_lem ol a 0 0 out ha (omega arith) (omega arith) in
    let e : a % 4 * 16 + 0 / 16 ≡ a % 4 * 16 = omega arith in
    let full : length (out ++ a ∷ []) ≡ ol = omega (arith, length-concat out a) in
    (rw e at three)
    ∙ rw (put_room ol a out (omega arith))
        (rw (put_full ol 0 (out ++ a ∷ []) full) (put_full ol 0 (out ++ a ∷ []) full))

decode_two :
    (ol a b : ℕ) (out : Bytes)
    → a < 256
    → b < 256
    → length out + 2 ≡ ol
    → decode_group ol (a / 4) (a % 4 * 16 + b / 16) (b % 16 * 4) 0 out ≡ out ++ a ∷ b ∷ []
decode_two ol a b out ha hb h =
    let three = decode_group_lem ol a b 0 out ha hb (omega arith) in
    let e : b % 16 * 4 + 0 / 64 ≡ b % 16 * 4 = omega arith in
    let one = length-concat out a in
    let two = length-concat (out ++ a ∷ []) b in
    (rw e at three)
    ∙ rw (put_room ol a out (omega arith)) (
        rw (put_room ol b (out ++ a ∷ []) (omega arith))
          (rw (put_full ol 0 ((out ++ a ∷ []) ++ b ∷ []) (omega arith)) (rw append_assoc)))

pub decode_groups-encoded :
    (ol : ℕ) (src out : Bytes)
    → AllBytes src
    → length out + length src ≡ ol
    → decode_groups ol (encoded src) out ≡ some (out ++ src)
unfolding encoded
decode_groups-encoded ol [] out h e = unfold decode_groups in rw append-nil
decode_groups-encoded ol (a ∷ []) out (ha, _) e =
    decode_step ol _ _ _ _ _ _ _ _ [] out (sextet-table (a / 4) (omega arith))
      (sextet-table (a % 4 * 16) (omega arith)) sextet_pad sextet_pad
    ∙ (unfold decode_groups in ap some (decode_one ol a out ha (omega arith)))
decode_groups-encoded ol (a ∷ b ∷ []) out (ha, (hb, _)) e =
    decode_step ol _ _ _ _ _ _ _ _ [] out (sextet-table (a / 4) (omega arith))
      (sextet-table (a % 4 * 16 + b / 16) (omega arith)) (sextet-table (b % 16 * 4) (omega arith))
      sextet_pad
    ∙ (unfold decode_groups in ap some (decode_two ol a b out ha hb (omega arith)))
decode_groups-encoded ol (a ∷ b ∷ c ∷ src) out (ha, (hb, (hc, hs))) e =
    let room : length out + 3 ≤ ol = omega arith in
    decode_step ol _ _ _ _ _ _ _ _ (encoded src) out (sextet-table (a / 4) (omega arith))
      (sextet-table (a % 4 * 16 + b / 16) (omega arith))
      (sextet-table (b % 16 * 4 + c / 64) (omega arith)) (sextet-table (c % 64) (omega arith))
    ∙ ap (decode_groups ol (encoded src))
        (decode_group_lem ol a b c out ha hb hc ∙ put_three ol a b c out room)
    ∙ decode_groups-encoded ol src (out ++ a ∷ b ∷ c ∷ []) hs
        (omega (arith, length-append out (a ∷ b ∷ c ∷ [])))
    ∙ rw append_assoc

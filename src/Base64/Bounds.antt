-- ===== src/Base64/Bounds.antt =====
-- The decoder of lib/base64.c stays in its buffer.
use Prim.Native.Nat.{min}
use ws_pipeline_dispatcher.Prelude.{
  bind-eq-some, ◌>>=◌, ℕ, ◌+◌, ◌*◌, ◌/◌, ◌%◌, ◌^◌, ◌≤◌, ◌<◌, Bool, false, [], ◌∷◌, ◌≡◌, ◌≢◌, not,
  Option, none, some, arith, ltb, ◌==◌, if◌then◌else◌, length, Bytes,
}
use ws_pipeline_dispatcher.Base64.{
  sextet, put_byte, decode_group, decode_groups, decoded_length, base64_decode,
}
use ws_pipeline_dispatcher.Base64.Groups.{length-concat}

put_byte-length :
    (ol b : ℕ) (out : Bytes)
    → length out ≤ ol
    → length (put_byte ol b out) ≡ min ol (length out + 1)
unfolding put_byte
put_byte-length ol b out h = ground (arith, length-concat out b)

decode_group-length :
    (ol a b c d : ℕ) (out : Bytes)
    → length out ≤ ol
    → length (decode_group ol a b c d out) ≡ min ol (length out + 3)
unfolding decode_group
decode_group-length ol a b c d out h =
    let t = (a * 2 ^ 18 + b * 2 ^ 12 + c * 2 ^ 6 + d) % 2 ^ 32 in
    let first = put_byte ol (t / 2 ^ 16 % 256) out in
    let second = put_byte ol (t / 2 ^ 8 % 256) first in
    let p = put_byte-length ol (t / 2 ^ 16 % 256) out h in
    let q = put_byte-length ol (t / 2 ^ 8 % 256) first (omega arith) in
    let r = put_byte-length ol (t % 256) second (omega arith) in omega arith

decode_groups-length :
    (ol : ℕ) (src out : Bytes) {result : Bytes}
    → length out ≤ ol
    → decode_groups ol src out ≡ some result
    → length result ≡ min ol (length out + length src / 4 * 3)
unfolding decode_groups
decode_groups-length ol [] out h e = ground arith
decode_groups-length ol (w ∷ []) out h e = cc
decode_groups-length ol (w ∷ x ∷ []) out h e = cc
decode_groups-length ol (w ∷ x ∷ y ∷ []) out h e = cc
decode_groups-length ol (w ∷ x ∷ y ∷ z ∷ src) out h e =
    let (a, _, e) = bind-eq-some (sextet w) _ e in
    let (b, _, e) = bind-eq-some (sextet x) _ e in
    let (c, _, e) = bind-eq-some (sextet y) _ e in
    let (d, _, e) = bind-eq-some (sextet z) _ e in
    let l = decode_group-length ol a b c d out h in
    omega (arith, decode_groups-length ol src (decode_group ol a b c d out) (omega arith) e)

decoded_length_le :
    (front : ℕ) (text : Bytes)
    → 4 ≤ length text
    → length text < 2 ^ 63
    → decoded_length front text ≤ length text / 4 * 3
unfolding decoded_length
decoded_length_le front text h big = ground arith

guard_eq_some :
    {A : Type 0} (b : Bool) (o : Option A) {a : A}
    → (if b then none else o) ≡ some a
    → (b ≡ false) × (o ≡ some a)
guard_eq_some b o h = ground arith

-- A successful decoding of a non-empty text shorter than 2^63 has written as many bytes as it
-- reports, and no more than there is room for.
pub decode_writes :
    (front : ℕ) (text : Bytes) (out_max : ℕ) {out : Bytes} {n : ℕ}
    → text ≢ []
    → length text < 2 ^ 63
    → base64_decode front text out_max ≡ some (out, n)
    → (length out ≡ n) × (n ≤ out_max)
unfolding base64_decode
decode_writes front text out_max filled big h =
    let ol = decoded_length front text in
    let answer : Bytes → Option (Bytes × ℕ) = λ out. some (out, ol) in
    let call = decode_groups ol text [] >>= answer in
    let (multiple, rest) =
      guard_eq_some (not (length text % 4 == 0)) (if ltb out_max ol then none else call) h in
    let (room, run) = guard_eq_some (ltb out_max ol) call rest in
    let (result, e, written) = bind-eq-some (decode_groups ol text []) answer run in
    let long = decode_groups-length ol text [] (omega arith) e in
    let le = decoded_length_le front text (ground arith) big in ground arith

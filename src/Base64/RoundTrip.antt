-- ===== src/Base64/RoundTrip.antt =====
-- Decoding takes back what encoding wrote.
use ws_pipeline_dispatcher.Prelude.{
  ℕ, suc, ◌+◌, ◌-◌, ◌*◌, ◌/◌, ◌%◌, ◌^◌, ◌≤◌, ◌<◌, [], ◌∷◌, ◌≡◌, ◌≢◌, refl, ◌∙◌, some, arith, length,
  Bytes,
}
use ws_pipeline_dispatcher.Base64.{
  b64_table, from_end, decoded_length, base64_encode, base64_decode,
}
use ws_pipeline_dispatcher.Base64.Spec.{encoded, AllBytes, text_length, base64_encode-encoded}
use ws_pipeline_dispatcher.Base64.Groups.{table-ne-pad, decode_groups-encoded, length-encoded}

-- Two characters from the end on, the text of a longer source is that of its rest.
from_end-skip :
    (front w x y z k : ℕ) (rest : Bytes)
    → k < length rest
    → from_end front (w ∷ x ∷ y ∷ z ∷ rest) k ≡ from_end z rest k
unfolding from_end
from_end-skip front w x y z k rest h =
    let e : suc (suc (suc (suc (length rest)))) - k ≡ suc (suc (suc (suc (length rest - k)))) =
      omega arith in
    rw e

decoded_length-skip :
    (front w x y z : ℕ) (rest : Bytes)
    → 4 ≤ length rest
    → length rest < 2 ^ 63
    → decoded_length front (w ∷ x ∷ y ∷ z ∷ rest) ≡ 3 + decoded_length z rest
unfolding decoded_length
decoded_length-skip front w x y z rest h big =
    ground (arith, from_end-skip front w x y z 0 rest, from_end-skip front w x y z 1 rest)

decoded_length-encoded :
    (front : ℕ) (src : Bytes)
    → AllBytes src
    → src ≢ []
    → length src < 2 ^ 62
    → decoded_length front (encoded src) ≡ length src
unfolding encoded
decoded_length-encoded front [] h n big = absurd (n refl)
decoded_length-encoded front (a ∷ []) h n big = unfold decoded_length in ground arith
decoded_length-encoded front (a ∷ b ∷ []) h n big =
    unfold decoded_length in ground (arith, table-ne-pad (b % 16 * 4))
decoded_length-encoded front (a ∷ b ∷ c ∷ []) h n big =
    unfold decoded_length in
    ground (arith, table-ne-pad (c % 64), table-ne-pad (b % 16 * 4 + c / 64))
decoded_length-encoded front (a ∷ b ∷ c ∷ d ∷ src) (ha, (hb, (hc, hs))) n big =
    let tail = length-encoded (d ∷ src) in
    decoded_length-skip front _ _ _ _ (encoded (d ∷ src)) (omega arith) (omega arith)
    ∙ omega (arith, decoded_length-encoded (b64_table (c % 64)) (d ∷ src) hs (cc) (omega arith))

pub decode-encoded :
    (src : Bytes) (front out_max : ℕ)
    → AllBytes src
    → src ≢ []
    → length src < 2 ^ 62
    → length src ≤ out_max
    → base64_decode front (encoded src) out_max ≡ some (src, length src)
unfolding base64_decode
decode-encoded src front out_max h n big fits =
    let l = length-encoded src in
    let d = decoded_length-encoded front src h n big in
    let run = decode_groups-encoded (length src) src [] h (omega arith) in ground (arith, l, d, run)

-- A non-empty octet string shorter than 2^62 that is encoded into a buffer with room for it
-- decodes to itself with its own length, into any buffer that can hold it.
pub decode-encode :
    (src : Bytes) (front out_max room : ℕ)
    → AllBytes src
    → src ≢ []
    → length src < 2 ^ 62
    → length src ≤ out_max
    → text_length src < room
    → (text : Bytes) × (base64_encode src room ≡ some text)
      × (base64_decode front text out_max ≡ some (src, length src))
decode-encode src front out_max room h n big fits space = (
  encoded src,
  base64_encode-encoded src room h ∙ ground arith,
  decode-encoded src front out_max h n big fits,
)

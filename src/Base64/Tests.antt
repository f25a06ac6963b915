-- ===== src/Base64/Tests.antt =====
-- Runs of the coder of lib/base64.c.
use ws_pipeline_dispatcher.Prelude.{◌≤◌, ◌≡◌, refl, arith, some, length, Bytes, codes}
use ws_pipeline_dispatcher.Base64.{
  base64_encode, base64_decode, encode_groups, encode_group, b64_table, pad_loop, decode_groups,
  decode_group, decoded_length, from_end, sextet, b64_index, put_byte,
}
use ws_pipeline_dispatcher.Base64.RoundTrip.{decode-encode}
use ws_pipeline_dispatcher.Base64.Bounds.{decode_writes}

encodes_hello : base64_encode (codes "hello") 9 ≡ some (codes "aGVsbG8=")
unfolding base64_encode encode_groups encode_group b64_table pad_loop
encodes_hello = refl

decodes_hello : base64_decode 0 (codes "aGVsbG8=") 5 ≡ some (codes "hello", 5)
unfolding base64_decode decode_groups decode_group decoded_length from_end sextet b64_index put_byte
decodes_hello = refl

decode-encode_example :
    (text : Bytes) × (base64_encode (codes "hi") 5 ≡ some text)
    × (base64_decode b':' text 2 ≡ some (codes "hi", length (codes "hi")))
decode-encode_example =
    decode-encode (codes "hi") b':' 2 5 (omega arith) (cc) (omega arith) (omega arith) (omega arith)

decodes_with_room : base64_decode 0 (codes "aGVsbG8=") 7 ≡ some (codes "hello", 5)
unfolding base64_decode decode_groups decode_group decoded_length from_end sextet b64_index put_byte
decodes_with_room = refl

decode_writes_example : (length (codes "hello") ≡ 5) × (5 ≤ 7)
decode_writes_example = decode_writes 0 (codes "aGVsbG8=") 7 (cc) (omega arith) decodes_with_room

-- ===== src/ClipStore/Format/Packed.antt =====
-- The value field: what `append_db_row` compresses is what `parse_db_row` gets back.
use native.Mathlib.Nat.{two-pow-succ}
use ws_pipeline_dispatcher.Prelude.{
  ℕ, zero, suc, ◌+◌, ◌*◌, ◌^◌, ◌≤◌, ◌<◌, true, false, [], ◌∷◌, ◌≡◌, ◌≢◌, refl, ap, inl, inr, some,
  arith, ◌==◌, leb, ltb, Bool-cases, length, Bytes,
}
use ws_pipeline_dispatcher.Base64.{base64_encode}
use ws_pipeline_dispatcher.Base64.Spec.{encoded, AllBytes, text_length, base64_encode-encoded}
use ws_pipeline_dispatcher.Base64.RoundTrip.{decode-encoded}
use ws_pipeline_dispatcher.Base64.Groups.{length-encoded}
use ws_pipeline_dispatcher.ClipStore.Format.Text.{IsField, above_controls, encoded-IsField}
use ws_pipeline_dispatcher.ClipStore.Format.{
  Zlib, z_ok, z_buf_error, System, c_string, inflate, unpack, value_field, stored_value,
  packed_text, after_uncompress,
}

-- A C string of octets, below the sizes where a `size_t` wraps round.
abbrev pub IsText : Bytes → Type 0
IsText [] = Unit
IsText (c ∷ s) = (c ≢ 0) × (c < 256) × IsText s

pub record IsValue (value : Bytes) : Type 0 where
  pub text : IsText value
  pub short : length value < 2 ^ 60

-- What miniz is used for: a buffer of `compressBound` bytes is enough for a value, the compressed
-- form is never empty and gives the value back in a buffer that holds it, and a buffer that is too
-- small is answered with `Z_BUF_ERROR`.
pub record IsZlib (zlib : Zlib) : Type 0 where
  pub packed : Bytes → Bytes
  pub compresses :
      (value : Bytes)
      → IsValue value
      → zlib.compress (zlib.compress_bound (length value)) value ≡ some (packed value)
  pub octets : (value : Bytes) → IsValue value → AllBytes (packed value)
  pub filled : (value : Bytes) → IsValue value → packed value ≢ []
  pub short : (value : Bytes) → IsValue value → length (packed value) < 2 ^ 61
  pub restores :
      (value : Bytes) (size : ℕ)
      → IsValue value
      → length value ≤ size
      → zlib.uncompress size (packed value) ≡ z_ok value
  pub too_small :
      (value : Bytes) (size : ℕ)
      → IsValue value
      → size < length value
      → zlib.uncompress size (packed value) ≡ z_buf_error

-- The C library grants every request for memory, `fseek` and `fprintf`.
pub record IsReady (sys : System) : Type 0 where
  pub memory : (n : ℕ) → sys.grants n ≡ true
  pub seeking : sys.seeks ≡ true
  pub printing : sys.prints ≡ true

c_string-text : (s : Bytes) → IsText s → c_string s ≡ s
unfolding c_string
c_string-text [] h = refl
c_string-text (c ∷ s) (n, _, h) =
    let other : (c == 0) ≡ false = ground arith in rw (other, c_string-text s h) refl

module _ {zlib : Zlib} (z : IsZlib zlib) where
  -- The field that stands for a value.
  pub field_of : Bytes → Bytes
  field_of [] = []
  field_of (c ∷ cs) = b'Z' ∷ b':' ∷ encoded (z.packed (c ∷ cs))

  pub field_of-IsField : (value : Bytes) → IsValue value → IsField (field_of value)
  unfolding field_of
  field_of-IsField [] h = tt
  field_of-IsField (c ∷ cs) h =
      let rest = encoded-IsField (z.packed (c ∷ cs)) (z.octets (c ∷ cs) h) in
      (above_controls b'Z' (omega arith), (above_controls b':' (omega arith), rest))

  -- The rounds of the loop are enough.
  inflate_lem :
      (sys : System) (rounds size : ℕ) (value : Bytes)
      → IsReady sys
      → IsValue value
      → length value ≤ size * 2 ^ rounds
      → inflate zlib sys (suc rounds) size (z.packed value) ≡ some value
  unfolding inflate after_uncompress
  inflate_lem sys zero size value ready v h = rw (z.restores value size v (omega arith)) refl
  inflate_lem sys (suc rounds) size value ready v h = elim (Bool-cases (leb (length value) size)) [
    | inl le ↦ rw (z.restores value size v (ground arith)) refl
    | inr gt ↦
        let twice : size * 2 ^ suc rounds ≡ size * 2 * 2 ^ rounds =
          grind (arith, two-pow-succ rounds) in
        rw (z.too_small value size v (ground arith), ready.memory (size * 2))
          (inflate_lem sys rounds (size * 2) value ready v (omega arith))
  ]

  pub unpack-field :
      (sys : System) (value : Bytes)
      → IsReady sys
      → IsValue value
      → unpack zlib sys (encoded (z.packed value)) ≡ some value
  unfolding unpack
  unpack-field sys value ready v =
      let p = z.packed value in
      let octets = z.octets value v in
      let short = z.short value v in
      let len = length-encoded p in
      let run =
        decode-encoded p b':' (length (encoded p) + 1) octets (z.filled value v) (omega arith)
          (omega arith) in
      let size = length p * 4 + 1024 in
      let enough : length value ≤ size * 2 ^ 63 = omega (arith, v.short) in
      rw (ready.memory (length (encoded p) + 1), run)
        (rw (ready.memory size, inflate_lem sys 63 size value ready v enough)
          (ap some (c_string-text value v.text)))

  -- The value field of a value, which is its compressed and encoded form or empty, reads back as
  -- the value, given memory and a miniz that restores what it compressed.
  pub stored_value-field :
      (sys : System) (value : Bytes)
      → IsReady sys
      → IsValue value
      → stored_value zlib sys (field_of value) ≡ some value
  unfolding stored_value field_of packed_text
  stored_value-field sys [] ready v = refl
  stored_value-field sys (c ∷ cs) ready v = unpack-field sys (c ∷ cs) ready v

  encode_fits :
      (value : Bytes)
      → IsValue value
      → base64_encode (z.packed value) (text_length (z.packed value) + 1)
        ≡ some (encoded (z.packed value))
  encode_fits value v =
      let p = z.packed value in
      let room : ltb (text_length p + 1) (text_length p + 1) ≡ false = ground arith in
      rw room at (base64_encode-encoded p (text_length p + 1) (z.octets value v))

  -- The field that is printed for a value, unless memory runs out.
  pub value_field_lem :
      (sys : System) (value : Bytes) {field : Bytes}
      → IsValue value
      → value_field zlib sys value ≡ some field
      → field ≡ field_of value
  unfolding value_field field_of
  value_field_lem sys [] v h = cc
  value_field_lem sys (c ∷ cs) v h =
      let value = c ∷ cs in
      let p = z.packed value in
      let run = encode_fits value v in
      let packs = z.compresses value v in
      let bound = zlib.compress_bound (length value) in
      elim (Bool-cases (sys.grants bound)) [
        | inr denied ↦ let h' = rw denied at h in cc
        | inl granted ↦
            let h' = rw (granted, packs) at h in
            elim (Bool-cases (sys.grants (text_length p + 1 + 3))) [
              | inr denied ↦ let h2 = rw denied at h' in cc
              | inl granted' ↦ let h2 = rw (granted', run) at h' in cc
            ]
      ]

  -- With memory the field is printed.
  pub value_field-total :
      (sys : System) (value : Bytes)
      → IsReady sys
      → IsValue value
      → value_field zlib sys value ≡ some (field_of value)
  unfolding value_field field_of
  value_field-total sys [] ready v = refl
  value_field-total sys (c ∷ cs) ready v =
      let value = c ∷ cs in
      let p = z.packed value in
      rw (ready.memory (zlib.compress_bound (length value)), z.compresses value v)
        (rw (ready.memory (text_length p + 1 + 3), encode_fits value v) refl)

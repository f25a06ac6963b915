-- ===== src/Json/Getters.antt =====
-- lib/jsonl_codec.c: what each getter returns of a line.
use ws_pipeline_dispatcher.Prelude.{
  ℕ, ◌<◌, Bool, true, false, ◌++◌, ◌≡◌, refl, ap, ◌∙◌, ◌↔◌, inl, inr, Option, none, some, arith,
  ◌==◌, if◌then◌else◌, Bool-cases, Option-cases, ◌>>=◌, bind-eq-some, length, Bytes,
}
use ws_pipeline_dispatcher.Prelude.Int.{ℤ, pos}
use ws_pipeline_dispatcher.DynamicBuffer.{is_done, DynamicBuffer, Status, is_done, Heap}
use ws_pipeline_dispatcher.DynamicBuffer.Reserve.{content, IsBuffer}
use ws_pipeline_dispatcher.DynamicBuffer.Append.{Appends, added, failing, append_str-Appends}
use ws_pipeline_dispatcher.DynamicBuffer.Chain.{not_done, Writes, written, broken}
use ws_pipeline_dispatcher.Json.{
  Value, null, boolean, number, string, array, object, Cjson, copy_out, get_item, get_string,
  get_int64, get_uint64, get_scalar_text, string_of, scalar_of, int64_of, uint64_of, write_string,
  append_printed, json_string,
}
use ws_pipeline_dispatcher.Json.Numbers.{SafeInteger, int64_of_lem, uint64_of_lem}

bind_iff {ℓ κ} :
    {A : Type ℓ} {B : Type κ} (m : Option A) (f : A → Option B) (b : B)
    → ((m >>= f) ≡ some b) ↔ ((a : A) × (m ≡ some a) × (f a ≡ some b))
bind_iff m f b = (λ e. bind-eq-some m f e, λ h. let (a, e, k) = h in ap (λ o. o >>= f) e ∙ k)

module _ (lib : Cjson) where
  abbrev IsAtom : Value → Type 0
  IsAtom null = Unit
  IsAtom (boolean b) = Unit
  IsAtom (number x) = Unit
  IsAtom (string s) = ⊥
  IsAtom (array vs) = ⊥
  IsAtom (object fs) = ⊥

  -- The text of a scalar: a string as it is, and any other scalar as cJSON prints it.
  pub data Spells : Value → Bytes → Type 0 where
    as_is : (s : Bytes) → Spells (string (some s)) s
    printed : (v : Value) (s : Bytes) → IsAtom v → lib.print_unformatted v ≡ some s → Spells v s

module _ (lib : Cjson) (line key : Bytes) where
  -- The item of the line's object under the key is the integer, exactly, and it is within
  -- 2^53 - 1 of 0.
  abbrev pub HasInteger : ℤ → Type 0
  HasInteger z = (item : Value) × (get_item lib line key ≡ some item) × SafeInteger item z

  -- The signed getter returns a number exactly if it is the value of the item and within 2^53 -
  -- 1 of 0, and the unsigned getter exactly the numbers of these that are not negative.
  pub get_integers_lem :
      ((z : ℤ) → (get_int64 lib line key ≡ some z) ↔ HasInteger z)
      × ((n : ℕ) → (get_uint64 lib line key ≡ some n) ↔ HasInteger (pos n))
  unfolding get_int64 get_uint64
  get_integers_lem = (
    λ z.
        let (there, back) = bind_iff (get_item lib line key) int64_of z in
        (
          λ e. let (item, found, k) = there e in (item, found, (int64_of_lem item z).0 k),
          λ h. let (item, found, k) = h in back (item, found, (int64_of_lem item z).1 k),
        ),
    λ n.
        let (there, back) = bind_iff (get_item lib line key) uint64_of n in
        (
          λ e. let (item, found, k) = there e in (item, found, (uint64_of_lem item n).0 k),
          λ h. let (item, found, k) = h in back (item, found, (uint64_of_lem item n).1 k),
        ),
  )

  copy_out_iff :
      (size : ℕ) (s t : Bytes) → (copy_out size s ≡ some t) ↔ ((s ≡ t) × (length t < size))
  unfolding copy_out
  copy_out_iff size s t = ground arith

  -- What the two text getters have in common.
  text_iff :
      (size : ℕ) (f : Value → Option Bytes) (s : Bytes)
      → ((if size == 0 then none else get_item lib line key >>= λ item. f item >>= copy_out size)
          ≡ some s)
        ↔ (((item : Value) × (get_item lib line key ≡ some item) × (f item ≡ some s))
            × (length s < size))
  text_iff size f s =
      let (there, back) = bind_iff (get_item lib line key) (λ item. f item >>= copy_out size) s in
      elim (Bool-cases (size == 0)) [
        | inl e ↦ rw e (λ h. cc, λ h. absurd (ground arith))
        | inr e ↦ rw e (
          λ h.
              let (item, found, k) = there h in
              let (t, text, copied) = (bind_iff (f item) (copy_out size) s).0 k in
              let (same, small) = (copy_out_iff size t s).0 copied in
              ((item, found, text ∙ ap some same), small),
          λ h.
              let ((item, found, k), small) = h in
              back (
                item,
                found,
                (bind_iff (f item) (copy_out size) s).1
                    (s, k, (copy_out_iff size s s).1 (refl, small)),
              ),
        )
      ]

  string_of_iff : (v : Value) (s : Bytes) → (string_of v ≡ some s) ↔ (v ≡ string (some s))
  unfolding string_of
  string_of_iff (string t) s = (λ e. ap string e, λ e. cc)
  string_of_iff null s = (λ e. cc, λ e. cc)
  string_of_iff (boolean b) s = (λ e. cc, λ e. cc)
  string_of_iff (number x) s = (λ e. cc, λ e. cc)
  string_of_iff (array vs) s = (λ e. cc, λ e. cc)
  string_of_iff (object fs) s = (λ e. cc, λ e. cc)

  spelled : {v : Value} {s : Bytes} → Spells lib v s → scalar_of lib v ≡ some s
  unfolding scalar_of
  spelled (as_is s) = refl
  spelled (printed null s a e) = e
  spelled (printed (boolean b) s a e) = e
  spelled (printed (number x) s a e) = e
  spelled (printed (string t) s a e) = absurd a
  spelled (printed (array vs) s a e) = absurd a
  spelled (printed (object fs) s a e) = absurd a

  spells : (v : Value) (s : Bytes) → scalar_of lib v ≡ some s → Spells lib v s
  unfolding scalar_of
  spells (string none) s e = absurd (cc)
  spells (string (some t)) s e = let same : t ≡ s = cc in rw same (as_is s)
  spells null s e = printed null s tt e
  spells (boolean b) s e = printed (boolean b) s tt e
  spells (number x) s e = printed (number x) s tt e
  spells (array vs) s e = absurd (cc)
  spells (object fs) s e = absurd (cc)

  -- The text getters return a text exactly if it fits the buffer with its NUL and the item is
  -- that string or, for the scalar getter, another scalar that cJSON prints so.
  pub get_texts_lem :
      (size : ℕ) (s : Bytes)
      → ((get_string lib line key size ≡ some s)
          ↔ ((get_item lib line key ≡ some (string (some s))) × (length s < size)))
        × ((get_scalar_text lib line key size ≡ some s) ↔ (
            ((item : Value) × (get_item lib line key ≡ some item) × Spells lib item s)
            × (length s < size)))
  unfolding get_string get_scalar_text
  get_texts_lem size s =
      let (there, back) = text_iff size string_of s in
      let (there', back') = text_iff size (scalar_of lib) s in
      (
        (
          λ h.
              let ((item, found, k), small) = there h in
              (found ∙ ap some ((string_of_iff item s).0 k), small),
          λ h. back ((string (some s), h.0, (string_of_iff (string (some s)) s).1 refl), h.1),
        ),
        (
          λ h. let ((item, found, k), small) = there' h in ((item, found, spells item s k), small),
          λ h. let ((item, found, k), small) = h in back' ((item, found, spelled k), small),
        ),
      )

-- The JSON text of the string is behind the content, or the content is as before.
pub data WritesString (lib : Cjson) (buf : DynamicBuffer) (s : Bytes)
    : DynamicBuffer × Bool → Type 0 where
  wrote :
      (buf' : DynamicBuffer) (text : Bytes)
      → json_string lib s ≡ some text
      → IsBuffer buf'
      → content buf' ≡ content buf ++ text
      → buf'.failed ≡ false
      → WritesString lib buf s (buf', true)
  kept :
      (buf' : DynamicBuffer)
      → IsBuffer buf'
      → content buf' ≡ content buf
      → WritesString lib buf s (buf', false)

appended-WritesString :
    (lib : Cjson) (heap : Heap) (buf : DynamicBuffer) (s text : Bytes) (r : DynamicBuffer × Status)
    → json_string lib s ≡ some text
    → Appends heap buf text r
    → WritesString lib buf s (r.0, is_done r.1)
appended-WritesString lib heap buf s text r e (added buf' b c live) = wrote buf' text e b c live
appended-WritesString lib heap buf s text r e (failing buf' status n m b c f v) =
    rw (not_done status n) (kept buf' b c)

-- Writing a string to a valid buffer appends its JSON text or leaves the content as it is, and the
-- buffer is valid.
pub write_string-WritesString :
    (lib : Cjson) (heap : Heap) (buf : DynamicBuffer) (s : Bytes)
    → IsBuffer buf
    → WritesString lib buf s (write_string lib heap buf s)
unfolding write_string append_printed
write_string-WritesString lib heap buf s b = elim (Option-cases (json_string lib s)) [
  | inl e ↦ rw e (kept buf b refl)
  | inr h ↦
      let (text, e) = h in
      rw e (appended-WritesString lib heap buf s text _ e (append_str-Appends heap buf text b))
]

pub WritesString-Writes :
    (lib : Cjson) (buf : DynamicBuffer) (s : Bytes) (r : DynamicBuffer × Bool)
    → WritesString lib buf s r
    → Writes buf (json_string lib s) r
WritesString-Writes lib buf s r (wrote buf' text e b c live) = written buf' text e b c
WritesString-Writes lib buf s r (kept buf' b c) = broken buf' b

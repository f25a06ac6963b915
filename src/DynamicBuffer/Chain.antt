-- ===== src/DynamicBuffer/Chain.antt =====
-- Chains of appends to a buffer, each made if the one before it has returned 0.
use mathlib.Core.List.{append_assoc, append-nil}
use ws_pipeline_dispatcher.Prelude.{
  ℕ, Bool, true, false, [], ◌∷◌, ◌++◌, ◌≡◌, refl, sym, ap, ◌∙◌, inl, inr, Option, none, some,
  if◌then◌else◌, Bool-cases, ◌>>=◌, Bytes, ◌+◌, ◌≤◌, ◌<◌, zero, suc, length, length-append, take,
  arith,
}
use ws_pipeline_dispatcher.DynamicBuffer.{
  DynamicBuffer, Status, done, einval, eio, eoverflow, enomem, stuck, Heap, is_done, size_max,
  dynamic_buffer_append_char, dynamic_buffer_append_str,
}
use ws_pipeline_dispatcher.DynamicBuffer.Reserve.{content, IsBuffer, unallocated, allocated}
use ws_pipeline_dispatcher.DynamicBuffer.Append.{
  Appends, added, failing, append_char-Appends, append_str-Appends, failed_refuses, latch-IsBuffer,
}

abbrev pub put_char : Heap → DynamicBuffer → ℕ → DynamicBuffer × Bool
put_char heap buf c =
    let (buf', status) = dynamic_buffer_append_char heap buf c in (buf', is_done status)

-- A call that is made if the one before it has returned 0.
abbrev pub and_then : DynamicBuffer × Bool → DynamicBuffer × Bool → DynamicBuffer × Bool
and_then r next = if r.1 then next else r

abbrev pub put_str : Heap → DynamicBuffer → Bytes → DynamicBuffer × Bool
put_str heap buf s =
    let (buf', status) = dynamic_buffer_append_str heap buf (some s) in (buf', is_done status)

-- Two texts, if both are there.
abbrev pub joined : Option Bytes → Option Bytes → Option Bytes
joined o o' = o >>= λ text. o' >>= λ rest. some (text ++ rest)

-- With success the text is there and stands behind the content; the buffer is valid in any case.
pub data Writes (buf : DynamicBuffer) (o : Option Bytes) : DynamicBuffer × Bool → Type 0 where
  written :
      (buf' : DynamicBuffer) (text : Bytes)
      → o ≡ some text
      → IsBuffer buf'
      → content buf' ≡ content buf ++ text
      → Writes buf o (buf', true)
  broken : (buf' : DynamicBuffer) → IsBuffer buf' → Writes buf o (buf', false)

pub Writes-IsBuffer :
    (buf : DynamicBuffer) (o : Option Bytes) (r : DynamicBuffer × Bool)
    → Writes buf o r
    → IsBuffer r.0
Writes-IsBuffer buf o r (written buf' text e b c) = b
Writes-IsBuffer buf o r (broken buf' b) = b

pub not_done : (status : Status) → ¬ (status ≡ done) → is_done status ≡ false
not_done done n = absurd (n refl)
not_done einval n = refl
not_done eio n = refl
not_done eoverflow n = refl
not_done enomem n = refl
not_done stuck n = refl

pub and_then-Writes :
    (buf : DynamicBuffer) (o o' : Option Bytes) (r r' : DynamicBuffer × Bool)
    → Writes buf o r
    → Writes r.0 o' r'
    → Writes buf (joined o o') (and_then r r')
and_then-Writes buf o o' r r' (broken buf' b) w = broken buf' b
and_then-Writes buf o o' r r' (written buf' text e b c) (broken last b') = broken last b'
and_then-Writes buf o o' r r' (written buf' text e b c) (written last text' e' b' c') =
    written last (text ++ text') (rw (e, e') refl) b'
      (c' ∙ ap (λ t. t ++ text') c ∙ append_assoc (content buf) text text')

pub Appends-Writes :
    (heap : Heap) (buf : DynamicBuffer) (text : Bytes) (r : DynamicBuffer × Status)
    → Appends heap buf text r
    → Writes buf (some text) (r.0, is_done r.1)
Appends-Writes heap buf text r (added buf' b c live) = written buf' text refl b c
Appends-Writes heap buf text r (failing buf' status n m b c f v) =
    rw (not_done status n) (broken buf' b)

pub put_char-Writes :
    (heap : Heap) (buf : DynamicBuffer) (c : ℕ)
    → IsBuffer buf
    → Writes buf (some (c ∷ [])) (put_char heap buf c)
put_char-Writes heap buf c b = elim (Bool-cases buf.failed) [
  | inl e ↦ rw (failed_refuses heap buf none c e).2 (broken _ (latch-IsBuffer buf b))
  | inr e ↦ Appends-Writes heap buf (c ∷ []) _ (append_char-Appends heap buf c b e)
]

pub put_str-Writes :
    (heap : Heap) (buf : DynamicBuffer) (s : Bytes)
    → IsBuffer buf
    → Writes buf (some s) (put_str heap buf s)
put_str-Writes heap buf s b = Appends-Writes heap buf s _ (append_str-Appends heap buf s b)

pub nothing-Writes : (buf : DynamicBuffer) → IsBuffer buf → Writes buf (some []) (buf, true)
nothing-Writes buf b = written buf [] refl b (sym (append-nil (content buf)))

-- A call that has returned 0, from a live buffer to a live buffer with so many more bytes.
pub record Grows (buf : DynamicBuffer) (n : ℕ) (r : DynamicBuffer × Bool) : Type 0 where
  pub ends : r.1 ≡ true
  pub buffer : IsBuffer r.0
  pub live : r.0.failed ≡ false
  pub size : r.0.len ≡ buf.len + n

take_all : (n : ℕ) (s : Bytes) → n < length s → length (take n s) ≡ n
take_all zero s h = refl
take_all (suc n) [] h = absurd (omega arith)
take_all (suc n) (c ∷ s) h = ap suc (take_all n s (omega arith))

length-content : (buf : DynamicBuffer) → IsBuffer buf → length (content buf) ≡ buf.len
length-content buf (unallocated n l c) = rw (n, l) refl
length-content buf (allocated block d w lt top nul) = rw d (take_all buf.len block (rw w lt))

module _ (heap : Heap) (buf : DynamicBuffer) (b : IsBuffer buf) (live : buf.failed ≡ false)
    (grants : (n : ℕ) → heap.grants n ≡ true) where
  Appends-Grows :
      (text : Bytes) (r : DynamicBuffer × Status)
      → buf.len + length text + 1 ≤ size_max
      → Appends heap buf text r
      → Grows buf (length text) (r.0, is_done r.1)
  Appends-Grows text r h (failing buf' status n m b' c f v) = absurd (v (live, (grants, h)))
  Appends-Grows text r h (added buf' b' c live') = record {
    ends = refl;
    buffer = b';
    live = live';
    size =
        sym (length-content buf' b')
        ∙ ap length c
        ∙ length-append (content buf) text
        ∙ ap (λ n. n + length text) (length-content buf b);
  }

  -- With memory for everything, appends that keep the size within 64 bits return 0.
  pub put_str-Grows :
      (s : Bytes) → buf.len + length s + 1 ≤ size_max → Grows buf (length s) (put_str heap buf s)
  put_str-Grows s h = Appends-Grows s _ h (append_str-Appends heap buf s b)

  pub put_char-Grows : (c : ℕ) → buf.len + 1 + 1 ≤ size_max → Grows buf 1 (put_char heap buf c)
  put_char-Grows c h = Appends-Grows (c ∷ []) _ h (append_char-Appends heap buf c b live)

-- ===== src/DynamicBuffer/Append.antt =====
-- The appends: the content grows by exactly the bytes, or stays and the latch is set.
use ws_pipeline_dispatcher.Prelude.{
  ℕ, ◌+◌, ◌≤◌, ◌<◌, true, false, [], ◌∷◌, ◌++◌, ◌≡◌, ◌≢◌, refl, ap, ◌∙◌, Option, some, arith,
  if_ind, length, length-set, set, get_or-set_self, take, Bytes,
}
use ws_pipeline_dispatcher.DynamicBuffer.{
  DynamicBuffer, Status, done, einval, eio, eoverflow, enomem, stuck, size_max, Heap, latch,
  put_bytes, finish_append, copy_to, dynamic_buffer_append_char, dynamic_buffer_append_mem,
  dynamic_buffer_append_str, dynamic_buffer_reserve, dynamic_buffer_reset, dynamic_buffer_free,
  dynamic_buffer_has_failed,
}
use ws_pipeline_dispatcher.DynamicBuffer.Writes.{take-set, take-copy_to, length-copy_to}
use ws_pipeline_dispatcher.DynamicBuffer.Reserve.{
  content, Serves, IsBuffer, unallocated, allocated, Reserves, roomy, refuses, reserve-Reserves,
}

-- The bytes were added behind the content, or the call failed: then the content is as before and
-- the latch is set. The buffer is valid in both cases.
pub data Appends (heap : Heap) (buf : DynamicBuffer) (src : Bytes)
    : DynamicBuffer × Status → Type 0 where
  added :
      (buf' : DynamicBuffer)
      → IsBuffer buf'
      → content buf' ≡ content buf ++ src
      → buf'.failed ≡ false
      → Appends heap buf src (buf', done)
  failing :
      (buf' : DynamicBuffer) (status : Status)
      → status ≢ done
      → status ≢ stuck
      → IsBuffer buf'
      → content buf' ≡ content buf
      → buf'.failed ≡ true
      → ¬ ((buf.failed ≡ false) × Serves heap buf (length src))
      → Appends heap buf src (buf', status)

pub latch-IsBuffer : (buf : DynamicBuffer) → IsBuffer buf → IsBuffer (latch buf)
latch-IsBuffer buf (unallocated n l c) = unallocated n l c
latch-IsBuffer buf (allocated block d w lt top nul) = allocated block d w lt top nul

put_some :
    (buf : DynamicBuffer) (src block : Bytes)
    → buf.data_ ≡ some block
    → put_bytes buf src ≡ record buf {
      data_ = some (set (copy_to block buf.len src) (buf.len + length src) 0);
      len = buf.len + length src;
    }
unfolding put_bytes
put_some buf src block d = rw d refl

put_bytes-Appends :
    (heap : Heap) (buf buf' : DynamicBuffer) (src block : Bytes)
    → buf'.data_ ≡ some block
    → length block ≡ buf'.cap
    → buf.len + length src < buf'.cap
    → buf'.cap ≤ size_max
    → buf'.len ≡ buf.len
    → take buf.len block ≡ content buf
    → buf'.failed ≡ false
    → Appends heap buf src (put_bytes buf' src, done)
unfolding put_bytes
put_bytes-Appends heap buf buf' src block d w room top l kept live =
    let len = buf'.len + length src in
    let copied = copy_to block buf'.len src in
    let long : length copied ≡ buf'.cap = length-copy_to block buf'.len src ∙ w in
    let put : put_bytes buf' src ≡ record buf' { data_ = some (set copied len 0); len = len } =
      put_some buf' src block d in
    rw put (
      added _
        (allocated (set copied len 0) refl (length-set copied len 0 ∙ long) (omega arith) top
          (get_or-set_self copied len 0 1 (omega arith)))
        (take-set len len copied 0 (omega arith)
          ∙ take-copy_to block buf'.len src (omega arith)
          ∙ ap (λ s. s ++ src) (ap (λ n. take n block) l ∙ kept))
        live)

finish-Appends :
    (heap : Heap) (buf : DynamicBuffer) (src : Bytes) {r : DynamicBuffer × Status}
    → IsBuffer buf
    → buf.failed ≡ false
    → Reserves heap buf (length src) r
    → Appends heap buf src (finish_append r src)
unfolding finish_append
finish-Appends heap buf src h live (roomy buf' block d w room top l kept nul same) =
    put_bytes-Appends heap buf buf' src block d w room top l kept (same ∙ live)
finish-Appends heap buf src h live (refuses done n s v) = absurd (n refl)
finish-Appends heap buf src h live (refuses stuck n s v) = absurd (s refl)
finish-Appends heap buf src h live (refuses einval n s v) =
    failing _ einval n s (latch-IsBuffer buf h) refl refl (λ w. v w.1)
finish-Appends heap buf src h live (refuses eio n s v) =
    failing _ eio n s (latch-IsBuffer buf h) refl refl (λ w. v w.1)
finish-Appends heap buf src h live (refuses eoverflow n s v) =
    failing _ eoverflow n s (latch-IsBuffer buf h) refl refl (λ w. v w.1)
finish-Appends heap buf src h live (refuses enomem n s v) =
    failing _ enomem n s (latch-IsBuffer buf h) refl refl (λ w. v w.1)

-- Appending bytes to a valid buffer gives a valid buffer: on success its content is the old one
-- and the bytes, and on failure the content is as before and the latch is set. It ends, and
-- fails only if the buffer had failed, memory is refused or the size passes 64 bits.
pub append_mem-Appends :
    (heap : Heap) (buf : DynamicBuffer) (src : Bytes)
    → IsBuffer buf
    → Appends heap buf src (dynamic_buffer_append_mem heap buf (some src))
unfolding dynamic_buffer_append_mem
append_mem-Appends heap buf src h =
    if_ind (Appends heap buf src) buf.failed
      (λ e. failing buf eio (λ x. cc) (λ x. cc) h refl e (λ w. let live = w.0 in cc))
      (λ e. finish-Appends heap buf src h e (reserve-Reserves heap buf (length src) h e))

pub append_str-Appends :
    (heap : Heap) (buf : DynamicBuffer) (s : Bytes)
    → IsBuffer buf
    → Appends heap buf s (dynamic_buffer_append_str heap buf (some s))
unfolding dynamic_buffer_append_str
append_str-Appends heap buf s h =
    if_ind (Appends heap buf s) buf.failed
      (λ e. failing buf eio (λ x. cc) (λ x. cc) h refl e (λ w. let live = w.0 in cc))
      (λ e. append_mem-Appends heap buf s h)

pub append_char-Appends :
    (heap : Heap) (buf : DynamicBuffer) (c : ℕ)
    → IsBuffer buf
    → buf.failed ≡ false
    → Appends heap buf (c ∷ []) (dynamic_buffer_append_char heap buf c)
unfolding dynamic_buffer_append_char
append_char-Appends heap buf c h e =
    finish-Appends heap buf (c ∷ []) h e (reserve-Reserves heap buf 1 h e)

-- A failed buffer refuses every append with EIO and keeps its content.
pub failed_refuses :
    (heap : Heap) (buf : DynamicBuffer) (src : Option Bytes) (c : ℕ)
    → buf.failed ≡ true
    → (dynamic_buffer_append_mem heap buf src ≡ (buf, eio))
      × (dynamic_buffer_append_str heap buf src ≡ (buf, eio))
      × (dynamic_buffer_append_char heap buf c ≡ (latch buf, eio))
unfolding dynamic_buffer_append_mem dynamic_buffer_append_str dynamic_buffer_append_char
    dynamic_buffer_reserve finish_append
failed_refuses heap buf src c h = (
  if_ind (λ r. r ≡ (buf, eio)) buf.failed (λ e. refl) (λ e. cc),
  if_ind (λ r. r ≡ (buf, eio)) buf.failed (λ e. refl) (λ e. cc),
  if_ind (λ r. finish_append r (c ∷ []) ≡ (latch buf, eio)) buf.failed (λ e. refl) (λ e. cc),
)

-- Resetting or freeing a valid buffer gives a valid and empty buffer that has not failed.
pub reset_lem :
    (buf : DynamicBuffer)
    → IsBuffer buf
    → (IsBuffer (dynamic_buffer_reset buf)
        × (content (dynamic_buffer_reset buf) ≡ [])
        × (dynamic_buffer_has_failed (dynamic_buffer_reset buf) ≡ false))
      × (IsBuffer (dynamic_buffer_free buf)
          × (content (dynamic_buffer_free buf) ≡ [])
          × (dynamic_buffer_has_failed (dynamic_buffer_free buf) ≡ false))
unfolding dynamic_buffer_reset dynamic_buffer_free dynamic_buffer_has_failed
reset_lem buf (unallocated n l c) =
    rw n ((unallocated refl refl refl, refl, refl), (unallocated refl refl refl, refl, refl))
reset_lem buf (allocated block d w lt top nul) = rw d (
  (
    allocated (set block 0 0) refl (length-set block 0 0 ∙ w) (omega arith) top
        (get_or-set_self block 0 0 1 (omega arith)),
    refl,
    refl,
  ),
  (unallocated refl refl refl, refl, refl),
)

-- ===== src/StreamMerge/Drain/Shift.antt =====
-- The `memmove` of `drain_meta` takes the first line off the content of the buffer.
use mathlib.Core.Path.{subst}
use ws_pipeline_dispatcher.Prelude.{
  ℕ, zero, suc, ◌+◌, ◌-◌, ◌≤◌, ◌<◌, [], ◌∷◌, ◌≡◌, refl, sym, ap, ◌∙◌, some, arith, length,
  length-set, length-drop, set, get_or-set_self, take, drop, Bytes,
}
use ws_pipeline_dispatcher.DynamicBuffer.{DynamicBuffer, overwrite, size_max, old_block}
use ws_pipeline_dispatcher.DynamicBuffer.Writes.{take-set, take-overwrite, length-overwrite}
use ws_pipeline_dispatcher.DynamicBuffer.Reserve.{content, IsBuffer, unallocated, allocated}
use ws_pipeline_dispatcher.StreamMerge.Drain.{drop_line, shift_block}

length-take : (n : ℕ) (s : Bytes) → n ≤ length s → length (take n s) ≡ n
length-take zero s h = refl
length-take (suc n) [] h = absurd (omega arith)
length-take (suc n) (c ∷ s) h = ap suc (length-take n s (omega arith))

take-nil : (n : ℕ) → take {A = ℕ} n [] ≡ []
take-nil zero = refl
take-nil (suc n) = refl

take-drop : (r k : ℕ) (s : Bytes) → take r (drop k s) ≡ drop k (take (k + r) s)
take-drop r zero s = let e : 0 + r ≡ r = omega arith in rw e refl
take-drop r (suc k) [] = take-nil r ∙ sym (ap (drop (suc k)) (take-nil (suc k + r)))
take-drop r (suc k) (c ∷ s) =
    let e : suc k + r ≡ suc (k + r) = omega arith in rw e (take-drop r k s)

-- The content of a shifted block.
module _ (buf : DynamicBuffer) (block : Bytes) (n : ℕ) (d : buf.data_ ≡ some block)
    (w : length block ≡ buf.cap) (lt : buf.len < buf.cap) (inside : n < buf.len) where
  abbrev rest : ℕ
  rest = buf.len - suc n

  abbrev moved : Bytes
  moved = take rest (drop (buf.len - rest) block)

  length-moved : length moved ≡ rest
  length-moved =
      length-take rest (drop (buf.len - rest) block)
        (omega (arith, length-drop (buf.len - rest) block))

  shifted_content :
      take rest (set (overwrite block moved) rest 0) ≡ drop (suc n) (take buf.len block)
  shifted_content =
      let front : take rest (overwrite block moved) ≡ moved =
        ap (λ k. take k (overwrite block moved)) (sym length-moved)
        ∙ take-overwrite block moved (omega (arith, length-moved)) in
      let skip : buf.len - rest ≡ suc n = omega arith in
      let all : suc n + rest ≡ buf.len = omega arith in
      take-set rest rest (overwrite block moved) 0 (omega arith)
      ∙ front
      ∙ ap (λ k. take rest (drop k block)) skip
      ∙ take-drop rest (suc n) block
      ∙ ap (λ k. drop (suc n) (take k block)) all

  shifted-IsBuffer : buf.cap ≤ size_max → IsBuffer (shift_block buf rest (some block))
  shifted-IsBuffer top =
      let copied = overwrite block moved in
      let long : length copied ≡ buf.cap = length-overwrite block moved ∙ w in
      allocated (set copied rest 0) refl (length-set copied rest 0 ∙ long) (omega arith) top
        (get_or-set_self copied rest 0 1 (omega arith))

-- Dropping a line of the content takes it and its newline off the front.
pub drop_line_lem :
    (buf : DynamicBuffer) (n : ℕ)
    → IsBuffer buf
    → n < length (content buf)
    → IsBuffer (drop_line buf n) × (content (drop_line buf n) ≡ drop (suc n) (content buf))
unfolding drop_line
drop_line_lem buf n (unallocated z l c) h =
    let no_content : length (content buf) ≡ 0 = ap (λ k. length (take k (old_block buf.data_))) l in
    absurd (omega arith)
drop_line_lem buf n (allocated block d w lt top nul) h =
    let text : content buf ≡ take buf.len block = ap (λ o. take buf.len (old_block o)) d in
    let long : length (content buf) ≡ buf.len =
      ap length text ∙ length-take buf.len block (omega arith) in
    let inside : n < buf.len = omega arith in
    let shifted = shift_block buf (buf.len - suc n) (some block) in
    let good : IsBuffer shifted × (content shifted ≡ drop (suc n) (content buf)) = (
      shifted-IsBuffer buf block n d w lt inside top,
      shifted_content buf block n d w lt inside ∙ ap (drop (suc n)) (sym text),
    ) in
    subst (λ b. IsBuffer b × (content b ≡ drop (suc n) (content buf)))
      (sym (ap (shift_block buf (buf.len - suc n)) d)) good

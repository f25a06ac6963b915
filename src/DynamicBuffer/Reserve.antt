-- ===== src/DynamicBuffer/Reserve.antt =====
-- `dynamic_buffer_reserve`: the room it makes, and what it keeps.
use native.Mathlib.Nat.{two-pow-succ}
use ws_pipeline_dispatcher.Prelude.{
  true, ℕ, zero, suc, ◌+◌, ◌-◌, ◌*◌, ◌/◌, ◌%◌, ◌^◌, ◌≤◌, ◌<◌, false, not, ◌&&◌, ◌≡◌, ◌≢◌, refl, sym,
  ap, ◌∙◌, inl, inr, Option, none, some, arith, ltb, leb, ◌==◌, if◌then◌else◌, if_ind, Bool-cases,
  length, length-set, length-append, set, get_or, get_or-set_self, take, Bytes,
}
use ws_pipeline_dispatcher.DynamicBuffer.{
  DynamicBuffer, Status, done, eoverflow, enomem, stuck, Heap, size_max, junk_from, old_block,
  realloc_block, capacity_for, capacity_rounds, latch, enlarge, dynamic_buffer_reserve, is_null,
}
use ws_pipeline_dispatcher.DynamicBuffer.Writes.{take-set, take-append, length-junk_from}

-- The content of the buffer.
abbrev pub content : DynamicBuffer → Bytes
content buf = take buf.len (old_block buf.data_)

-- The invariant of the buffer: nothing is allocated yet, or the content and a NUL behind it lie in
-- a block of `cap` bytes.
pub data IsBuffer (buf : DynamicBuffer) : Type 0 where
  unallocated : buf.data_ ≡ none → buf.len ≡ 0 → buf.cap ≡ 0 → IsBuffer buf
  allocated :
      (block : Bytes)
      → buf.data_ ≡ some block
      → length block ≡ buf.cap
      → buf.len < buf.cap
      → buf.cap ≤ size_max
      → get_or block buf.len 1 ≡ 0
      → IsBuffer buf

double_pow : (n k : ℕ) → n * 2 ^ suc k ≡ n * 2 * 2 ^ k
double_pow n k = grind (arith, two-pow-succ k)

capacity_for_lem :
    (rounds need next : ℕ)
    → 0 < next
    → need ≤ next * 2 ^ rounds
    → need ≤ size_max
    → next ≤ size_max
    → (n : ℕ) × (capacity_for (suc rounds) need next ≡ some n) × (need ≤ n) × (n ≤ size_max)
unfolding capacity_for
capacity_for_lem zero need next p h fits fits' = (next, ground arith, omega arith, fits')
capacity_for_lem (suc rounds) need next p h fits fits' = elim (Bool-cases (ltb next need)) [
  | inr e ↦ (next, rw e refl, ground arith, fits')
  | inl e ↦ elim (Bool-cases (ltb (size_max / 2) next)) [
    | inl big ↦ (need, rw (e, big) refl, omega arith, fits)
    | inr small ↦
        let double = double_pow next rounds in
        let (n, runs, room, top) =
          capacity_for_lem rounds need (next * 2) (omega arith) (omega arith) fits (ground arith) in
        (n, rw (e, small) runs, room, top)
  ]
]

-- The heap grants every size, and the bytes and a NUL have a 64-bit size.
abbrev pub Serves : Heap → DynamicBuffer → ℕ → Type 0
Serves heap buf extra = ((n : ℕ) → heap.grants n ≡ true) × (buf.len + extra + 1 ≤ size_max)

-- What a call that makes room gives: the content is kept; with success there is room for `extra`
-- bytes and a NUL; with a failure the latch
-- is set, and that happens only if the heap or the sizes do not serve.
pub data Reserves (heap : Heap) (buf : DynamicBuffer) (extra : ℕ)
    : DynamicBuffer × Status → Type 0 where
  roomy :
      (buf' : DynamicBuffer) (block : Bytes)
      → buf'.data_ ≡ some block
      → length block ≡ buf'.cap
      → buf.len + extra < buf'.cap
      → buf'.cap ≤ size_max
      → buf'.len ≡ buf.len
      → take buf.len block ≡ content buf
      → get_or block buf.len 1 ≡ 0
      → buf'.failed ≡ buf.failed
      → Reserves heap buf extra (buf', done)
  refuses :
      (status : Status)
      → status ≢ done
      → status ≢ stuck
      → ¬ Serves heap buf extra
      → Reserves heap buf extra (latch buf, status)

length-realloc_block :
    (heap : Heap) (o : Option Bytes) (next : ℕ)
    → length (old_block o) ≤ next
    → length (realloc_block heap o next) ≡ next
unfolding realloc_block
length-realloc_block heap o next h =
    let block = old_block o in
    omega (
      arith,
      length-append block (junk_from heap.junk (length block) (next - length block)),
      length-junk_from heap.junk (length block) (next - length block),
    )

enlarge-Reserves :
    (heap : Heap) (buf : DynamicBuffer) (extra next : ℕ)
    → buf.len ≤ length (old_block buf.data_)
    → length (old_block buf.data_) ≤ next
    → buf.len + extra < next
    → next ≤ size_max
    → Reserves heap buf extra (enlarge heap buf (some next))
unfolding enlarge realloc_block
enlarge-Reserves heap buf extra next l le room top = elim (Bool-cases (heap.grants next)) [
  | inr denied ↦ rw denied (refuses enomem (λ e. cc) (λ e. cc) (λ v. let yes_all = v.0 next in cc))
  | inl granted ↦
      let block = realloc_block heap buf.data_ next in
      let long = length-realloc_block heap buf.data_ next le in
      rw granted (
        roomy _ (set block buf.len 0) refl (length-set block buf.len 0 ∙ long) room top refl
          (take-set buf.len buf.len block 0 (omega arith)
            ∙ take-append buf.len (old_block buf.data_) _ l)
          (get_or-set_self block buf.len 0 1 (omega arith)) refl)
]

-- The first tests find nothing wrong with a valid buffer.
no_block_missing : (buf : DynamicBuffer) → IsBuffer buf → ltb 0 buf.cap && is_null buf.data_ ≡ false
no_block_missing buf (unallocated n l c) = rw (n, c) refl
no_block_missing buf (allocated block d w lt top nul) = rw d (ground arith)

no_full_block :
    (buf : DynamicBuffer) → IsBuffer buf → not (is_null buf.data_) && leb buf.cap buf.len ≡ false
no_full_block buf (unallocated n l c) = rw n refl
no_full_block buf (allocated block d w lt top nul) = rw d (ground arith)

len_bound : (buf : DynamicBuffer) → IsBuffer buf → buf.len < size_max
len_bound buf (unallocated n l c) = omega arith
len_bound buf (allocated block d w lt top nul) = omega arith

stays :
    (heap : Heap) (buf : DynamicBuffer) (extra : ℕ)
    → IsBuffer buf
    → buf.len + extra + 1 ≤ buf.cap
    → Reserves heap buf extra (buf, done)
stays heap buf extra (unallocated n l c) room = absurd (omega arith)
stays heap buf extra (allocated block d w lt top nul) room =
    roomy buf block d w (omega arith) top refl (ap (λ o. take buf.len (old_block o)) (sym d)) nul
      refl

grows :
    (heap : Heap) (buf : DynamicBuffer) (extra : ℕ)
    → IsBuffer buf
    → buf.len + extra + 1 ≤ size_max
    → buf.cap < buf.len + extra + 1
    → Reserves heap buf extra (
        enlarge heap buf (
          capacity_for capacity_rounds
            (buf.len + extra + 1)
            (if buf.cap == 0 then 128 else buf.cap)))
grows heap buf extra (unallocated n l c) fits more =
    let (next, runs, room, top) =
      capacity_for_lem 64 (buf.len + extra + 1) 128 (omega arith) (omega arith) fits
        (omega arith) in
    let zero_len : buf.len ≤ length (old_block buf.data_) = omega arith in
    let empty_block : length (old_block buf.data_) ≡ 0 = rw n refl in
    let start : (if buf.cap == 0 then 128 else buf.cap) ≡ 128 = ground arith in
    rw (start, runs) (enlarge-Reserves heap buf extra next zero_len (omega arith) (omega arith) top)
grows heap buf extra (allocated block d w lt top nul) fits more =
    let start : (if buf.cap == 0 then 128 else buf.cap) ≡ buf.cap = ground arith in
    let (next, runs, room, top') =
      capacity_for_lem 64 (buf.len + extra + 1) buf.cap (omega arith) (omega arith) fits top in
    let long : length (old_block buf.data_) ≡ buf.cap = rw d w in
    rw (start, runs)
      (enlarge-Reserves heap buf extra next (omega arith) (omega arith) (omega arith) top')

-- Reserving room in a valid buffer that has not failed keeps the content and the NUL behind it
-- and gives room for the bytes and a NUL within 64-bit sizes, or sets the latch, which happens
-- only if memory is refused or the size passes 64 bits; the doubling loop ends.
pub reserve-Reserves :
    (heap : Heap) (buf : DynamicBuffer) (extra : ℕ)
    → IsBuffer buf
    → buf.failed ≡ false
    → Reserves heap buf extra (dynamic_buffer_reserve heap buf extra)
unfolding dynamic_buffer_reserve
reserve-Reserves heap buf extra h live =
    let small = len_bound buf h in
    if_ind (Reserves heap buf extra) buf.failed (λ e. cc)
      (λ _.
        rw (no_block_missing buf h, no_full_block buf h)
          (elim (Bool-cases (ltb ((size_max + 2 ^ 64 - 1 - buf.len) % 2 ^ 64) extra)) [
            | inl e ↦
                rw e (refuses eoverflow (λ e'. cc) (λ e'. cc) (λ v. let fits = v.1 in ground arith))
            | inr e ↦
                let fits : buf.len + extra + 1 ≤ size_max = ground arith in
                let need : (buf.len + extra + 1) % 2 ^ 64 ≡ buf.len + extra + 1 = omega arith in
                rw (e, need)
                  (elim (Bool-cases (leb (buf.len + extra + 1) buf.cap)) [
                    | inl le ↦ rw le (stays heap buf extra h (ground arith))
                    | inr gt ↦ rw gt (grows heap buf extra h fits (ground arith))
                  ])
          ]))

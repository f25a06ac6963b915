-- ===== src/DynamicBuffer/Writes.antt =====
-- Writes behind the contents of a block keep the contents.
use ws_pipeline_dispatcher.Prelude.{
  ℕ, zero, suc, ◌+◌, ◌≤◌, [], ◌∷◌, ◌++◌, ◌≡◌, refl, ap, arith, length, set, take, Bytes,
}
use ws_pipeline_dispatcher.DynamicBuffer.{overwrite, copy_to, junk_from}

pub take-set : (n i : ℕ) (block : Bytes) (v : ℕ) → n ≤ i → take n (set block i v) ≡ take n block
take-set zero i block v h = refl
take-set (suc n) i [] v h = refl
take-set (suc n) zero (b ∷ block) v h = absurd (omega arith)
take-set (suc n) (suc i) (b ∷ block) v h = ap (λ s. b ∷ s) (take-set n i block v (omega arith))

pub take-append :
    (n : ℕ) (block more : Bytes) → n ≤ length block → take n (block ++ more) ≡ take n block
take-append zero block more h = refl
take-append (suc n) [] more h = absurd (omega arith)
take-append (suc n) (b ∷ block) more h = ap (λ s. b ∷ s) (take-append n block more (omega arith))

pub take-overwrite :
    (block src : Bytes) → length src ≤ length block → take (length src) (overwrite block src) ≡ src
unfolding overwrite
take-overwrite [] [] h = refl
take-overwrite [] (c ∷ src) h = absurd (omega arith)
take-overwrite (b ∷ block) [] h = refl
take-overwrite (b ∷ block) (c ∷ src) h = ap (λ s. c ∷ s) (take-overwrite block src (omega arith))

pub take-copy_to :
    (block : Bytes) (i : ℕ) (src : Bytes)
    → i + length src ≤ length block
    → take (i + length src) (copy_to block i src) ≡ take i block ++ src
unfolding copy_to
take-copy_to block zero src h =
    let e : 0 + length src ≡ length src = omega arith in
    rw e (take-overwrite block src (omega arith))
take-copy_to [] (suc i) src h = absurd (omega arith)
take-copy_to (b ∷ block) (suc i) src h =
    let e : suc i + length src ≡ suc (i + length src) = omega arith in
    rw e (ap (λ s. b ∷ s) (take-copy_to block i src (omega arith)))

pub length-overwrite : (block src : Bytes) → length (overwrite block src) ≡ length block
unfolding overwrite
length-overwrite [] src = refl
length-overwrite (b ∷ block) [] = refl
length-overwrite (b ∷ block) (c ∷ src) = ap suc (length-overwrite block src)

pub length-copy_to :
    (block : Bytes) (i : ℕ) (src : Bytes) → length (copy_to block i src) ≡ length block
unfolding copy_to
length-copy_to block zero src = length-overwrite block src
length-copy_to [] (suc i) src = refl
length-copy_to (b ∷ block) (suc i) src = ap suc (length-copy_to block i src)

pub length-junk_from : (junk : ℕ → ℕ) (i n : ℕ) → length (junk_from junk i n) ≡ n
unfolding junk_from
length-junk_from junk i zero = refl
length-junk_from junk i (suc n) = ap suc (length-junk_from junk (i + 1) n)

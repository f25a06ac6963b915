-- ===== src/ClipStore/Hash/Mask.antt =====
-- A mask of low ones is a remainder, so the probe sequence walks round the table.
use Prim.Native.Nat.{bit_and, bit_and-bitwise, digits, min}
use native.Mathlib.Nat.{div-add-mod, mul-add-mod_self_left, mod-eq_of_lt, mod-lt, two-pow-succ}
use ws_pipeline_dispatcher.Prelude.{
  ℕ, zero, suc, ◌+◌, ◌-◌, ◌*◌, ◌/◌, ◌%◌, ◌^◌, ◌≤◌, ◌<◌, ◌≡◌, ap, ◌∙◌, arith, Bytes,
}
use ws_pipeline_dispatcher.ClipStore.Hash.{home_bucket, next_bucket, hash_key}

pub pow_pos : (k : ℕ) → 0 < 2 ^ k
pow_pos zero = omega arith
pow_pos (suc k) = omega (arith, two-pow-succ k, pow_pos k)

-- The lowest binary digit of a remainder by an even number is that of the number itself.
mod_double : (a p : ℕ) → 0 < p → a % (p + p) ≡ a / 2 % p * 2 + a % 2
mod_double a p h =
    let q = a / 2 in
    let c = q % p * 2 + a % 2 in
    let small : c < p + p = omega (arith, mod-lt q h) in
    let split : a ≡ (p + p) * (q / p) + c = grind (arith, div-add-mod q p) in
    ap (λ t. t % (p + p)) split ∙ mul-add-mod_self_left (p + p) (q / p) c ∙ mod-eq_of_lt small

abbrev low_ones : ℕ → ℕ
low_ones k = 2 ^ k - 1

-- Digit by digit, on a count `n` of digits to go.
mask_digits : (n a k : ℕ) → a ≤ n → digits (λ b. zero) min n a (low_ones k) ≡ a % 2 ^ k
mask_digits zero zero k h = ground (arith, pow_pos k)
mask_digits zero (suc a) k h = absurd (omega arith)
mask_digits (suc n) zero k h = ground (arith, pow_pos k)
mask_digits (suc n) (suc a) zero h =
    let ih : digits (λ b. zero) min n (suc a / 2) 0 ≡ suc a / 2 % 2 ^ 0 =
      mask_digits n (suc a / 2) zero (omega arith) in
    omega (arith, ih)
mask_digits (suc n) (suc a) (suc k) h =
    let p = pow_pos k in
    let e = two-pow-succ k in
    let half : low_ones (suc k) / 2 ≡ low_ones k = omega arith in
    let one : low_ones (suc k) % 2 ≡ 1 = omega arith in
    rw (half, one, mask_digits n (suc a / 2) k (omega arith))
      (rw e (omega (arith, mod_double (suc a) (2 ^ k) p)))

mask_lem : (a k : ℕ) → bit_and a (low_ones k) ≡ a % 2 ^ k
mask_lem a k = (λ i. bit_and-bitwise a (low_ones k) i) ∙ mask_digits a a k (omega arith)

-- In a table with 2^k buckets every probe stays in the table, and visits the buckets in turn.
pub home_bucket-lt : (key : Bytes) (k : ℕ) → home_bucket key (2 ^ k) < 2 ^ k
unfolding home_bucket
home_bucket-lt key k = rw (mask_lem (hash_key key) k) (mod-lt (hash_key key) (pow_pos k))

pub next_bucket_lem : (idx k : ℕ) → idx < 2 ^ k → next_bucket idx (2 ^ k) ≡ (idx + 1) % 2 ^ k
unfolding next_bucket
next_bucket_lem idx k h = mask_lem (idx + 1) k

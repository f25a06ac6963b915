-- ===== src/StreamMerge/LongDouble/Exact.antt =====
-- Where the quotient in `long double` is the exact one.
use native.Mathlib.Nat.{
  div-one, two-pow-succ, mod-lt, mul-le-mul_left, mul-le-mul_right, div-eq_of_lt-le,
  pow-le-pow_right,
}
use ws_pipeline_dispatcher.Prelude.{
  ℕ, zero, suc, ◌+◌, ◌*◌, ◌/◌, ◌%◌, ◌^◌, ◌≤◌, ◌<◌, ltb, ◌≡◌, arith, true,
}
use ws_pipeline_dispatcher.StreamMerge.LongDouble.{
  round_even, excess_bits, long_double, fraction_bits, thousandth,
}

two-pow_pos : (k : ℕ) → 0 < 2 ^ k
two-pow_pos zero = omega arith
two-pow_pos (suc k) = let rest = two-pow_pos k in omega (arith, two-pow-succ k)

-- Below 2^64 an integer is a long double.
long_double_exact : (n : ℕ) → n < 2 ^ 64 → long_double n ≡ n
unfolding long_double excess_bits round_even
long_double_exact n h =
    let small : ltb n (2 ^ 64) ≡ true = ground arith in
    let whole : n / 1 ≡ n = div-one n in
    let rest : n % 1 < 1 = mod-lt n (omega arith) in
    let below : ltb (n % 1 * 2) 1 ≡ true = ground arith in rw (small, below, whole) (omega arith)

enough_bits :
    (k rounds num : ℕ) → k ≤ rounds → num * 2 ^ k < 2 ^ 64 * 1000 → k ≤ fraction_bits rounds num
unfolding fraction_bits
enough_bits zero rounds num le h = omega arith
enough_bits (suc k) zero num le h = absurd (omega arith)
enough_bits (suc k) (suc rounds) num le h =
    let twice : num * 2 ^ suc k ≡ num * 2 * 2 ^ k = grind (arith, two-pow-succ k) in
    let rest = enough_bits k rounds (num * 2) (omega arith) (omega arith) in
    let more : num * 2 * 1 ≤ num * 2 * 2 ^ k = mul-le-mul_left (num * 2) (two-pow_pos k) in
    let small : num < 2 ^ 63 * 1000 = omega arith in
    let short : ltb (num / 1000) (2 ^ 63) ≡ true = ground arith in rw short (omega arith)

-- A rounded quotient is off by half at most.
near :
    (num : ℕ) → (round_even num 1000 * 1000 ≤ num + 500) × (num ≤ round_even num 1000 * 1000 + 500)
unfolding round_even
near num = (ground arith, ground arith)

-- Off by less than a thousandth of the unit, a multiple of a thousandth keeps its integer part.
within :
    (n unit r : ℕ)
    → 512 ≤ unit
    → (r * 1000 ≤ n * unit + 500) × (n * unit ≤ r * 1000 + 500)
    → (n / 1000 * unit ≤ r) × (r < (n / 1000 + 1) * unit)
within n unit r wide (above, below) =
    let q = n / 1000 in
    let down : 1000 * q * unit ≤ n * unit = mul-le-mul_right unit (omega arith) in
    let up : n * unit ≤ (1000 * q + 999) * unit = mul-le-mul_right unit (omega arith) in
    let down' : 1000 * q * unit ≡ 1000 * (q * unit) = grind arith in
    let up' : (1000 * q + 999) * unit ≡ 1000 * (q * unit) + 999 * unit = grind arith in
    let next : (q + 1) * unit ≡ q * unit + unit = grind arith in (omega arith, omega arith)

-- A product below 2^64 has its exact quotient: the places behind the point tell 999 from 1000
-- thousandths.
pub thousandth_exact : (n : ℕ) → n < 2 ^ 64 → thousandth (long_double n) ≡ n / 1000
unfolding thousandth
thousandth_exact n h =
    let places : 9 ≤ fraction_bits 80 n = enough_bits 9 80 n (omega arith) (omega arith) in
    let unit = 2 ^ fraction_bits 80 n in
    let wide : 2 ^ 9 ≤ unit = pow-le-pow_right (omega arith) places in
    let (low, high) = within n unit (round_even (n * unit) 1000) wide (near (n * unit)) in
    rw (long_double_exact n h) (div-eq_of_lt-le unit low high)

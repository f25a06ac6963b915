-- ===== src/StreamMerge/LongDouble.antt =====
-- applets/stream_merge/sm_fsm.c, the quotient in `aligned_target_bytes`: a product and a division
-- in `long double`, whose mantissa has 64 bits here (x86-64), and the conversion to an integer.
pub mod Exact
use ws_pipeline_dispatcher.Prelude.{ℕ, zero, suc, ◌+◌, ◌*◌, ◌/◌, ◌%◌, ◌^◌, ltb, if◌then◌else◌}

-- The integer next to a quotient, the even one of two that are as near.
unfoldable pub round_even : ℕ → ℕ → ℕ
round_even num den =
    let down = num / den in
    let twice = num % den * 2 in
    if ltb twice den then down else if ltb den twice then down + 1 else down + down % 2

-- How many bits of an integer are behind its first 64.
unfoldable pub excess_bits : ℕ → ℕ → ℕ
excess_bits zero n = 0
excess_bits (suc rounds) n =
    let rest = excess_bits rounds (n / 2) in if ltb n (2 ^ 64) then 0 else suc rest

-- The product of two numbers of 64 bits has 128.
unfoldable pub long_double : ℕ → ℕ
long_double n = let excess = 2 ^ excess_bits 64 n in round_even n excess * excess

-- How many binary places a mantissa of 64 bits has behind the integer part of `num / 1000`.
unfoldable pub fraction_bits : ℕ → ℕ → ℕ
fraction_bits zero num = 0
fraction_bits (suc rounds) num =
    let rest = fraction_bits rounds (num * 2) in if ltb (num / 1000) (2 ^ 63) then suc rest else 0

-- `num / 1000.0L`, converted to an integer. C does not define the conversion of 2^64 or more.
unfoldable pub thousandth : ℕ → ℕ
thousandth num = let unit = 2 ^ fraction_bits 80 num in round_even (num * unit) 1000 / unit

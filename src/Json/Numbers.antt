-- ===== src/Json/Numbers.antt =====
-- lib/jsonl_codec.c: which numbers the integer getters accept, and what they make of them.
use native.Mathlib.Nat.{
  div-add-mod', mul-div_cancel, mul-mod_left, mul-le-mul_right, le-div_iff_mul-le, zero-div,
}
use ws_pipeline_dispatcher.Prelude.{
  ℕ, ◌+◌, ◌*◌, ◌/◌, ◌%◌, ◌^◌, ◌≤◌, ◌<◌, Bool, true, false, ◌≡◌, refl, ap, ◌∙◌, sym, ◌↔◌, inl, inr,
  Option, none, some, arith, ltb, ◌==◌, if◌then◌else◌, Bool-cases, some_inj,
}
use ws_pipeline_dispatcher.Prelude.Int.{ℤ, pos, pos_part, neg_part}
use ws_pipeline_dispatcher.ClipStore.Hash.Mask.{pow_pos}
use ws_pipeline_dispatcher.Json.{
  Double, finite, infinite, nan, Value, null, boolean, number, string, array, object,
  max_safe_integer, minus, exact_int64, exact_uint64, int64_of, uint64_of,
}

abbrev pub magnitude : ℤ → ℕ
magnitude z = pos_part z + neg_part z

-- The number is exactly the integer.
abbrev pub Denotes : Double → ℤ → Type 0
Denotes (finite true m e) z = (m ≡ magnitude z * 2 ^ e) × (pos_part z ≡ 0)
Denotes (finite false m e) z = (m ≡ magnitude z * 2 ^ e) × (neg_part z ≡ 0)
Denotes (infinite negative) z = ⊥
Denotes nan z = ⊥

-- The value is a number that is exactly the integer, and at most 2^53 - 1 in magnitude.
abbrev pub SafeInteger : Value → ℤ → Type 0
SafeInteger (number x) z = Denotes x z × (magnitude z ≤ max_safe_integer)
SafeInteger null z = ⊥
SafeInteger (boolean b) z = ⊥
SafeInteger (string s) z = ⊥
SafeInteger (array vs) z = ⊥
SafeInteger (object fs) z = ⊥

-- Division by a power of two that leaves no remainder.
divides : (m n p : ℕ) → 0 < p → m % p ≡ 0 → m / p ≡ n → m ≡ n * p
divides m n p h r q = omega (arith, div-add-mod' m p, ap (λ t. t * p) q)

divided : (m n p : ℕ) → 0 < p → m ≡ n * p → (m % p ≡ 0) × (m / p ≡ n)
divided m n p h e = rw e (mul-mod_left n p, mul-div_cancel n h)

none≢some {ℓ} : {A : Type ℓ} {a : A} → ¬ (none ≡ some a)
none≢some h = cc

abbrev quotient {ℓ} : {A : Type ℓ} → (ℕ → A) → ℕ → ℕ → Option A
quotient f m p = if m % p == 0 then some (f (m / p)) else none

quotient_iff {ℓ} :
    {A : Type ℓ} (f : ℕ → A) (m p : ℕ) (a : A)
    → 0 < p
    → (quotient f m p ≡ some a) ↔ ((n : ℕ) × (m ≡ n * p) × (f n ≡ a))
quotient_iff f m p a h = elim (Bool-cases (m % p == 0)) [
  | inl e ↦ (
    λ q. (
      m / p,
      divides m (m / p) p h (ground arith) refl,
      some_inj (ap (λ b. if b then some (f (m / p)) else none) (sym e) ∙ q),
    ),
    λ q.
        let (n, eq, fn) = q in
        ap (λ b. if b then some (f (m / p)) else none) e
        ∙ ap some (ap f (divided m n p h eq).1 ∙ fn),
  )
  | inr e ↦ (
    λ q. absurd (none≢some (ap (λ b. if b then some (f (m / p)) else none) (sym e) ∙ q)),
    λ q. let (n, eq, fn) = q in let r = (divided m n p h eq).0 in absurd (ground arith),
  )
]

le_scaled : (n p M : ℕ) → 0 < p → n * p ≤ M * p → n ≤ M
le_scaled n p M h le = grind (arith, le-div_iff_mul-le {x = n} {y = M * p} h, mul-div_cancel M h)

minus_iff : (n : ℕ) (z : ℤ) → (minus n ≡ z) ↔ ((n ≡ magnitude z) × (pos_part z ≡ 0))
minus_iff n z = ground arith

pos_iff : (n : ℕ) (z : ℤ) → (pos n ≡ z) ↔ ((n ≡ magnitude z) × (neg_part z ≡ 0))
pos_iff n z = ground arith

guard_iff {ℓ} :
    {A : Type ℓ} (b : Bool) (q : Option A) (a : A)
    → ((if b then none else q) ≡ some a) ↔ ((b ≡ false) × (q ≡ some a))
guard_iff true q a = (λ e. absurd (none≢some e), λ h. let f = h.0 in cc)
guard_iff false q a = (λ e. (refl, e), λ h. h.1)

-- The range test and the test for a fraction, on the magnitude.
in_range_iff :
    (m p n : ℕ)
    → 0 < p
    → m ≡ n * p
    → (ltb (max_safe_integer * p) m ≡ false) ↔ (n ≤ max_safe_integer)
in_range_iff m p n h e = (
  λ b. le_scaled n p max_safe_integer h (ground arith),
  λ le. let scaled = mul-le-mul_right p le in ground arith,
)

module _ {ℓ} {A : Type ℓ} (f : ℕ → A) (a : A) (size : ℕ) (Z : Type 0)
    (f_iff : (n : ℕ) → (f n ≡ a) ↔ ((n ≡ size) × Z)) where
  safe_iff :
      (b : Bool) (m e : ℕ)
      → b ≡ ltb (max_safe_integer * 2 ^ e) m
      → ((if b then none else quotient f m (2 ^ e)) ≡ some a)
        ↔ (((m ≡ size * 2 ^ e) × Z) × (size ≤ max_safe_integer))
  safe_iff b m e range =
      let p = pow_pos e in
      (
        λ h.
            let (ok, q) = (guard_iff b (quotient f m (2 ^ e)) a).0 h in
            let (n, eq, fn) = (quotient_iff f m (2 ^ e) a p).0 q in
            let (same, sign) = (f_iff n).0 fn in
            let eq' : m ≡ size * 2 ^ e = eq ∙ ap (λ t. t * 2 ^ e) same in
            ((eq', sign), (in_range_iff m (2 ^ e) size p eq').0 (sym range ∙ ok)),
        λ h.
            let ((eq, sign), small) = h in
            (guard_iff b (quotient f m (2 ^ e)) a).1 (
              range ∙ (in_range_iff m (2 ^ e) size p eq).1 small,
              (quotient_iff f m (2 ^ e) a p).1 (size, eq, (f_iff size).1 (refl, sign)),
            ),
      )

-- A negative number other than -0.0 is refused.
minus_zero_iff :
    (b : Bool) (m e n : ℕ)
    → b ≡ ltb 0 m
    → ((if b then none else quotient (λ q. q) m (2 ^ e)) ≡ some n)
      ↔ (((m ≡ n * 2 ^ e) × (n ≡ 0)) × (n ≤ max_safe_integer))
minus_zero_iff b m e n range =
    let p = pow_pos e in
    (
      λ h.
          let (ok, q) = (guard_iff b (quotient (λ q. q) m (2 ^ e)) n).0 h in
          let (k, eq, same) = (quotient_iff (λ q. q) m (2 ^ e) n p).0 q in
          let eq' : m ≡ n * 2 ^ e = eq ∙ ap (λ t. t * 2 ^ e) same in
          let zero_m : m ≡ 0 = ground arith in
          let zero_n : n ≡ 0 =
            sym (divided m n (2 ^ e) p eq').1 ∙ ap (λ t. t / 2 ^ e) zero_m ∙ zero-div (2 ^ e) in
          ((eq', zero_n), omega arith),
      λ h.
          let ((eq, zero_n), small) = h in
          let zero_m : m ≡ 0 = eq ∙ ap (λ t. t * 2 ^ e) zero_n ∙ omega arith in
          (guard_iff b (quotient (λ q. q) m (2 ^ e)) n).1
            (ground arith, (quotient_iff (λ q. q) m (2 ^ e) n p).1 (n, eq, refl)),
    )

nothing_iff {ℓ} : {A : Type ℓ} {a : A} {P : Type 0} → ¬ P → (none ≡ some a) ↔ P
nothing_iff n = (λ e. absurd (none≢some e), λ h. absurd (n h))

-- The signed getter returns the integer that a number is exactly, up to 2^53 - 1.
pub int64_of_lem : (v : Value) (z : ℤ) → (int64_of v ≡ some z) ↔ SafeInteger v z
unfolding int64_of exact_int64
int64_of_lem (number (finite true m e)) z =
    safe_iff minus z (magnitude z) (pos_part z ≡ 0) (λ n. minus_iff n z) _ m e (ground arith)
int64_of_lem (number (finite false m e)) z =
    safe_iff pos z (magnitude z) (neg_part z ≡ 0) (λ n. pos_iff n z) _ m e refl
int64_of_lem (number (infinite true)) z = nothing_iff (λ h. h.0)
int64_of_lem (number (infinite false)) z = nothing_iff (λ h. h.0)
int64_of_lem (number nan) z = nothing_iff (λ h. h.0)
int64_of_lem null z = nothing_iff (λ h. h)
int64_of_lem (boolean b) z = nothing_iff (λ h. h)
int64_of_lem (string s) z = nothing_iff (λ h. h)
int64_of_lem (array vs) z = nothing_iff (λ h. h)
int64_of_lem (object fs) z = nothing_iff (λ h. h)

magnitude_pos : (n : ℕ) → magnitude (pos n) ≡ n
magnitude_pos n = omega arith

-- An unsigned getter takes what the signed one takes, where it is not negative.
pub uint64_of_lem : (v : Value) (n : ℕ) → (uint64_of v ≡ some n) ↔ SafeInteger v (pos n)
unfolding uint64_of exact_uint64
uint64_of_lem (number (finite true m e)) n =
    rw (magnitude_pos n) (minus_zero_iff _ m e n (ground arith))
uint64_of_lem (number (finite false m e)) n =
    rw (magnitude_pos n)
      (safe_iff (λ q. q) n n (◌≡◌ {A = ℕ} 0 0) (λ k. (λ h. (h, refl), λ h. h.0)) _ m e refl)
uint64_of_lem (number (infinite true)) n = nothing_iff (λ h. h.0)
uint64_of_lem (number (infinite false)) n = nothing_iff (λ h. h.0)
uint64_of_lem (number nan) n = nothing_iff (λ h. h.0)
uint64_of_lem null n = nothing_iff (λ h. h)
uint64_of_lem (boolean b) n = nothing_iff (λ h. h)
uint64_of_lem (string s) n = nothing_iff (λ h. h)
uint64_of_lem (array vs) n = nothing_iff (λ h. h)
uint64_of_lem (object fs) n = nothing_iff (λ h. h)

-- An exact integer is within 2^53 - 1 of 0.
pub SafeInteger-small : (item : Value) (z : ℤ) → SafeInteger item z → magnitude z ≤ max_safe_integer
SafeInteger-small null z h = absurd h
SafeInteger-small (boolean b) z h = absurd h
SafeInteger-small (number x) z h = h.1
SafeInteger-small (string s) z h = absurd h
SafeInteger-small (array vs) z h = absurd h
SafeInteger-small (object fs) z h = absurd h

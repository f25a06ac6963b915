-- ===== src/ClipStore/Number.antt =====
-- `%ld` and `strtol(…, 10)`, for the expiry times of applets/clip_store/db_format.c: a print is read back whole.
use ws_pipeline_dispatcher.Prelude.{
  ℕ, zero, suc, ◌+◌, ◌-◌, ◌*◌, ◌/◌, ◌%◌, ◌^◌, ◌≤◌, ◌<◌, Bool, true, false, ◌&&◌, ◌||◌, [], ◌∷◌, ◌≡◌,
  refl, ap, ◌∙◌, inl, inr, Option, none, some, arith, leb, ◌==◌, if◌then◌else◌, Bool-cases, Bytes,
}
use ws_pipeline_dispatcher.Prelude.Int.{ℤ, pos, negsuc}

-- The digits of `n` in front of `out`, on the rounds left.
unfoldable pub digits : ℕ → ℕ → Bytes → Bytes
digits zero n out = out
digits (suc rounds) n out =
    let rest = digits rounds (n / 10) ((b'0' + n % 10) ∷ out) in
    if n / 10 == 0 then (b'0' + n % 10) ∷ out else rest

-- `%ld`
unfoldable pub print_long : ℤ → Bytes
print_long (pos n) = digits (suc n) n []
print_long (negsuc n) = b'-' ∷ digits (suc (suc n)) (suc n) []

abbrev pub is_digit : ℕ → Bool
is_digit c = leb b'0' c && leb c b'9'

-- The value of the digits behind `n`, and the rest of the text.
unfoldable pub scan : Bytes → ℕ → ℕ × Bytes
scan [] n = (n, [])
scan (c ∷ s) n = let rest = scan s (n * 10 + (c - b'0')) in if is_digit c then rest else (n, c ∷ s)

abbrev is_space : ℕ → Bool
is_space c = (leb 9 c && leb c 13) || c == b' '

unfoldable pub skip_spaces : Bytes → Bytes
skip_spaces [] = []
skip_spaces (c ∷ s) = let rest = skip_spaces s in if is_space c then rest else c ∷ s

abbrev pub max_long : ℕ
max_long = 2 ^ 63 - 1

abbrev least : ℕ → ℕ → ℕ
least a b = if leb a b then a else b

abbrev clamp_pos : ℕ → ℤ
clamp_pos n = pos (least n max_long)

abbrev clamp_neg : ℕ → ℤ
clamp_neg zero = pos 0
clamp_neg (suc n) = negsuc (least n max_long)

-- Digits with a value out of range stop at the bound; `none` stands for no conversion.
unfoldable pub scan_number : (ℕ → ℤ) → Bytes → Option (ℤ × Bytes)
scan_number clamp [] = none
scan_number clamp (c ∷ s) =
    if is_digit c then (let (n, rest) = scan (c ∷ s) 0 in some (clamp n, rest)) else none

unfoldable pub scan_signed : Bytes → Option (ℤ × Bytes)
scan_signed [] = none
scan_signed (c ∷ s) =
    if c == b'-'
    then scan_number clamp_neg s
    else if c == b'+'
    then scan_number clamp_pos s
    else scan_number clamp_pos (c ∷ s)

-- `strtol`, with the rest of the text.
unfoldable pub strtol : Bytes → Option (ℤ × Bytes)
strtol s = scan_signed (skip_spaces s)

-- `end == s || *end != '\0'` fails: the text is a number as a whole.
unfoldable pub whole : Option (ℤ × Bytes) → Option ℤ
whole none = none
whole (some (n, [])) = some n
whole (some (n, c ∷ rest)) = none

unfoldable pub whole_long : Bytes → Option ℤ
whole_long s = whole (strtol s)

-- The values of a `long`.
abbrev pub IsLong : ℤ → Type 0
IsLong (pos n) = n ≤ max_long
IsLong (negsuc n) = n ≤ max_long

scan_last : (n : ℕ) (out : Bytes) → scan ((b'0' + n % 10) ∷ out) (n / 10) ≡ scan out n
unfolding scan
scan_last n out = ground arith

scan-digits : (rounds n : ℕ) (out : Bytes) → n < rounds → scan (digits rounds n out) 0 ≡ scan out n
unfolding digits
scan-digits zero n out h = absurd (omega arith)
scan-digits (suc rounds) n out h = elim (Bool-cases (n / 10 == 0)) [
  | inl e ↦ let small : n / 10 ≡ 0 = ground arith in rw e ((rw small at (scan_last n out)))
  | inr e ↦
      let less : n / 10 < rounds = ground arith in
      rw e (scan-digits rounds (n / 10) ((b'0' + n % 10) ∷ out) less ∙ scan_last n out)
]

-- The text starts with a digit.
pub data StartsDigit : Bytes → Type 0 where
  starts : (c : ℕ) (s : Bytes) → b'0' ≤ c → c ≤ b'9' → StartsDigit (c ∷ s)

pub digits-StartsDigit :
    (rounds n : ℕ) (out : Bytes) → n < rounds → StartsDigit (digits rounds n out)
unfolding digits
digits-StartsDigit zero n out h = absurd (omega arith)
digits-StartsDigit (suc rounds) n out h = elim (Bool-cases (n / 10 == 0)) [
  | inl e ↦ rw e (starts _ out (omega arith) (omega arith))
  | inr e ↦
      let less : n / 10 < rounds = ground arith in
      rw e (digits-StartsDigit rounds (n / 10) ((b'0' + n % 10) ∷ out) less)
]

scan_number_lem :
    (clamp : ℕ → ℤ) (s : Bytes) (n : ℕ)
    → StartsDigit s
    → scan s 0 ≡ (n, [])
    → scan_number clamp s ≡ some (clamp n, [])
unfolding scan_number
scan_number_lem clamp _ n (starts c s lo hi) h =
    let digit : is_digit c ≡ true = ground arith in
    rw digit (ap (λ (r : ℕ × Bytes). some (clamp r.0, r.1)) h)

strtol_unsigned : (s : Bytes) → StartsDigit s → strtol s ≡ scan_number clamp_pos s
unfolding strtol skip_spaces scan_signed
strtol_unsigned _ (starts c s lo hi) =
    let text : is_space c ≡ false = ground arith in
    let minus : (c == b'-') ≡ false = ground arith in
    let plus : (c == b'+') ≡ false = ground arith in rw text (rw (minus, plus))

strtol_minus : (s : Bytes) → strtol (b'-' ∷ s) ≡ scan_number clamp_neg s
unfolding strtol skip_spaces scan_signed
strtol_minus s = refl

pub printed : (rounds n : ℕ) → n < rounds → scan (digits rounds n []) 0 ≡ (n, [])
unfolding scan
printed rounds n h = scan-digits rounds n [] h

-- Every long that is printed with %ld is read back by strtol, to the end of the text.
pub whole_long-print_long : (n : ℤ) → IsLong n → whole_long (print_long n) ≡ some n
unfolding whole_long print_long whole
whole_long-print_long (pos n) h =
    let e =
      strtol_unsigned _ (digits-StartsDigit (suc n) n [] (omega arith))
      ∙ scan_number_lem clamp_pos _ n (digits-StartsDigit (suc n) n [] (omega arith))
          (printed (suc n) n (omega arith)) in
    ap whole e ∙ ground arith
whole_long-print_long (negsuc n) h =
    let e =
      strtol_minus _
      ∙ scan_number_lem clamp_neg _ (suc n)
          (digits-StartsDigit (suc (suc n)) (suc n) [] (omega arith))
          (printed (suc (suc n)) (suc n) (omega arith)) in
    ap whole e ∙ ground arith

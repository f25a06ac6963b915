-- ===== src/Dispatcher/Config.antt =====
-- applets/pipeline_dispatcher/pd_config.c: the checks of the options.
pub mod Parse
pub mod Siblings
use ws_pipeline_dispatcher.Prelude.{
  ℕ, suc, ◌-◌, ◌%◌, ◌^◌, ◌≤◌, Bool, true, false, not, ◌&&◌, ◌||◌, [], ◌∷◌, ◌≡◌, ap, ◌∙◌, arith, ltb,
  leb, ◌==◌, if◌then◌else◌, Bytes,
}
use ws_pipeline_dispatcher.ClipStore.Number.{
  digits, scan, skip_spaces, is_digit, StartsDigit, starts, digits-StartsDigit, printed,
}

-- `pd_config_t`, without the name of the program.
pub record Config : Type 0 where
  pub session_id : Bytes
  pub src_dir : Bytes
  pub db_path : Bytes
  pub ttl : Bytes
  pub clip_secs : Bytes
  pub idle_secs : Bytes
  pub filter : Bytes
  pub bin_stream_merge : Bytes
  pub bin_log_parse : Bytes
  pub bin_clip_store : Bytes

-- What `stat` and `access` tell of a path.
pub record Paths : Type 0 where
  pub is_directory : Bytes → Bool
  pub is_executable : Bytes → Bool

abbrev pub max_ulong : ℕ
max_ulong = 2 ^ 64 - 1

-- The tests on the number and the rest behind it: `errno` is 0, the text ends, and the value is not
-- 0 where that is not allowed. A number with a minus wraps round.
unfoldable pub accepted : Bool → Bool → ℕ × Bytes → Bool
accepted allow_zero negative (n, []) =
    let value = if negative then (2 ^ 64 - n) % 2 ^ 64 else n in
    leb n max_ulong && (allow_zero || ltb 0 value)
accepted allow_zero negative (n, c ∷ rest) = false

-- The digits of `strtoul`; with none of them there is no conversion.
unfoldable pub accepted_digits : Bool → Bool → Bytes → Bool
accepted_digits allow_zero negative [] = false
accepted_digits allow_zero negative (c ∷ s) =
    if is_digit c then accepted allow_zero negative (scan (c ∷ s) 0) else false

unfoldable pub accepted_signed : Bool → Bytes → Bool
accepted_signed allow_zero [] = false
accepted_signed allow_zero (c ∷ s) =
    if c == b'-'
    then accepted_digits allow_zero true s
    else if c == b'+'
    then accepted_digits allow_zero false s
    else accepted_digits allow_zero false (c ∷ s)

-- `valid_uint_string`
unfoldable pub valid_uint_string : Bytes → Bool → Bool
valid_uint_string value allow_zero = accepted_signed allow_zero (skip_spaces value)

abbrev is_empty : Bytes → Bool
is_empty [] = true
is_empty (c ∷ s) = false

-- `pd_config_validate`: whether it returns 0.
unfoldable pub config_validate : Paths → Config → Bool
config_validate paths cfg =
    if is_empty cfg.session_id || (is_empty cfg.src_dir || is_empty cfg.db_path)
    then false
    else if not (paths.is_directory cfg.src_dir)
    then false
    else if not (valid_uint_string cfg.ttl true)
    then false
    else if not (valid_uint_string cfg.clip_secs false)
    then false
    else if not (valid_uint_string cfg.idle_secs false)
    then false
    else if not (paths.is_executable cfg.bin_stream_merge)
        || (not (paths.is_executable cfg.bin_log_parse)
            || not (paths.is_executable cfg.bin_clip_store))
    then false
    else true

accepted_unsigned :
    (allow_zero : Bool) (s : Bytes) (n : ℕ)
    → StartsDigit s
    → scan s 0 ≡ (n, [])
    → n ≤ max_ulong
    → valid_uint_string s allow_zero ≡ (allow_zero || ltb 0 n)
unfolding valid_uint_string skip_spaces accepted_signed accepted_digits
accepted_unsigned allow_zero _ n (starts c s lo hi) h fits =
    let no_space : ((leb 9 c && leb c 13) || c == b' ') ≡ false = ground arith in
    let minus : (c == b'-') ≡ false = ground arith in
    let plus : (c == b'+') ≡ false = ground arith in
    let digit : is_digit c ≡ true = ground arith in
    rw no_space (rw (minus, plus, digit) (ap (accepted allow_zero false) h ∙ whole n fits))
  where
    whole : (n : ℕ) → n ≤ max_ulong → accepted allow_zero false (n, []) ≡ (allow_zero || ltb 0 n)
    whole n fits = unfold accepted in ground arith

-- The decimal print of a number below 2^64 is a valid option exactly if zero is allowed or the
-- number is not zero.
pub valid_uint_string_lem :
    (n : ℕ) (allow_zero : Bool)
    → n ≤ max_ulong
    → valid_uint_string (digits (suc n) n []) allow_zero ≡ (allow_zero || ltb 0 n)
valid_uint_string_lem n allow_zero fits =
    accepted_unsigned allow_zero (digits (suc n) n []) n
      (digits-StartsDigit (suc n) n [] (omega arith)) (printed (suc n) n (omega arith)) fits

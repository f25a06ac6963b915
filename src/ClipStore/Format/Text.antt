-- ===== src/ClipStore/Format/Text.antt =====
-- Texts without the bytes that end a field or a line, and how a file of lines is split.
use mathlib.Core.List.{append_assoc}
use ws_pipeline_dispatcher.Prelude.{
  ℕ, zero, suc, ◌+◌, ◌*◌, ◌/◌, ◌%◌, ◌<◌, false, ◌||◌, [], ◌∷◌, ◌++◌, ◌≡◌, ◌≢◌, refl, sym, ap, ◌∙◌,
  inl, inr, some, arith, ◌==◌, Bool-cases, Bytes,
}
use ws_pipeline_dispatcher.Prelude.Int.{ℤ, pos, negsuc}
use ws_pipeline_dispatcher.Base64.{b64_table, sextet, b64_index}
use ws_pipeline_dispatcher.Base64.Spec.{encoded, AllBytes}
use ws_pipeline_dispatcher.Base64.Groups.{sextet-table}
use ws_pipeline_dispatcher.ClipStore.Number.{digits, print_long}
use ws_pipeline_dispatcher.ClipStore.Format.{split_at, cut_line, read_lines, prepend}

-- No NUL and no end of a line.
abbrev pub InLine : ℕ → Type 0
InLine c = (c ≢ 0) × (c ≢ 10) × (c ≢ 13)

abbrev pub IsLine : Bytes → Type 0
IsLine [] = Unit
IsLine (c ∷ s) = InLine c × IsLine s

-- A line with no tab.
abbrev IsPlain : ℕ → Type 0
IsPlain c = InLine c × (c ≢ 9)

abbrev pub IsField : Bytes → Type 0
IsField [] = Unit
IsField (c ∷ s) = (IsPlain c) × IsField s

pub above_controls : (c : ℕ) → 13 < c → IsPlain c
above_controls c h = (
  (λ e. absurd (omega arith), λ e. absurd (omega arith), λ e. absurd (omega arith)),
  λ e. absurd (omega arith),
)

pub IsField-IsLine : (s : Bytes) → IsField s → IsLine s
IsField-IsLine [] h = h
IsField-IsLine (c ∷ s) ((a, _), b) = (a, IsField-IsLine s b)

pub IsLine-append : (s s' : Bytes) → IsLine s → IsLine s' → IsLine (s ++ s')
IsLine-append [] s' h h' = h'
IsLine-append (c ∷ s) s' (a, b) h' = (a, IsLine-append s s' b h')

tab-InLine : InLine 9
tab-InLine = (λ e. absurd (omega arith), λ e. absurd (omega arith), λ e. absurd (omega arith))

pub joined-IsLine : (s s' : Bytes) → IsField s → IsLine s' → IsLine (s ++ 9 ∷ s')
joined-IsLine s s' h h' = IsLine-append s (9 ∷ s') (IsField-IsLine s h) (tab-InLine, h')

pub split_at-field : (s rest : Bytes) → IsField s → split_at 9 (s ++ 9 ∷ rest) ≡ some (s, rest)
unfolding split_at
split_at-field [] rest h = refl
split_at-field (c ∷ s) rest ((_, n), h) =
    let other : (c == 9) ≡ false = ground arith in rw (other, split_at-field s rest h) refl

pub cut_line-line : (s rest : Bytes) → IsLine s → cut_line (s ++ 10 ∷ rest) ≡ s
unfolding cut_line
cut_line-line [] rest h = refl
cut_line-line (c ∷ s) rest ((a, b, d), h) =
    let other : ((c == 13 || c == 10) || c == 0) ≡ false = ground arith in
    rw (other, cut_line-line s rest h) refl

pub read_lines-line :
    (s rest : Bytes) → IsLine s → read_lines (s ++ 10 ∷ rest) ≡ (s ++ 10 ∷ []) ∷ read_lines rest
unfolding read_lines prepend
read_lines-line [] rest h = refl
read_lines-line (c ∷ s) rest ((a, b, d), h) =
    let other : (c == 10) ≡ false = ground arith in rw (other, read_lines-line s rest h) refl

-- A file of whole lines.
pub data IsFile : Bytes → Type 0 where
  no_line : IsFile []
  a_line : (s rest : Bytes) → IsLine s → IsFile rest → IsFile (s ++ 10 ∷ rest)

pub IsFile-append : (file s : Bytes) → IsFile file → IsLine s → IsFile (file ++ (s ++ 10 ∷ []))
IsFile-append _ s no_line h = a_line s [] h no_line
IsFile-append _ s (a_line t rest l f) h =
    rw (append_assoc t (10 ∷ rest) (s ++ 10 ∷ []))
      (a_line t (rest ++ (s ++ 10 ∷ [])) l (IsFile-append rest s f h))

pub read_lines-append :
    (file s : Bytes)
    → IsFile file
    → IsLine s
    → read_lines (file ++ (s ++ 10 ∷ [])) ≡ read_lines file ++ (s ++ 10 ∷ []) ∷ []
read_lines-append _ s no_line h = read_lines-line s [] h ∙ (unfold read_lines in refl)
read_lines-append _ s (a_line t rest l f) h =
    ap read_lines (append_assoc t (10 ∷ rest) (s ++ 10 ∷ []))
    ∙ read_lines-line t (rest ++ (s ++ 10 ∷ [])) l
    ∙ ap (λ ls. (t ++ 10 ∷ []) ∷ ls) (read_lines-append rest s f h)
    ∙ sym (ap (λ ls. ls ++ (s ++ 10 ∷ []) ∷ []) (read_lines-line t rest l))

sextet-IsPlain : (c x : ℕ) → sextet c ≡ some x → IsPlain c
unfolding sextet b64_index
sextet-IsPlain c x h =
    ((λ e. ground arith, λ e. ground arith, λ e. ground arith), λ e. ground arith)

table-IsPlain : (x : ℕ) → x < 64 → IsPlain (b64_table x)
table-IsPlain x h = sextet-IsPlain (b64_table x) x (sextet-table x h)

pad-IsPlain : IsPlain b'='
pad-IsPlain = above_controls b'=' (omega arith)

pub encoded-IsField : (src : Bytes) → AllBytes src → IsField (encoded src)
unfolding encoded
encoded-IsField [] h = h
encoded-IsField (a ∷ []) (ha, _) = (
  table-IsPlain (a / 4) (omega arith),
  (table-IsPlain (a % 4 * 16) (omega arith), (pad-IsPlain, (pad-IsPlain, tt))),
)
encoded-IsField (a ∷ b ∷ []) (ha, (hb, _)) = (
  table-IsPlain (a / 4) (omega arith),
  (
    table-IsPlain (a % 4 * 16 + b / 16) (omega arith),
    (table-IsPlain (b % 16 * 4) (omega arith), (pad-IsPlain, tt)),
  ),
)
encoded-IsField (a ∷ b ∷ c ∷ src) (ha, (hb, (hc, hs))) = (
  table-IsPlain (a / 4) (omega arith),
  (
    table-IsPlain (a % 4 * 16 + b / 16) (omega arith),
    (
      table-IsPlain (b % 16 * 4 + c / 64) (omega arith),
      (table-IsPlain (c % 64) (omega arith), encoded-IsField src hs),
    ),
  ),
)

digit-InLine : (d : ℕ) → InLine (b'0' + d)
digit-InLine d = (above_controls (b'0' + d) (omega arith)).0

digits-IsLine : (rounds n : ℕ) (out : Bytes) → IsLine out → IsLine (digits rounds n out)
unfolding digits
digits-IsLine zero n out h = h
digits-IsLine (suc rounds) n out h = elim (Bool-cases (n / 10 == 0)) [
  | inl e ↦ rw e (digit-InLine (n % 10), h)
  | inr e ↦ rw e (digits-IsLine rounds (n / 10) ((b'0' + n % 10) ∷ out) (digit-InLine (n % 10), h))
]

pub print_long-IsLine : (n : ℤ) → IsLine (print_long n)
unfolding print_long
print_long-IsLine (pos n) = digits-IsLine (suc n) n [] tt
print_long-IsLine (negsuc n) =
    ((above_controls b'-' (omega arith)).0, digits-IsLine (suc (suc n)) (suc n) [] tt)

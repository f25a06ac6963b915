-- ===== src/LogParse/Regex/Fields.antt =====
-- applets/log_parse/log_regex.c, `log_regex_split_fields`: which lists of names it reads.
use mathlib.Core.Path.{subst}
use mathlib.Core.List.{append_assoc, append-nil}
use ws_pipeline_dispatcher.Prelude.{
  ℕ, suc, ◌*◌, ◌≤◌, ◌<◌, Bool, true, false, List, [], ◌∷◌, ◌++◌, ◌≡◌, ◌≢◌, ◌↔◌, refl, sym, ap, ◌∙◌,
  inl, inr, none, some, arith, ◌==◌, ==_iff, if◌then◌else◌, Bool-cases, length, Bytes,
}
use ws_pipeline_dispatcher.DynamicBuffer.{Heap}
use ws_pipeline_dispatcher.LogParse.Regex.{comma_count, put_token, tokens, split_fields}

-- The names with commas between them.
abbrev pub join_more : List Bytes → Bytes
join_more [] = []
join_more (name ∷ names) = b',' ∷ (name ++ join_more names)

abbrev pub join : List Bytes → Bytes
join [] = []
join (name ∷ names) = name ++ join_more names

abbrev NoComma : Bytes → Type 0
NoComma [] = Unit
NoComma (c ∷ s) = (c ≢ b',') × NoComma s

abbrev IsFieldName : Bytes → Type 0
IsFieldName s = (0 < length s) × NoComma s

abbrev AllFieldNames : List Bytes → Type 0
AllFieldNames [] = Unit
AllFieldNames (name ∷ names) = IsFieldName name × AllFieldNames names

-- At least one name, and none that is empty or has a comma.
abbrev pub IsFieldList : List Bytes → Type 0
IsFieldList names = (0 < length names) × AllFieldNames names

NoComma-concat : (s : Bytes) (c : ℕ) → NoComma s → c ≢ b',' → NoComma (s ++ c ∷ [])
NoComma-concat [] c h n = (n, tt)
NoComma-concat (d ∷ s) c (m, h) n = (m, NoComma-concat s c h n)

-- The tokens number at most the commas and one more, and if they are as many, they are the text.
record Splits (token s : Bytes) : Type 0 where
  few : length (tokens token s) ≤ comma_count s
  whole :
      length (tokens token s) ≡ comma_count s
      → (join (tokens token s) ≡ token ++ s) × IsFieldList (tokens token s)

comma_count_pos : (s : Bytes) → 0 < comma_count s
unfolding comma_count
comma_count_pos [] = omega arith
comma_count_pos (c ∷ s) = ground (arith, comma_count_pos s)

put_token-few :
    (token : Bytes) (ts : List Bytes) (n : ℕ) → length ts ≤ n → length (put_token token ts) ≤ suc n
put_token-few [] ts n h = omega arith
put_token-few (c ∷ token) ts n h = omega arith

-- A full count leaves no token empty.
put_token-whole :
    (token : Bytes) (ts : List Bytes) (s : Bytes) (n : ℕ)
    → NoComma token
    → length ts ≤ n
    → (length ts ≡ n → (join ts ≡ s) × IsFieldList ts)
    → length (put_token token ts) ≡ suc n
    → (join (put_token token ts) ≡ token ++ b',' ∷ s) × IsFieldList (put_token token ts)
put_token-whole [] ts s n free few h e = absurd (omega arith)
put_token-whole (c ∷ token) [] s n free few h e =
    let (_, (some_name, _)) = h (omega arith) in absurd (omega arith)
put_token-whole (c ∷ token) (t ∷ ts) s n free few h e =
    let (joined, (_, names)) = h (omega arith) in
    (ap (λ r. (c ∷ token) ++ b',' ∷ r) joined, (omega arith, ((omega arith, free), names)))

tokens-Splits : (s token : Bytes) → NoComma token → Splits token s
unfolding tokens comma_count
tokens-Splits [] [] free = record { few = omega arith; whole = λ e. absurd (omega arith) }
tokens-Splits [] (c ∷ token) free = record {
  few = omega arith;
  whole = λ e. (refl, (omega arith, ((omega arith, free), tt)));
}
tokens-Splits (c ∷ s) token free = elim (Bool-cases (c == b',')) [
  | inl comma ↦
      let rest = tokens-Splits s [] tt in
      let same : c ≡ b',' = (==_iff c b',').0 comma in
      rw same (record {
        few = put_token-few token (tokens [] s) (comma_count s) rest.few;
        whole = put_token-whole token (tokens [] s) s (comma_count s) free rest.few rest.whole;
      })
  | inr other ↦
      let more = tokens-Splits s (token ++ c ∷ []) (NoComma-concat token c free (ground arith)) in
      let goes : tokens token (c ∷ s) ≡ tokens (token ++ c ∷ []) s = rw other refl in
      let counts : comma_count (c ∷ s) ≡ comma_count s = rw other refl in
      record {
        few = rw (goes, counts) more.few;
        whole =
            rw (goes, counts)
              (λ e.
                let (text, names) = more.whole e in (text ∙ append_assoc token (c ∷ []) s, names));
      }
]

tokens-name :
    (name token s : Bytes) → NoComma name → tokens token (name ++ s) ≡ tokens (token ++ name) s
unfolding tokens
tokens-name [] token s h = ap (λ t. tokens t s) (sym (append-nil token))
tokens-name (c ∷ name) token s (n, h) =
    let other : (c == b',') ≡ false = ground arith in
    rw other (
      tokens-name name (token ++ c ∷ []) s h
      ∙ ap (λ t. tokens t s) (append_assoc token (c ∷ []) name))

comma_count-name : (name s : Bytes) → NoComma name → comma_count (name ++ s) ≡ comma_count s
unfolding comma_count
comma_count-name [] s h = refl
comma_count-name (c ∷ name) s (n, h) =
    let other : (c == b',') ≡ false = ground arith in rw other (comma_count-name name s h)

put_name : (name : Bytes) (ts : List Bytes) → 0 < length name → put_token name ts ≡ name ∷ ts
put_name [] ts h = absurd (omega arith)
put_name (c ∷ name) ts h = refl

tokens-join :
    (name : Bytes) (names : List Bytes)
    → IsFieldName name
    → AllFieldNames names
    → (tokens [] (join (name ∷ names)) ≡ name ∷ names)
      × (comma_count (join (name ∷ names)) ≡ suc (length names))
unfolding tokens comma_count
tokens-join name [] (some_name, free) h =
    (tokens-name name [] [] free ∙ put_name name [] some_name, comma_count-name name [] free)
tokens-join name (next ∷ names) (some_name, free) (next_name, h) =
    let (ts, n) = tokens-join next names next_name h in
    (
      tokens-name name [] (join_more (next ∷ names)) free
          ∙ put_name name (tokens [] (join (next ∷ names))) some_name
          ∙ ap (λ t. name ∷ t) ts,
      comma_count-name name (join_more (next ∷ names)) free ∙ ap suc n,
    )

-- With the memory for it, the list of field names is read as names exactly if it is those names
-- with commas between them, at least one, none empty and none with a comma.
pub split_fields_lem :
    (heap : Heap) (arg : Bytes) (names : List Bytes)
    → heap.grants (comma_count arg * 8) ≡ true
    → (split_fields heap arg ≡ some names) ↔ ((arg ≡ join names) × IsFieldList names)
unfolding split_fields
split_fields_lem heap arg names granted =
    let all = tokens-Splits arg [] tt in
    (
      λ e.
          let (count, same) = kept (length (tokens [] arg) == comma_count arg) (rw granted at e) in
          let (text, list) = all.whole ((==_iff _ _).0 count) in
          (sym text ∙ ap join same, subst IsFieldList same list),
      λ h. back names h.0 h.1,
    )
  where
    kept :
        (b : Bool)
        → (if b then some (tokens [] arg) else none) ≡ some names
        → (b ≡ true) × (tokens [] arg ≡ names)
    kept true e = (refl, cc)
    kept false e = absurd (cc)

    back :
        (ns : List Bytes)
        → arg ≡ join ns
        → IsFieldList ns
        → (if heap.grants (comma_count arg * 8)
            then if length (tokens [] arg) == comma_count arg then some (tokens [] arg) else none
            else none)
          ≡ some ns
    back [] e (some_name, h) = absurd (omega arith)
    back (name ∷ ns) e (_, (first, h)) =
        let (ts, n) = tokens-join name ns first h in
        let ts' : tokens [] arg ≡ name ∷ ns = ap (tokens []) e ∙ ts in
        let full : (length (tokens [] arg) == comma_count arg) ≡ true =
          (==_iff _ _).1 (ap length ts' ∙ sym (ap comma_count e ∙ n)) in
        rw (granted, full) (ap some ts')

-- ===== src/Library/Inotify/Events.antt =====
-- lib/libpipeline.c, `lp_consume_inotify_events`: what the walk finds in reads of whole events.
use mathlib.Core.List.{append_assoc}
use ws_pipeline_dispatcher.Prelude.{
  ℕ, zero, suc, ◌+◌, ◌/◌, ◌%◌, ◌^◌, ◌<◌, Bool, true, false, ◌&&◌, ◌||◌, ◌≢◌, ◌==◌, List, [], ◌∷◌,
  ◌++◌, ◌≡◌, inl, inr, refl, sym, ap, ◌∙◌, some, arith, ltb, leb, if◌then◌else◌, length,
  length-append, length-replicate, drop, drop-append, length-drop, replicate, Bytes, Bool-cases,
  equal, map,
}
use ws_pipeline_dispatcher.ClipStore.Format.{c_string}
use ws_pipeline_dispatcher.Dispatcher.Applet.{base_name, behind_slash}
use ws_pipeline_dispatcher.Library.{is_completed_session}
use ws_pipeline_dispatcher.Library.Inotify.{
  le32, header_size, walk, Stop, stop_status, consume_inotify_events,
}

-- An event with its name and the NULs behind it.
pub record Event : Type 0 where
  pub head : Bytes
  pub name : Bytes
  pub nuls : ℕ

abbrev pub name_size : Event → ℕ
name_size e = length e.name + e.nuls

-- No event without a NUL behind its name, if it has one.
abbrev pub IsName : Bytes → Type 0
IsName [] = Unit
IsName (c ∷ s) = (c ≢ 0) × IsName s

pub record IsEvent (e : Event) : Type 0 where
  pub head_size : length e.head ≡ 12
  pub name_bytes : IsName e.name
  pub ended : (0 < length e.name) → 0 < e.nuls
  pub fits : name_size e < 2 ^ 32

abbrev pub le32_bytes : ℕ → Bytes
le32_bytes n = n % 256 ∷ n / 256 % 256 ∷ n / 65536 % 256 ∷ n / 16777216 ∷ []

abbrev pub encode : Event → Bytes
encode e = e.head ++ (le32_bytes (name_size e) ++ (e.name ++ replicate e.nuls 0))

abbrev pub encode_all : List Event → Bytes
encode_all [] = []
encode_all (e ∷ es) = encode e ++ encode_all es

-- Some event has the sentinel's name.
abbrev pub any_sentinel : List Event → Bool
any_sentinel [] = false
any_sentinel (e ∷ es) = is_completed_session e.name || any_sentinel es

abbrev pub AllEvents : List Event → Type 0
AllEvents [] = Unit
AllEvents (e ∷ es) = IsEvent e × AllEvents es

drop_prefix : (n : ℕ) (xs ys : Bytes) → length xs ≡ n → drop n (xs ++ ys) ≡ ys
drop_prefix n xs ys e = rw (sym e) (drop-append xs ys)

le32-bytes : (n : ℕ) (s : Bytes) → n < 2 ^ 32 → le32 (le32_bytes n ++ s) ≡ n
le32-bytes n s h = omega arith

c_string-name : (name s : Bytes) → IsName name → c_string (name ++ 0 ∷ s) ≡ name
unfolding c_string
c_string-name [] s h = refl
c_string-name (c ∷ name) s (n, h) =
    let other : (c == 0) ≡ false = ground arith in rw (other, c_string-name name s h) refl

length-encode : (e : Event) → IsEvent e → length (encode e) ≡ header_size + name_size e
length-encode e h =
    let n = le32_bytes (name_size e) in
    let tail = e.name ++ replicate e.nuls 0 in
    omega (
      arith,
      h.head_size,
      length-append e.head (n ++ tail),
      length-append n tail,
      length-append e.name (replicate e.nuls 0),
      length-replicate {A = ℕ} e.nuls 0,
    )

some_suc : (n : ℕ) → 0 < n → (k : ℕ) × (n ≡ suc k)
some_suc zero h = absurd (omega arith)
some_suc (suc n) h = (n, refl)

empty_is_none : is_completed_session [] ≡ false
unfolding is_completed_session base_name behind_slash equal
empty_is_none = refl

no_sentinel : (s : Bytes) → length s ≡ 0 → is_completed_session s ≡ false
no_sentinel [] h = empty_is_none
no_sentinel (c ∷ s) h = absurd (omega arith)

module _ (e : Event) (tail : Bytes) (h : IsEvent e) where
  abbrev body : Bytes
  body = e.name ++ replicate e.nuls 0

  drop-head : le32 (drop 12 (encode e ++ tail)) ≡ name_size e
  drop-head =
      let n = le32_bytes (name_size e) in
      ap (λ s. le32 (drop 12 s)) (append_assoc e.head (n ++ body) tail)
      ∙ ap le32 (drop_prefix 12 e.head ((n ++ body) ++ tail) h.head_size)
      ∙ le32-bytes (name_size e) (body ++ tail) h.fits

  drop-event : drop (header_size + name_size e) (encode e ++ tail) ≡ tail
  drop-event = drop_prefix (header_size + name_size e) (encode e) tail (length-encode e h)

  drop-header : drop header_size (encode e ++ tail) ≡ body ++ tail
  drop-header =
      let n = le32_bytes (name_size e) in
      let long : length (e.head ++ n) ≡ header_size =
        omega (arith, length-append e.head n, h.head_size) in
      ap (drop header_size)
        (append_assoc e.head (n ++ body) tail ∙ sym (append_assoc e.head n (body ++ tail)))
      ∙ drop_prefix header_size (e.head ++ n) (body ++ tail) long

  ended_name : 0 < e.nuls → c_string (body ++ tail) ≡ e.name
  ended_name more =
      let (k, succ) = some_suc e.nuls more in
      ap c_string (
        append_assoc e.name (replicate e.nuls 0) tail
        ∙ ap (λ n. e.name ++ (replicate n 0 ++ tail)) succ)
      ∙ c_string-name e.name (replicate k 0 ++ tail) h.name_bytes

  found_lem :
      (ltb 0 (name_size e) && is_completed_session (c_string (drop header_size (encode e ++ tail))))
      ≡ is_completed_session e.name
  found_lem = elim (Bool-cases (ltb 0 (name_size e))) [
    | inl long ↦
        let more : 0 < e.nuls = ground (arith, h.ended) in
        rw long (ap is_completed_session (ap c_string drop-header ∙ ended_name more))
    | inr short ↦ rw short (sym (no_sentinel e.name (ground arith)))
  ]

-- An event takes at least 16 bytes, so a round for each byte is enough.
walk_total :
    (rounds : ℕ) (rest : Bytes) (seen : Bool)
    → length rest < rounds
    → (seen' : Bool) × (walk rounds rest seen ≡ some seen')
unfolding walk
walk_total zero rest seen h = absurd (omega arith)
walk_total (suc rounds) rest seen h = elim (Bool-cases (leb header_size (length rest))) [
  | inr e ↦ (seen, rw e refl)
  | inl e ↦
      let len = le32 (drop 12 rest) in
      let found = ltb 0 len && is_completed_session (c_string (drop header_size rest)) in
      let (seen', eq) =
        walk_total rounds (drop (header_size + len) rest) (if found then true else seen)
          (ground (arith, length-drop (header_size + len) rest)) in
      (seen', rw e eq)
]

abbrev pub either : Bool → Bool → Bool
either found seen = if found then true else seen

either_or : (a b seen : Bool) → either b (either a seen) ≡ either (a || b) seen
either_or a b seen = ground arith

walk-encode :
    (rounds : ℕ) (es : List Event) (seen : Bool)
    → AllEvents es
    → length (encode_all es) < rounds
    → walk rounds (encode_all es) seen ≡ some (either (any_sentinel es) seen)
unfolding walk
walk-encode zero es seen h room = absurd (omega arith)
walk-encode (suc rounds) [] seen h room = refl
walk-encode (suc rounds) (e ∷ es) seen (h, hs) room =
    let size = length-encode e h in
    let whole = length-append (encode e) (encode_all es) in
    let more : leb header_size (length (encode e ++ encode_all es)) ≡ true = ground arith in
    let last = walk-encode rounds es (either (is_completed_session e.name) seen) hs (omega arith) in
    rw
      (
        more,
        drop-head e (encode_all es) h,
        found_lem e (encode_all es) h,
        drop-event e (encode_all es) h,
      )
      (last ∙ ap some (either_or (is_completed_session e.name) (any_sentinel es) seen))

abbrev pub any_batch : List (List Event) → Bool
any_batch [] = false
any_batch (es ∷ batches) = any_sentinel es || any_batch batches

abbrev pub AllBatches : List (List Event) → Type 0
AllBatches [] = Unit
AllBatches (es ∷ batches) = AllEvents es × AllBatches batches

-- A call on inotify reads ends, whatever bytes the reads return, and it returns 0 exactly if the
-- last read does not fail. On reads of whole events it sets the flag exactly if it was set or
-- one of them has the sentinel's name.
pub consume_lem :
    (reads : List Bytes) (batches : List (List Event)) (stop : Stop) (seen : Bool)
    → AllBatches batches
    → ((seen' : Bool) × (consume_inotify_events reads stop seen ≡ some (stop_status stop, seen')))
      × (consume_inotify_events (map encode_all batches) stop seen
          ≡ some (stop_status stop, either (any_batch batches) seen))
unfolding consume_inotify_events
consume_lem reads batches stop seen h = (consumes reads seen, on_events batches seen h)
  where
    consumes :
        (reads : List Bytes) (seen : Bool)
        → (seen' : Bool) × (consume_inotify_events reads stop seen ≡ some (stop_status stop, seen'))
    consumes [] seen = (seen, refl)
    consumes (buf ∷ reads) seen =
        let (next, e) = walk_total (suc (length buf)) buf seen (omega arith) in
        let (seen', eq) = consumes reads next in (seen', rw e eq)

    on_events :
        (batches : List (List Event)) (seen : Bool)
        → AllBatches batches
        → consume_inotify_events (map encode_all batches) stop seen
          ≡ some (stop_status stop, either (any_batch batches) seen)
    on_events [] seen h = refl
    on_events (es ∷ batches) seen (h, hs) =
        rw (walk-encode (suc (length (encode_all es))) es seen h (omega arith)) (
          on_events batches (either (any_sentinel es) seen) hs
          ∙ ap (λ b. some (stop_status stop, b))
              (either_or (any_sentinel es) (any_batch batches) seen))

-- ===== src/Dispatcher/Applet.antt =====
-- applets/main.c: the applet that a command line runs.
use ws_pipeline_dispatcher.Prelude.{
  false, List, [], ◌∷◌, ◌++◌, ◌≡◌, ◌≢◌, refl, ◌||◌, arith, Bool-cases, inl, inr, ◌==◌,
  if◌then◌else◌, Bytes, codes, equal,
}

-- What `main` does: it runs an applet on an argument list, prints its usage, does not find the
-- applet, or returns 1 where there is no program name.
pub data Choice : Type 0 where
  pipeline_dispatcher stream_merge log_parse clip_store : List Bytes → Choice
  usage : Choice
  not_found : Bytes → Choice
  no_name : Choice

-- The text behind the last `/` of `s`, or `name` where there is none.
unfoldable pub behind_slash : Bytes → Bytes → Bytes
behind_slash name [] = name
behind_slash name (c ∷ s) = if c == b'/' then behind_slash s s else behind_slash name s

-- `strrchr(argv[0], '/')`, and the name behind it.
unfoldable pub base_name : Bytes → Bytes
base_name path = behind_slash path path

unfoldable pub run_applet : Bytes → List Bytes → Choice
run_applet name argv =
    if equal name (codes "pipeline_dispatcher")
    then pipeline_dispatcher argv
    else if equal name (codes "stream_merge")
    then stream_merge argv
    else if equal name (codes "log_parse")
    then log_parse argv
    else if equal name (codes "clip_store")
    then clip_store argv
    else not_found name

-- A call as the single binary: the applet is the next argument.
unfoldable pub run_box : List Bytes → Choice
run_box [] = usage
run_box (name ∷ args) = run_applet name (name ∷ args)

-- `main`
unfoldable pub choose : List Bytes → Choice
choose [] = no_name
choose (path ∷ args) =
    let name = base_name path in
    if equal name (codes "box") || equal name (codes "busybox")
    then run_box args
    else run_applet name (path ∷ args)

abbrev pub NoSlash : Bytes → Type 0
NoSlash [] = Unit
NoSlash (c ∷ s) = (c ≢ b'/') × NoSlash s

behind_slash-NoSlash : (name s : Bytes) → NoSlash s → behind_slash name s ≡ name
unfolding behind_slash
behind_slash-NoSlash name [] h = refl
behind_slash-NoSlash name (c ∷ s) (n, h) =
    let other : (c == b'/') ≡ false = ground arith in rw other (behind_slash-NoSlash name s h)

pub behind_slash-append : (name dir s : Bytes) → NoSlash s → behind_slash name (dir ++ b'/' ∷ s) ≡ s
unfolding behind_slash
behind_slash-append name [] s h = behind_slash-NoSlash s s h
behind_slash-append name (c ∷ dir) s h = elim (Bool-cases (c == b'/')) [
  | inl e ↦ rw e (behind_slash-append (dir ++ b'/' ∷ s) dir s h)
  | inr e ↦ rw e (behind_slash-append name dir s h)
]

-- The arguments of a choice, without the name that stands first.
abbrev pub SameApplet : Choice → Choice → Type 0
SameApplet (pipeline_dispatcher (_ ∷ xs)) (pipeline_dispatcher (_ ∷ ys)) = xs ≡ ys
SameApplet (stream_merge (_ ∷ xs)) (stream_merge (_ ∷ ys)) = xs ≡ ys
SameApplet (log_parse (_ ∷ xs)) (log_parse (_ ∷ ys)) = xs ≡ ys
SameApplet (clip_store (_ ∷ xs)) (clip_store (_ ∷ ys)) = xs ≡ ys
SameApplet (not_found name) (not_found name') = name ≡ name'
SameApplet usage usage = Unit
SameApplet _ _ = ⊥

run_applet-same :
    (name p q : Bytes) (args : List Bytes)
    → SameApplet (run_applet name (p ∷ args)) (run_applet name (q ∷ args))
unfolding run_applet
run_applet-same name p q args = elim (Bool-cases (equal name (codes "pipeline_dispatcher"))) [
  | inl a ↦ rw a refl
  | inr a ↦ elim (Bool-cases (equal name (codes "stream_merge"))) [
    | inl b ↦ rw (a, b) refl
    | inr b ↦ elim (Bool-cases (equal name (codes "log_parse"))) [
      | inl c ↦ rw (a, b, c) refl
      | inr c ↦ elim (Bool-cases (equal name (codes "clip_store"))) [
        | inl d ↦ rw (a, b, c, d) refl
        | inr d ↦ rw (a, b, c, d) refl
      ]
    ]
  ]
]

run_box-same : (args : List Bytes) → SameApplet (run_box args) (run_box args)
unfolding run_box
run_box-same [] = tt
run_box-same (name ∷ args) = run_applet-same name name name args

-- A program path in any directory runs the same applet with the same arguments as the name
-- alone, if the name has no slash.
pub path_lem :
    (dir name : Bytes) (args : List Bytes)
    → NoSlash name
    → SameApplet (choose ((dir ++ b'/' ∷ name) ∷ args)) (choose (name ∷ args))
unfolding choose base_name
path_lem dir name args h =
    let long : base_name (dir ++ b'/' ∷ name) ≡ name = behind_slash-append _ dir name h in
    let short : base_name name ≡ name = behind_slash-NoSlash name name h in
    rw (long, short)
      (elim (Bool-cases (equal name (codes "box") || equal name (codes "busybox"))) [
        | inl e ↦ rw e (run_box-same args)
        | inr e ↦ rw e (run_applet-same name (dir ++ b'/' ∷ name) name args)
      ])

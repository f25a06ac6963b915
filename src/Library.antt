-- ===== src/Library.antt =====
-- lib/libpipeline.c: paths of a session, the sentinel's name, and inotify reads. NULL arguments are
-- left out.
pub mod Inotify
pub mod Tests
use ws_pipeline_dispatcher.Prelude.{
  ℕ, ◌+◌, ◌-◌, ◌*◌, ◌/◌, ◌^◌, Bool, true, false, [], ◌∷◌, ◌++◌, ◌≡◌, ◌<◌, sym, ap, ◌∙◌, ◌↔◌, Option,
  none, some, arith, ltb, if◌then◌else◌, length, take, Bytes, codes, equal, equal_iff,
}
use ws_pipeline_dispatcher.Dispatcher.Applet.{base_name, behind_slash-append, NoSlash}

-- PIPELINE_SENTINEL_NAME
abbrev pub sentinel_name : Bytes
sentinel_name = codes ".pipeline_end"

-- PATH_MAX
abbrev pub path_max : ℕ
path_max = 4096

-- `lp_is_completed_session`
unfoldable pub is_completed_session : Bytes → Bool
is_completed_session filename = equal (base_name filename) sentinel_name

-- `lp_build_artifact_path` into a buffer of `size` bytes; `none` stands for -1. A length that
-- `int` does not hold is over the size of every buffer that the callers pass.
unfoldable pub build_artifact_path : ℕ → Bytes → Bytes → Option Bytes
build_artifact_path size dir name =
    let path = dir ++ b'/' ∷ name in if ltb (length path) size then some path else none

-- `lp_strndup` of the first `len` bytes at `src`; `granted` tells if `malloc` succeeds.
unfoldable pub strndup : Bool → Bytes → ℕ → Option Bytes
strndup granted src len =
    if ltb (2 ^ 64 - 2) len then none else if granted then some (take len src) else none

-- `pipeline_get_monotonic_time_ms`, from the seconds and nanoseconds of `clock_gettime`, if it
-- succeeds.
unfoldable pub monotonic_time_ms : Option (ℕ × ℕ) → ℕ
monotonic_time_ms none = 0
monotonic_time_ms (some (sec, nsec)) = sec * 1000 + nsec / 1000000

-- A built path has its NUL within the buffer, and it is a sentinel's path exactly if the name in
-- the directory is the sentinel's.
pub build_artifact_path_lem :
    (size : ℕ) (dir name path : Bytes)
    → NoSlash name
    → build_artifact_path size dir name ≡ some path
    → (length path < size) × ((is_completed_session path ≡ true) ↔ (name ≡ sentinel_name))
unfolding build_artifact_path is_completed_session base_name
build_artifact_path_lem size dir name path n e =
    let whole = dir ++ b'/' ∷ name in
    let fits : (length whole < size) × (whole ≡ path) = ground arith in
    let base : base_name path ≡ name =
      ap base_name (sym fits.1) ∙ behind_slash-append whole dir name n in
    (rw (sym fits.1) fits.0, rw base (equal_iff name sentinel_name))

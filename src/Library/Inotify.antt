-- ===== src/Library/Inotify.antt =====
-- lib/libpipeline.c, `lp_consume_inotify_events`: the walk over the events that reads return. An
-- event is `struct inotify_event`, 16 bytes with the length of the name in the last 4, and the name.
pub mod Events
use ws_pipeline_dispatcher.Prelude.{
  ℕ, zero, suc, ◌+◌, ◌*◌, Bool, true, false, ◌&&◌, ◌>>=◌, List, [], ◌∷◌, Option, none, some, ltb,
  leb, if◌then◌else◌, length, drop, Bytes,
}
use ws_pipeline_dispatcher.ClipStore.Format.{c_string}
use ws_pipeline_dispatcher.Library.{is_completed_session}

-- A little-endian number of 4 bytes.
abbrev pub le32 : Bytes → ℕ
le32 (a ∷ b ∷ c ∷ d ∷ s) = a + 256 * (b + 256 * (c + 256 * d))
le32 s = 0

-- `sizeof(struct inotify_event)`
abbrev pub header_size : ℕ
header_size = 16

-- The events from `off` on, where `rest` is the text from there to `got`, on the rounds left;
-- `seen` is `*saw_sentinel`.
unfoldable pub walk : ℕ → Bytes → Bool → Option Bool
walk zero rest seen = none
walk (suc rounds) rest seen =
    let len = le32 (drop 12 rest) in
    let found = ltb 0 len && is_completed_session (c_string (drop header_size rest)) in
    let again = walk rounds (drop (header_size + len) rest) (if found then true else seen) in
    if leb header_size (length rest) then again else some seen

-- What the last `read` of a call returns: 0, -1 with EAGAIN, or -1 with another error.
pub data Stop : Type 0 where
  at_end would_block failing : Stop

abbrev pub stop_status : Stop → Bool
stop_status at_end = true
stop_status would_block = true
stop_status failing = false

-- `lp_consume_inotify_events` over the reads before the last one; `true` stands for 0 and `false`
-- for -1. A walk has a round for each byte.
unfoldable pub consume_inotify_events : List Bytes → Stop → Bool → Option (Bool × Bool)
unfolding walk
consume_inotify_events [] stop seen = some (stop_status stop, seen)
consume_inotify_events (buf ∷ reads) stop seen =
    walk (suc (length buf)) buf seen >>= λ seen'. consume_inotify_events reads stop seen'

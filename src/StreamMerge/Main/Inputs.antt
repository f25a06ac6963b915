-- ===== src/StreamMerge/Main/Inputs.antt =====
-- applets/stream_merge/stream_merge.c, `stream_merge_main`: which records and idle checks the rounds
-- of the loop stand for, told from the bytes that they read and the calls of the clock alone.
use ws_pipeline_dispatcher.Prelude.{
  ℕ, ◌+◌, Bool, true, false, ◌>>=◌, if◌then◌else◌, List, [], ◌∷◌, ◌++◌, Option, none, some, length,
  Bytes,
}
use ws_pipeline_dispatcher.Library.Inotify.{Stop, consume_inotify_events}
use ws_pipeline_dispatcher.StreamMerge.Session.{Input, idle}
use ws_pipeline_dispatcher.StreamMerge.Emit.{Env}
use ws_pipeline_dispatcher.StreamMerge.Drain.{Reads}
use ws_pipeline_dispatcher.StreamMerge.Drain.Lines.{lines_of}
use ws_pipeline_dispatcher.StreamMerge.Drain.Refines.{inputs_of}
use ws_pipeline_dispatcher.StreamMerge.Drain.Reading.{bytes_of}
use ws_pipeline_dispatcher.StreamMerge.Main.{Round, interrupted, failing, ready, sentinel_exists}

-- The inputs so far, the text behind the last whole line, and how often the clock was read.
pub record Progress : Type 0 where
  pub inputs : List Input
  pub rest : Bytes
  pub ticks : ℕ

-- The bytes of the metadata file that a round reads.
abbrev pub round_bytes : Round → Bytes
round_bytes interrupted = []
round_bytes failing = []
round_bytes (ready none dir access) = []
round_bytes (ready (some (reads, stop)) dir access) = bytes_of reads

abbrev pub rounds_bytes : List Round → Bytes
rounds_bytes [] = []
rounds_bytes (r ∷ rounds) = round_bytes r ++ rounds_bytes rounds

-- The clock is read for the timeout of `poll`.
abbrev pub tick : Progress → Progress
tick p = record p { ticks = p.ticks + 1 }

module _ (env : Env) where
  -- Bytes are read: the data records of the lines that are whole now, each with a time.
  abbrev pub read_on : Bytes → Progress → Progress
  read_on bytes p =
      let lines = lines_of (p.rest ++ bytes) in
      let more = inputs_of env lines.0 p.ticks in
      record { inputs = p.inputs ++ more; rest = lines.1; ticks = p.ticks + length more }

  -- An idle check at the time that the clock tells now.
  abbrev pub check_now : Progress → Progress
  check_now p = record p { inputs = p.inputs ++ idle (env.clock p.ticks) ∷ []; ticks = p.ticks + 1 }

  abbrev pub read_if : Option (Reads × Stop) → Progress → Progress
  read_if none p = p
  read_if (some (reads, stop)) p = read_on (bytes_of reads) p

  -- A round in which `poll` was interrupted has no idle check, and every other one has one at its
  -- end.
  abbrev pub round_on : Round → Progress → Progress
  round_on interrupted p = tick p
  round_on failing p = tick p
  round_on (ready meta dir access) p = check_now (read_if meta (tick p))

  abbrev pub rounds_on : List Round → Progress → Progress
  rounds_on [] p = p
  rounds_on (r ∷ rounds) p = rounds_on rounds (round_on r p)

  -- The events or the directory itself tell that the sentinel is there, or it was seen before.
  abbrev pub seen_with : (Bytes → Bool) → Option Bool → Bool
  seen_with access none = false
  seen_with access (some saw) = if sentinel_exists access env.src then true else saw

  abbrev pub sees : Round → Bool → Bool
  sees interrupted saw = saw
  sees failing saw = saw
  sees (ready meta none access) saw = seen_with access (some saw)
  sees (ready meta (some (reads, stop)) access) saw =
      seen_with access (consume_inotify_events reads stop saw >>= λ r. some r.1)

  -- The rounds up to the one in which the sentinel is seen.
  abbrev pub until_seen : List Round → Bool → List Round
  until_seen [] saw = []
  until_seen (r ∷ rounds) true = []
  until_seen (r ∷ rounds) false = r ∷ until_seen rounds (sees r false)

  -- The inputs of a session: those of the first drain, of the rounds, and of the last drain.
  abbrev pub session_inputs : Bytes → List Round → Bytes → List Input
  session_inputs first rounds last =
      let opened = read_on first (record { inputs = []; rest = []; ticks = 0 }) in
      (read_on last (rounds_on rounds opened)).inputs

-- ===== src/StreamMerge/Main.antt =====
-- applets/stream_merge/stream_merge.c, `stream_merge_main` from the opened files on: the loop over
-- `poll`, the idle check, and the final flush. What a round of the loop sees is given: what `poll`
-- reports, the reads, and the files that exist.
pub mod Records
pub mod Inputs
pub mod Ran
pub mod Rounds
pub mod Session
pub mod Ends
pub mod Tests
use ws_pipeline_dispatcher.Prelude.{
  ℕ, ◌+◌, Bool, true, false, ◌||◌, List, [], ◌∷◌, Option, none, some, if◌then◌else◌, ◌>>=◌, Bytes,
}
use ws_pipeline_dispatcher.Prelude.Int.{ℤ}
use ws_pipeline_dispatcher.Library.{build_artifact_path, sentinel_name, path_max}
use ws_pipeline_dispatcher.Library.Inotify.{Stop, consume_inotify_events}
use ws_pipeline_dispatcher.StreamMerge.Records.{Outcome, zero_fsm, zero_clip}
use ws_pipeline_dispatcher.StreamMerge.Fsm.{fsm_check_idle, fsm_flush_final}
use ws_pipeline_dispatcher.StreamMerge.Emit.{Env, handle_action, fresh_buffer}
use ws_pipeline_dispatcher.StreamMerge.Drain.{Drain, Reads, drain_meta}

-- The path of the sentinel file exists, if it fits the buffer; `access` tells which files do.
abbrev pub exists_at : (Bytes → Bool) → Option Bytes → Bool
exists_at access none = false
exists_at access (some path) = access path

-- `sentinel_exists`
unfoldable pub sentinel_exists : (Bytes → Bool) → Bytes → Bool
sentinel_exists access src = exists_at access (build_artifact_path path_max src sentinel_name)

-- A round of the loop: `poll` is interrupted or fails, or it reports the metadata file, the
-- directory, both or none, with what the calls for each read, and `access` at its end.
pub data Round : Type 0 where
  interrupted failing : Round
  ready : Option (Reads × Stop) → Option (List Bytes × Stop) → (Bytes → Bool) → Round

-- The state and the sentinel flag behind a round, or a return of 1.
pub data Loop : Type 0 where
  going : Drain → Bool → Loop
  broken : Drain → Loop

module _ (env : Env) (clip_ms idle_ms : ℤ) where
  -- The print for an action, from a new state of the machine.
  abbrev pub act : Drain → Outcome → Drain × Bool
  act st o =
      let printed = handle_action env o.action o.out st.out in
      (record st { fsm = o.fsm; out = printed.0 }, printed.1)

  -- `check_idle`; `true` stands for 0 and `false` for -1.
  unfoldable pub check_idle : Drain → Drain × Bool
  check_idle st =
      act (record st { ticks = st.ticks + 1 })
        (fsm_check_idle st.fsm idle_ms (env.clock st.ticks) zero_clip)

  abbrev pub drain_if : Drain → Option (Reads × Stop) → Option (Drain × Bool)
  drain_if st none = some (st, true)
  drain_if st (some (reads, stop)) = drain_meta env clip_ms st reads stop

  -- A failing read of events is only logged.
  abbrev pub watch_if : Bool → Option (List Bytes × Stop) → Option Bool
  watch_if saw none = some saw
  watch_if saw (some (reads, stop)) = consume_inotify_events reads stop saw >>= λ r. some r.1

  abbrev pub after_check : Bool → Drain × Bool → Loop
  after_check saw (st, true) = going st saw
  after_check saw (st, false) = broken st

  abbrev pub after_drain :
      Bool → Option (List Bytes × Stop) → (Bytes → Bool) → Drain × Bool → Option Loop
  after_drain saw dir access (st, false) = some (broken st)
  after_drain saw dir access (st, true) = watch_if saw dir >>= λ saw'.
      some (after_check (if sentinel_exists access env.src then true else saw') (check_idle st))

  -- A round, with the time that it reads for the timeout.
  unfoldable pub loop_round : Round → Drain → Bool → Option Loop
  unfolding check_idle sentinel_exists
  loop_round interrupted st saw = some (going (record st { ticks = st.ticks + 1 }) saw)
  loop_round failing st saw = some (broken (record st { ticks = st.ticks + 1 }))
  loop_round (ready meta dir access) st saw =
      drain_if (record st { ticks = st.ticks + 1 }) meta >>= after_drain saw dir access

  abbrev pub go_round : (Drain → Bool → Option Loop) → Loop → Option Loop
  go_round next (going st saw) = next st saw
  go_round next (broken st) = some (broken st)

  -- The loop over the rounds, until the sentinel is seen.
  unfoldable pub main_loop : List Round → Drain → Bool → Option Loop
  unfolding loop_round
  main_loop [] st saw = some (going st saw)
  main_loop (r ∷ rounds) st saw =
      let more = loop_round r st saw >>= go_round (main_loop rounds) in
      if saw then some (going st saw) else more

  abbrev pub after_last : Drain × Bool → Drain × Bool
  after_last (st, true) = act st (fsm_flush_final st.fsm zero_clip)
  after_last (st, false) = (st, false)

  -- The final drain and flush, if the loop has ended with the sentinel. `none` stands for a loop
  -- that goes on behind the rounds.
  abbrev pub finish_loop : Reads × Stop → Loop → Option (Drain × Bool)
  finish_loop last (broken st) = some (st, false)
  finish_loop last (going st false) = none
  finish_loop (reads, stop) (going st true) =
      drain_meta env clip_ms st reads stop >>= λ r. some (after_last r)

  abbrev pub start : Drain
  start = record { buf = fresh_buffer; fsm = zero_fsm; ticks = 0; out = [] }

  abbrev pub after_first : List Round → Reads × Stop → Bool → Drain × Bool → Option (Drain × Bool)
  after_first rounds last saw (st, true) = main_loop rounds st saw >>= finish_loop last
  after_first rounds last saw (st, false) = some (st, false)

  -- From the first drain to the return; `true` stands for 0 and `false` for 1.
  unfoldable pub stream_merge_main :
      Reads × Stop → List Round → Reads × Stop → Bool → Option (Drain × Bool)
  unfolding main_loop
  stream_merge_main (reads, stop) rounds last saw =
      drain_meta env clip_ms start reads stop >>= after_first rounds last saw

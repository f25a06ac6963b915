-- ===== src/StreamMerge/Session.antt =====
-- applets/stream_merge/stream_merge.c: which clips a session prints. The inputs are the calls that
-- the main loop makes, in their order: a parsed chunk record, an idle check, the final flush.
pub mod Conserve
pub mod Tile
pub mod Ascending
use ws_pipeline_dispatcher.Prelude.{Bool, true, false, not, List, [], ◌∷◌, ◌++◌, if◌then◌else◌}
use ws_pipeline_dispatcher.Prelude.Int.{ℤ}
use ws_pipeline_dispatcher.StreamMerge.Records.{
  MetaRecord, Clip, Fsm, Action, nothing, reject_late, emit_complete, emit_partial, Outcome,
  zero_clip,
}
use ws_pipeline_dispatcher.StreamMerge.Fsm.{fsm_process_record, fsm_check_idle, fsm_flush_final}

-- A clip that is printed, with its "complete" field.
pub record Emission : Type 0 where
  pub clip : Clip
  pub complete : Bool

-- `emit_clip`, as far as it decides whether a line is printed.
unfoldable pub emit_clip : Clip → Bool → List Emission
emit_clip clip complete =
    if not clip.active then [] else record { clip = clip; complete = complete } ∷ []

-- `handle_action`
unfoldable pub handle_action : Action → Clip → List Emission
unfolding emit_clip
handle_action emit_complete clip = emit_clip clip true
handle_action emit_partial clip = emit_clip clip false
handle_action reject_late clip = []
handle_action nothing clip = []

-- One call of the main loop; the second number of a call is the time that it reads.
pub data Input : Type 0 where
  chunk : MetaRecord → ℤ → Input
  idle : ℤ → Input
  finish : Input

unfoldable pub step : ℤ → ℤ → Fsm → Input → Outcome
step clip_ms idle_ms fsm (chunk rec now_ms) = fsm_process_record fsm rec clip_ms now_ms zero_clip
step clip_ms idle_ms fsm (idle now_ms) = fsm_check_idle fsm idle_ms now_ms zero_clip
step clip_ms idle_ms fsm finish = fsm_flush_final fsm zero_clip

unfoldable pub run : ℤ → ℤ → Fsm → List Input → List Emission × Fsm
run clip_ms idle_ms fsm [] = ([], fsm)
run clip_ms idle_ms fsm (i ∷ is) =
    let o = step clip_ms idle_ms fsm i in
    let (later, last) = run clip_ms idle_ms o.fsm is in
    (handle_action o.action o.out ++ later, last)

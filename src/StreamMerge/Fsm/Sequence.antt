-- ===== src/StreamMerge/Fsm/Sequence.antt =====
-- Which records the state machine takes, by their sequence numbers and offsets.
use ws_pipeline_dispatcher.Prelude.{◌+◌, ◌%◌, ◌≤◌, ◌<◌, ◌∙◌, true, ◌≡◌, ◌≢◌, refl, arith}
use ws_pipeline_dispatcher.Prelude.Int.{ℤ}
use ws_pipeline_dispatcher.StreamMerge.Records.{u64, MetaRecord, Clip, Fsm, reject_late, Outcome}
use ws_pipeline_dispatcher.StreamMerge.Fsm.Cases.{process_record_ind}
use ws_pipeline_dispatcher.StreamMerge.Fsm.{
  start_clip, append_record, maybe_emit_continuous_window, fsm_process_record,
}

pub maybe_emit-keeps :
    (fsm : Fsm) (clip_ms : ℤ) (out : Clip)
    → let o = maybe_emit_continuous_window fsm clip_ms out in
      (o.action ≢ reject_late)
      × (o.fsm.active ≡ fsm.active)
      × (o.fsm.expected_seq ≡ fsm.expected_seq)
      × (o.fsm.expected_offset ≡ fsm.expected_offset)
unfolding maybe_emit_continuous_window
maybe_emit-keeps fsm clip_ms out = ground arith

-- What a valid record does to the position in the stream: a late one is refused and changes
-- nothing, and any other opens or goes on with a window that ends where the record ends.
pub data Positions (fsm : Fsm) (rec : MetaRecord) (out : Clip) (o : Outcome) : Type 0 where
  refused :
      fsm.active ≡ true
      → rec.seq < fsm.expected_seq
      → o ≡ record { action = reject_late; fsm = fsm; out = out }
      → Positions fsm rec out o
  taken :
      (fsm.active ≡ true → fsm.expected_seq ≤ rec.seq)
      → o.action ≢ reject_late
      → o.fsm.active ≡ true
      → o.fsm.expected_seq ≡ (rec.seq + 1) % u64
      → o.fsm.expected_offset ≡ (rec.offset + rec.length) % u64
      → Positions fsm rec out o

module _ (fsm : Fsm) (rec : MetaRecord) (clip_ms now_ms : ℤ) (out : Clip) where
  -- A valid record is either refused as late, in which case nothing changes, or it opens or
  -- extends the window, which then waits for the number and offset behind it.
  pub process_record-Positions :
      rec.valid ≡ true → Positions fsm rec out (fsm_process_record fsm rec clip_ms now_ms out)
  unfolding start_clip append_record
  process_record-Positions v =
      let start = maybe_emit-keeps (start_clip fsm rec now_ms) clip_ms out in
      let more = maybe_emit-keeps (append_record fsm rec now_ms) clip_ms out in
      process_record_ind fsm rec clip_ms now_ms out (Positions fsm rec out) (λ w. cc)
        (λ w a. taken (λ b. cc) start.0 start.1 start.2 start.3) (λ w a l. refused a l refl)
        (λ w a l z g. taken (λ b. l) start.0 start.1 start.2 start.3)
        (λ w a l g. taken (λ b. l) (λ e. cc) refl refl refl)
        (λ w a n c. taken (λ b. omega arith) more.0 (more.1 ∙ a) more.2 more.3)
        (λ w a n c t. taken (λ b. omega arith) (λ e. cc) refl refl refl)
        (λ w a n c t. taken (λ b. omega arith) (λ e. cc) a refl refl)

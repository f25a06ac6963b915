-- ===== src/StreamMerge/Fsm.antt =====
-- applets/stream_merge/sm_fsm.c: the state machine that cuts clips from chunk records.
pub mod Cases
pub mod Window
pub mod Sequence
pub mod Duration
use ws_pipeline_dispatcher.Prelude.{
  ℕ, ◌+◌, ◌-◌, ◌*◌, ◌/◌, ◌%◌, Bool, true, false, not, ◌&&◌, ◌||◌, ltb, ◌==◌, if◌then◌else◌,
}
use ws_pipeline_dispatcher.Prelude.Int.{ℤ, pos, pos_part, ◌+ℤ◌, ◌-ℤ◌, ltb_ℤ}
use ws_pipeline_dispatcher.StreamMerge.LongDouble.{long_double, thousandth}
use ws_pipeline_dispatcher.StreamMerge.Events.{EventSet, event_set_reset, event_set_add_all}
use ws_pipeline_dispatcher.StreamMerge.Records.{
  u64, MetaRecord, metadata, continuous_byte_range, Clip, Fsm, nothing, reject_late, emit_complete,
  emit_partial, Outcome, zero_fsm,
}

unfoldable pub aligned_target_bytes : ℤ → ℕ → ℕ → ℕ
aligned_target_bytes clip_ms byte_rate frame_align =
    if not (ltb_ℤ (pos 0) clip_ms) || byte_rate == 0
    then 0
    else let target = thousandth (long_double (pos_part clip_ms * byte_rate)) in
      if ltb 1 frame_align then target - target % frame_align else target

unfoldable pub snapshot_clip : Fsm → Clip
snapshot_clip fsm = record {
  active = fsm.active;
  start_ts_ms = fsm.start_ts_ms;
  end_ts_ms = fsm.end_ts_ms;
  start_offset = fsm.start_offset;
  total_length = fsm.total_length;
  boundary_mode = fsm.boundary_mode;
  events = fsm.events;
}

unfoldable pub snapshot_continuous_clip : Fsm → ℤ → ℕ → Clip
unfolding snapshot_clip
snapshot_continuous_clip fsm clip_ms target_bytes = record (snapshot_clip fsm) {
  end_ts_ms = fsm.start_ts_ms +ℤ clip_ms;
  total_length = target_bytes;
  boundary_mode = continuous_byte_range;
}

unfoldable pub start_clip : Fsm → MetaRecord → ℤ → Fsm
start_clip fsm rec now_ms = record {
  active = true;
  start_ts_ms = rec.ts_ms;
  end_ts_ms = rec.ts_ms;
  start_offset = rec.offset;
  total_length = rec.length;
  expected_seq = (rec.seq + 1) % u64;
  expected_offset = (rec.offset + rec.length) % u64;
  last_chunk_wall_ms = now_ms;
  continuous = rec.continuous;
  byte_rate = rec.byte_rate;
  frame_align = if rec.frame_align == 0 then 1 else rec.frame_align;
  boundary_mode = metadata;
  events = rec.events;
}

unfoldable pub append_record : Fsm → MetaRecord → ℤ → Fsm
append_record fsm rec now_ms = record fsm {
  end_ts_ms = rec.ts_ms;
  total_length = (fsm.total_length + rec.length) % u64;
  expected_seq = (rec.seq + 1) % u64;
  expected_offset = (rec.offset + rec.length) % u64;
  last_chunk_wall_ms = now_ms;
  boundary_mode = metadata;
  events = (event_set_add_all fsm.events rec.events).0;
}

unfoldable pub continuous_compatible : Fsm → MetaRecord → Bool
continuous_compatible fsm rec =
    let rec_align = if rec.frame_align == 0 then 1 else rec.frame_align in
    fsm.continuous
    && rec.continuous
    && fsm.byte_rate == rec.byte_rate
    && fsm.frame_align == rec_align

unfoldable pub maybe_emit_continuous_window : Fsm → ℤ → Clip → Outcome
unfolding snapshot_continuous_clip event_set_reset
maybe_emit_continuous_window fsm clip_ms out =
    let target_bytes = aligned_target_bytes clip_ms fsm.byte_rate fsm.frame_align in
    if not fsm.continuous || target_bytes == 0 || ltb fsm.total_length target_bytes
    then record { action = nothing; fsm = fsm; out = out }
    else record {
      action = emit_complete;
      fsm = record fsm {
        start_offset = (fsm.start_offset + target_bytes) % u64;
        total_length = fsm.total_length - target_bytes;
        start_ts_ms = fsm.start_ts_ms +ℤ clip_ms;
        end_ts_ms = fsm.start_ts_ms +ℤ clip_ms;
        boundary_mode = metadata;
        events = event_set_reset fsm.events;
      };
      out = snapshot_continuous_clip fsm clip_ms target_bytes;
    }

-- `sm_fsm_reset`
unfoldable pub fsm_reset : Fsm → Fsm
fsm_reset fsm = zero_fsm

-- The test of a forward jump: missing sequence numbers or another offset.
unfoldable pub has_gap : Fsm → MetaRecord → Bool
has_gap fsm rec = ltb fsm.expected_seq rec.seq || not (rec.offset == fsm.expected_offset)

-- `sm_fsm_process_record`
unfoldable pub fsm_process_record : Fsm → MetaRecord → ℤ → ℤ → Clip → Outcome
unfolding snapshot_clip start_clip append_record continuous_compatible has_gap
fsm_process_record fsm rec clip_ms now_ms out =
    if not rec.valid
    then record { action = nothing; fsm = fsm; out = out }
    else if not fsm.active
    then maybe_emit_continuous_window (start_clip fsm rec now_ms) clip_ms out
    else if ltb rec.seq fsm.expected_seq
    then record { action = reject_late; fsm = fsm; out = out }
    else if fsm.total_length == 0 && has_gap fsm rec
    then maybe_emit_continuous_window (start_clip fsm rec now_ms) clip_ms out
    else if has_gap fsm rec
    then record { action = emit_partial; fsm = start_clip fsm rec now_ms; out = snapshot_clip fsm }
    else if continuous_compatible fsm rec
    then maybe_emit_continuous_window (append_record fsm rec now_ms) clip_ms out
    else if not (ltb_ℤ (rec.ts_ms -ℤ fsm.start_ts_ms) clip_ms)
    then record { action = emit_complete; fsm = start_clip fsm rec now_ms; out = snapshot_clip fsm }
    else record { action = nothing; fsm = append_record fsm rec now_ms; out = out }

-- `sm_fsm_check_idle`
unfoldable pub fsm_check_idle : Fsm → ℤ → ℤ → Clip → Outcome
unfolding snapshot_clip fsm_reset
fsm_check_idle fsm idle_ms now_ms out =
    if not fsm.active || fsm.total_length == 0
    then record { action = nothing; fsm = fsm; out = out }
    else if ltb_ℤ (now_ms -ℤ fsm.last_chunk_wall_ms) idle_ms
    then record { action = nothing; fsm = fsm; out = out }
    else record { action = emit_partial; fsm = fsm_reset fsm; out = snapshot_clip fsm }

-- `sm_fsm_flush_final`
unfoldable pub fsm_flush_final : Fsm → Clip → Outcome
unfolding snapshot_clip fsm_reset
fsm_flush_final fsm out =
    if not fsm.active || fsm.total_length == 0
    then record { action = nothing; fsm = fsm; out = out }
    else record { action = emit_complete; fsm = fsm_reset fsm; out = snapshot_clip fsm }

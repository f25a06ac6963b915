-- ===== src/StreamMerge/Records.antt =====
-- applets/stream_merge/sm_fsm.h: chunk records, clips and the state of the clip state machine.
-- Unsigned fields wrap at 2^64. Signed times are integers with no bound, as overflow of int64_t is
-- undefined in C.
use ws_pipeline_dispatcher.Prelude.{ℕ, ◌^◌, Bool, false, Bytes}
use ws_pipeline_dispatcher.Prelude.Int.{ℤ, pos}
use ws_pipeline_dispatcher.StreamMerge.Events.{EventSet, empty}

abbrev pub u64 : ℕ
u64 = 2 ^ 64

-- `sm_meta_record_t`
pub record MetaRecord : Type 0 where
  pub kind : Bytes
  pub seq : ℕ
  pub offset : ℕ
  pub length : ℕ
  pub ts_ms : ℤ
  pub continuous : Bool
  pub byte_rate : ℕ
  pub frame_align : ℕ
  pub events : EventSet
  pub valid : Bool

-- `sm_boundary_mode_t`
pub data BoundaryMode : Type 0 where
  metadata continuous_byte_range : BoundaryMode

-- `sm_clip_record_t`
pub record Clip : Type 0 where
  pub active : Bool
  pub start_ts_ms : ℤ
  pub end_ts_ms : ℤ
  pub start_offset : ℕ
  pub total_length : ℕ
  pub boundary_mode : BoundaryMode
  pub events : EventSet

-- `sm_fsm_t`
pub record Fsm : Type 0 where
  pub active : Bool
  pub start_ts_ms : ℤ
  pub end_ts_ms : ℤ
  pub start_offset : ℕ
  pub total_length : ℕ
  pub expected_seq : ℕ
  pub expected_offset : ℕ
  pub last_chunk_wall_ms : ℤ
  pub continuous : Bool
  pub byte_rate : ℕ
  pub frame_align : ℕ
  pub boundary_mode : BoundaryMode
  pub events : EventSet

-- `sm_fsm_action_t`
pub data Action : Type 0 where
  nothing reject_late emit_complete emit_partial : Action

-- The return value, with the final states of `*fsm` and `*out`.
pub record Outcome : Type 0 where
  pub action : Action
  pub fsm : Fsm
  pub out : Clip

-- `memset(fsm, 0, sizeof(*fsm))` and `sm_clip_record_t clip = {0}`
abbrev pub zero_fsm : Fsm
zero_fsm = record {
  active = false;
  start_ts_ms = pos 0;
  end_ts_ms = pos 0;
  start_offset = 0;
  total_length = 0;
  expected_seq = 0;
  expected_offset = 0;
  last_chunk_wall_ms = pos 0;
  continuous = false;
  byte_rate = 0;
  frame_align = 0;
  boundary_mode = metadata;
  events = empty;
}

abbrev pub zero_clip : Clip
zero_clip = record {
  active = false;
  start_ts_ms = pos 0;
  end_ts_ms = pos 0;
  start_offset = 0;
  total_length = 0;
  boundary_mode = metadata;
  events = empty;
}

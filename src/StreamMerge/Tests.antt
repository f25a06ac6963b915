-- ===== src/StreamMerge/Tests.antt =====
-- Runs of the clip state machine of applets/stream_merge on small inputs.
use ws_pipeline_dispatcher.Prelude.{
  ◌⊎◌, ℕ, ◌+◌, ◌*◌, ◌%◌, ◌≤◌, ◌<◌, true, false, List, [], ◌∷◌, ◌++◌, ◌≡◌, refl, arith, codes,
}
use ws_pipeline_dispatcher.Prelude.Int.{◌+ℤ◌, ℤ, pos, ◌≤ℤ◌, ◌-ℤ◌}
use ws_pipeline_dispatcher.StreamMerge.LongDouble.{
  long_double, thousandth, round_even, excess_bits, fraction_bits,
}
use ws_pipeline_dispatcher.StreamMerge.Records.{
  u64, MetaRecord, Fsm, emit_complete, emit_partial, zero_fsm, zero_clip,
}
use ws_pipeline_dispatcher.StreamMerge.Fsm.{
  fsm_process_record, fsm_check_idle, aligned_target_bytes, start_clip,
}
use ws_pipeline_dispatcher.StreamMerge.Fsm.Duration.{
  IsShortOutcome, process_record-IsShort, aligned_target_bounds,
}
use ws_pipeline_dispatcher.StreamMerge.Session.{Input, chunk, idle, finish, run}
use ws_pipeline_dispatcher.StreamMerge.Session.Conserve.{
  clip_bytes, stream_bytes, session_conserves,
}
use ws_pipeline_dispatcher.StreamMerge.Session.Tile.{Tiles, stream_end, session-Tiles}
use ws_pipeline_dispatcher.StreamMerge.Session.Ascending.{
  taken_seqs, RiseFrom, least_seq, taken_seqs-RiseFrom,
}
use ws_pipeline_dispatcher.StreamMerge.Poll.{poll_timeout, poll_wakes_to_flush}

abbrev record_at : ℕ → ℕ → ℕ → ℤ → MetaRecord
record_at seq offset size ts = record {
  kind = codes "data";
  seq = seq;
  offset = offset;
  length = size;
  ts_ms = ts;
  continuous = false;
  byte_rate = 0;
  frame_align = 0;
  events = [];
  valid = true;
}

abbrev first_record : MetaRecord
first_record = record_at 0 0 10 (pos 0)

abbrev second_record : MetaRecord
second_record = record_at 1 10 20 (pos 100)

-- A gap: the number 2 is missing.
abbrev later_record : MetaRecord
later_record = record_at 3 40 5 (pos 300)

abbrev inputs : List Input
inputs =
    chunk first_record (pos 0)
    ∷ chunk second_record (pos 100)
    ∷ idle (pos 150)
    ∷ chunk later_record (pos 300)
    ∷ []

abbrev in_order : List Input
in_order = chunk first_record (pos 0) ∷ chunk second_record (pos 100) ∷ idle (pos 900) ∷ []

gap_emits_partial :
    (fsm_process_record
      (start_clip zero_fsm first_record (pos 0))
      later_record
      (pos 1000)
      (pos 1)
      zero_clip).action
    ≡ emit_partial
unfolding start_clip fsm_process_record
gap_emits_partial = refl

clip_ms_emits_complete :
    (fsm_process_record
      (start_clip zero_fsm first_record (pos 0))
      second_record
      (pos 100)
      (pos 1)
      zero_clip).action
    ≡ emit_complete
unfolding start_clip fsm_process_record ◌-ℤ◌
clip_ms_emits_complete = refl

session_conserves_example :
    clip_bytes (run (pos 1000) (pos 500) zero_fsm (inputs ++ finish ∷ [])).0 % u64
    ≡ stream_bytes (pos 1000) (pos 500) zero_fsm inputs % u64
session_conserves_example = session_conserves (pos 1000) (pos 500) inputs (omega arith)

session-Tiles_example :
    Tiles 0 (run (pos 1000) (pos 500) zero_fsm (in_order ++ finish ∷ [])).0 (stream_end 0 in_order)
session-Tiles_example = session-Tiles (pos 1000) (pos 500) 0 0 in_order (
  record { valid = refl; seq = refl; offset = refl; fits = omega arith },
  (record { valid = refl; seq = refl; offset = refl; fits = omega arith }, tt),
)

abbrev shuffled : List (MetaRecord × ℤ)
shuffled = (first_record, pos 0) ∷ (later_record, pos 1) ∷ (second_record, pos 2) ∷ []

taken_seqs-RiseFrom_example :
    RiseFrom (least_seq zero_fsm) (taken_seqs (pos 1000) zero_fsm shuffled)
taken_seqs-RiseFrom_example = taken_seqs-RiseFrom (pos 1000) zero_fsm shuffled (
  record { valid = refl; bounded = omega arith },
  (
    record { valid = refl; bounded = omega arith },
    (record { valid = refl; bounded = omega arith }, tt),
  ),
)

process_record-IsShort_example :
    IsShortOutcome
      (pos 1000)
      (fsm_process_record zero_fsm first_record (pos 1000) (pos 0) zero_clip)
process_record-IsShort_example =
    process_record-IsShort zero_fsm first_record (pos 1000) (pos 0) zero_clip (omega arith) refl
      (record { metadata_only = refl; short = unfold ◌-ℤ◌ in omega arith })

aligned_target_bounds_example :
    let target = aligned_target_bytes (pos 250) 32000 640 in
    (target % 640 ≡ 0) × (target * 1000 ≤ 250 * 32000) × (250 * 32000 < (target + 640) * 1000)
aligned_target_bounds_example =
    aligned_target_bounds 250 32000 640 (omega arith) (omega arith) (omega arith)

-- A product of more than 64 bits is rounded.
rounded_target : aligned_target_bytes (pos 16385) 9007199254740987 1 ≡ 147582959788931072
unfolding aligned_target_bytes long_double thousandth round_even excess_bits fraction_bits
rounded_target = refl

abbrev open_window : Fsm
open_window = record zero_fsm { active = true; total_length = 10 }

slept : pos 200 +ℤ poll_timeout open_window (pos 500) (pos 200) ≤ℤ pos 501
unfolding poll_timeout ◌+ℤ◌ ◌-ℤ◌
slept = omega arith

poll_wakes_to_flush_example :
    let timeout = poll_timeout open_window (pos 500) (pos 200) in
    let deadline = open_window.last_chunk_wall_ms +ℤ pos 500 in
    (pos 0 ≤ℤ timeout)
    × (timeout ≤ℤ pos 1000)
    × (timeout ≡ pos 0 ⊎ pos 200 +ℤ timeout ≤ℤ deadline)
    × (timeout ≡ pos 1000
        ⊎ (fsm_check_idle open_window (pos 500) (pos 501) zero_clip).action ≡ emit_partial)
poll_wakes_to_flush_example =
    poll_wakes_to_flush open_window (pos 500) (pos 200) (pos 501) zero_clip refl
      (λ e. absurd (omega arith)) slept

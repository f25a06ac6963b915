-- ===== src/StreamMerge/Fsm/Cases.antt =====
-- The eight ways through `sm_fsm_process_record`, each with the tests that lead to it.
use ws_pipeline_dispatcher.Prelude.{
  ◌<◌, ◌≤◌, true, false, not, ◌&&◌, ◌≡◌, ltb, ◌==◌, if_ind, false_of_not, true_of_not, ltb→lt,
  ltb→le, arith,
}
use ws_pipeline_dispatcher.Prelude.Int.{ℤ, ◌-ℤ◌, ltb_ℤ, ◌≤ℤ◌, ◌<ℤ◌, ltb_ℤ→lt, ltb_ℤ→le}
use ws_pipeline_dispatcher.StreamMerge.Records.{
  MetaRecord, Clip, Fsm, nothing, reject_late, emit_complete, emit_partial, Outcome,
}
use ws_pipeline_dispatcher.StreamMerge.Fsm.{
  snapshot_clip, start_clip, append_record, continuous_compatible, has_gap,
  maybe_emit_continuous_window, fsm_process_record,
}

-- The record goes on exactly where the window ends.
pub record GoesOn (fsm : Fsm) (rec : MetaRecord) : Type 0 where
  pub seq : rec.seq ≡ fsm.expected_seq
  pub offset : rec.offset ≡ fsm.expected_offset

goes_on :
    (fsm : Fsm) (rec : MetaRecord)
    → fsm.expected_seq ≤ rec.seq
    → has_gap fsm rec ≡ false
    → GoesOn fsm rec
unfolding has_gap
goes_on fsm rec h g = ground arith

module _ {ℓ} (fsm : Fsm) (rec : MetaRecord) (clip_ms now_ms : ℤ) (out : Clip)
    (P : Outcome → Type ℓ) where
  pub process_record_ind :
      (rec.valid ≡ false → P (record { action = nothing; fsm = fsm; out = out }))
      → (rec.valid ≡ true
          → fsm.active ≡ false
          → P (maybe_emit_continuous_window (start_clip fsm rec now_ms) clip_ms out))
      → (rec.valid ≡ true
          → fsm.active ≡ true
          → rec.seq < fsm.expected_seq
          → P (record { action = reject_late; fsm = fsm; out = out }))
      → (rec.valid ≡ true
          → fsm.active ≡ true
          → fsm.expected_seq ≤ rec.seq
          → fsm.total_length ≡ 0
          → has_gap fsm rec ≡ true
          → P (maybe_emit_continuous_window (start_clip fsm rec now_ms) clip_ms out))
      → (rec.valid ≡ true
          → fsm.active ≡ true
          → fsm.expected_seq ≤ rec.seq
          → has_gap fsm rec ≡ true
          → P (record {
            action = emit_partial;
            fsm = start_clip fsm rec now_ms;
            out = snapshot_clip fsm;
          }))
      → (rec.valid ≡ true
          → fsm.active ≡ true
          → GoesOn fsm rec
          → continuous_compatible fsm rec ≡ true
          → P (maybe_emit_continuous_window (append_record fsm rec now_ms) clip_ms out))
      → (rec.valid ≡ true
          → fsm.active ≡ true
          → GoesOn fsm rec
          → continuous_compatible fsm rec ≡ false
          → clip_ms ≤ℤ rec.ts_ms -ℤ fsm.start_ts_ms
          → P (record {
            action = emit_complete;
            fsm = start_clip fsm rec now_ms;
            out = snapshot_clip fsm;
          }))
      → (rec.valid ≡ true
          → fsm.active ≡ true
          → GoesOn fsm rec
          → continuous_compatible fsm rec ≡ false
          → rec.ts_ms -ℤ fsm.start_ts_ms <ℤ clip_ms
          → P (record { action = nothing; fsm = append_record fsm rec now_ms; out = out }))
      → P (fsm_process_record fsm rec clip_ms now_ms out)
  unfolding fsm_process_record
  process_record_ind invalid fresh late restart gap joined full more =
      if_ind P (not rec.valid) (λ v. invalid (false_of_not _ v))
        λ v.
          let v = true_of_not rec.valid v in
          if_ind P (not fsm.active) (λ a. fresh v (false_of_not _ a))
            λ a.
              let a = true_of_not fsm.active a in
              if_ind P (ltb rec.seq fsm.expected_seq) (λ l. late v a (ltb→lt _ _ l))
                λ l.
                  let le = ltb→le rec.seq fsm.expected_seq l in
                  if_ind P (fsm.total_length == 0 && has_gap fsm rec)
                    (λ z. restart v a le (ground arith) (ground arith))
                    λ z.
                      if_ind P (has_gap fsm rec) (λ g. gap v a le g)
                        λ g.
                          let next = goes_on fsm rec le g in
                          if_ind P (continuous_compatible fsm rec) (λ c. joined v a next c)
                            λ c.
                              let span = rec.ts_ms -ℤ fsm.start_ts_ms in
                              if_ind P (not (ltb_ℤ span clip_ms))
                                (λ t. full v a next c (ltb_ℤ→le span clip_ms (false_of_not _ t)))
                                (λ t. more v a next c (ltb_ℤ→lt span clip_ms (true_of_not _ t)))

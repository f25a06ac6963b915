-- ===== src/StreamMerge/Fsm/Window.antt =====
-- The open window of the state machine is always one byte range of the session file, and every
-- accepted byte is either in it or in an emitted clip.
use ws_pipeline_dispatcher.Prelude.{
  ℕ, ◌+◌, ◌%◌, ◌<◌, true, false, ◌&&◌, ◌≡◌, ltb, if◌then◌else◌, arith,
}
use ws_pipeline_dispatcher.Prelude.Int.{ℤ}
use ws_pipeline_dispatcher.StreamMerge.Records.{
  u64, MetaRecord, Clip, Fsm, Action, nothing, reject_late, emit_complete, emit_partial, Outcome,
}
use ws_pipeline_dispatcher.StreamMerge.Fsm.Cases.{process_record_ind}
use ws_pipeline_dispatcher.StreamMerge.Fsm.{
  snapshot_clip, start_clip, append_record, maybe_emit_continuous_window, fsm_process_record,
  fsm_check_idle, fsm_flush_final,
}

-- The window is the byte range from `start_offset` up to `expected_offset`, in 64-bit arithmetic,
-- and it is empty while no clip is open.
pub record IsWindow (fsm : Fsm) : Type 0 where
  pub start_fits : fsm.start_offset < u64
  pub length_fits : fsm.total_length < u64
  pub ends : (fsm.start_offset + fsm.total_length) % u64 ≡ fsm.expected_offset
  pub closed : fsm.active ≡ false → fsm.total_length ≡ 0

-- The fields of a record hold 64-bit numbers.
pub record Fits (rec : MetaRecord) : Type 0 where
  pub offset : rec.offset < u64
  pub length : rec.length < u64

-- The bytes of an emitted clip, and 0 where nothing is emitted.
abbrev pub emitted_bytes : Action → Clip → ℕ
emitted_bytes nothing c = 0
emitted_bytes reject_late c = 0
emitted_bytes emit_complete c = c.total_length
emitted_bytes emit_partial c = c.total_length

abbrev pub emitted : Outcome → ℕ
emitted o = emitted_bytes o.action o.out

-- The bytes that a record brings in: none if it is invalid or comes late.
abbrev pub taken_in : Fsm → MetaRecord → ℕ
taken_in fsm rec =
    if rec.valid then if fsm.active && ltb rec.seq fsm.expected_seq then 0 else rec.length else 0

start_clip-IsWindow :
    (fsm : Fsm) (rec : MetaRecord) (now_ms : ℤ) → Fits rec → IsWindow (start_clip fsm rec now_ms)
unfolding start_clip
start_clip-IsWindow fsm rec now_ms f = ground arith

-- A record that goes on where the window ends keeps the window one range.
append_record-IsWindow :
    (fsm : Fsm) (rec : MetaRecord) (now_ms : ℤ)
    → IsWindow fsm
    → fsm.active ≡ true
    → Fits rec
    → rec.offset ≡ fsm.expected_offset
    → IsWindow (append_record fsm rec now_ms)
unfolding append_record
append_record-IsWindow fsm rec now_ms w a f e = ground arith

maybe_emit-IsWindow :
    (fsm : Fsm) (clip_ms : ℤ) (out : Clip)
    → IsWindow fsm
    → IsWindow (maybe_emit_continuous_window fsm clip_ms out).fsm
unfolding maybe_emit_continuous_window
maybe_emit-IsWindow fsm clip_ms out w = ground arith

maybe_emit-balance :
    (fsm : Fsm) (clip_ms : ℤ) (out : Clip)
    → (maybe_emit_continuous_window fsm clip_ms out).fsm.total_length
        + emitted (maybe_emit_continuous_window fsm clip_ms out)
      ≡ fsm.total_length
unfolding maybe_emit_continuous_window
maybe_emit-balance fsm clip_ms out = ground arith

module _ (fsm : Fsm) (rec : MetaRecord) (clip_ms now_ms : ℤ) (out : Clip) where
  -- Processing a record with 64-bit offsets keeps the window one byte range that ends where the
  -- next byte is expected.
  pub process_record-IsWindow :
      IsWindow fsm → Fits rec → IsWindow (fsm_process_record fsm rec clip_ms now_ms out).fsm
  unfolding fsm_process_record
  process_record-IsWindow w f = ground (
    arith,
    start_clip-IsWindow fsm rec now_ms f,
    append_record-IsWindow fsm rec now_ms w,
    maybe_emit-IsWindow (start_clip fsm rec now_ms) clip_ms out,
    maybe_emit-IsWindow (append_record fsm rec now_ms) clip_ms out,
  )

  -- The bytes in the window after a record, with those of the clip it closed, are those before
  -- it with those of the record, if that is valid and not late (in 64-bit arithmetic).
  pub process_record-balance :
      IsWindow fsm
      → Fits rec
      → let o = fsm_process_record fsm rec clip_ms now_ms out in
        (o.fsm.total_length + emitted o) % u64 ≡ (fsm.total_length + taken_in fsm rec) % u64
  unfolding start_clip append_record snapshot_clip
  process_record-balance w f =
      process_record_ind fsm rec clip_ms now_ms out
        (λ o. (o.fsm.total_length + emitted o) % u64 ≡ (fsm.total_length + taken_in fsm rec) % u64)
        (λ v. ground arith)
        (λ v a. ground (arith, maybe_emit-balance (start_clip fsm rec now_ms) clip_ms out))
        (λ v a l. ground arith)
        (λ v a l z g. ground (arith, maybe_emit-balance (start_clip fsm rec now_ms) clip_ms out))
        (λ v a l g. ground arith)
        (λ v a l g. ground (arith, maybe_emit-balance (append_record fsm rec now_ms) clip_ms out))
        (λ v a l g t. ground arith) (λ v a l g t. ground arith)

module _ (fsm : Fsm) (out : Clip) where
  pub check_idle-IsWindow :
      (idle_ms now_ms : ℤ) → IsWindow fsm → IsWindow (fsm_check_idle fsm idle_ms now_ms out).fsm
  unfolding fsm_check_idle
  check_idle-IsWindow idle_ms now_ms w = ground arith

  pub check_idle-balance :
      (idle_ms now_ms : ℤ)
      → (fsm_check_idle fsm idle_ms now_ms out).fsm.total_length
          + emitted (fsm_check_idle fsm idle_ms now_ms out)
        ≡ fsm.total_length
  unfolding fsm_check_idle
  check_idle-balance idle_ms now_ms = ground arith

  pub flush_final-IsWindow : IsWindow fsm → IsWindow (fsm_flush_final fsm out).fsm
  unfolding fsm_flush_final
  flush_final-IsWindow w = ground arith

  -- The final flush leaves nothing behind.
  pub flush_final-balance :
      IsWindow fsm
      → ((fsm_flush_final fsm out).fsm.total_length ≡ 0)
        × (emitted (fsm_flush_final fsm out) ≡ fsm.total_length)
  unfolding fsm_flush_final
  flush_final-balance h = ground arith

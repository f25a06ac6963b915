-- ===== src/StreamMerge/Fsm/Duration.antt =====
-- How long clips last, and how many bytes a window of a continuous stream has.
use native.Mathlib.Nat.{div-add-mod, mul-mod_right, mod-lt}
use ws_pipeline_dispatcher.Prelude.{
  ℕ, ◌+◌, ◌-◌, ◌*◌, ◌/◌, ◌%◌, ◌^◌, ◌≤◌, ◌<◌, ltb, if◌then◌else◌, false, ◌≡◌, arith,
}
use ws_pipeline_dispatcher.Prelude.Int.{ℤ, pos, ◌-ℤ◌, ◌<ℤ◌, int_laws}
use ws_pipeline_dispatcher.StreamMerge.LongDouble.Exact.{thousandth_exact}
use ws_pipeline_dispatcher.StreamMerge.Records.{
  MetaRecord, Clip, Fsm, nothing, emit_complete, emit_partial, Outcome,
}
use ws_pipeline_dispatcher.StreamMerge.Fsm.Cases.{process_record_ind}
use ws_pipeline_dispatcher.StreamMerge.Fsm.{
  aligned_target_bytes, snapshot_clip, start_clip, append_record, continuous_compatible,
  maybe_emit_continuous_window, fsm_process_record,
}

-- A window that is cut by metadata alone has not reached the clip time.
pub record IsShort (clip_ms : ℤ) (fsm : Fsm) : Type 0 where
  pub metadata_only : fsm.continuous ≡ false
  pub short : fsm.end_ts_ms -ℤ fsm.start_ts_ms <ℤ clip_ms

-- A clip that is handed over is shorter than the clip time.
abbrev pub IsShortOutcome : ℤ → Outcome → Type 0
IsShortOutcome clip_ms o =
    IsShort clip_ms o.fsm
    × (o.action ≡ emit_complete → o.out.end_ts_ms -ℤ o.out.start_ts_ms <ℤ clip_ms)
    × (o.action ≡ emit_partial → o.out.end_ts_ms -ℤ o.out.start_ts_ms <ℤ clip_ms)

module _ (fsm : Fsm) (rec : MetaRecord) (clip_ms now_ms : ℤ) (out : Clip) where
  metadata_never_compatible : fsm.continuous ≡ false → continuous_compatible fsm rec ≡ false
  unfolding continuous_compatible
  metadata_never_compatible h = ground arith

  start_clip-IsShort :
      rec.continuous ≡ false → pos 0 <ℤ clip_ms → IsShort clip_ms (start_clip fsm rec now_ms)
  unfolding start_clip
  start_clip-IsShort h p = record { metadata_only = h; short = omega int_laws }

  metadata_emits_nothing :
      rec.continuous ≡ false
      → maybe_emit_continuous_window (start_clip fsm rec now_ms) clip_ms out
        ≡ record { action = nothing; fsm = start_clip fsm rec now_ms; out = out }
  unfolding maybe_emit_continuous_window start_clip
  metadata_emits_nothing h = ground arith

  -- With a positive clip time, a record of a stream that is not continuous keeps the window
  -- shorter than the clip time, and so is every clip it hands over.
  pub process_record-IsShort :
      pos 0 <ℤ clip_ms
      → rec.continuous ≡ false
      → IsShort clip_ms fsm
      → IsShortOutcome clip_ms (fsm_process_record fsm rec clip_ms now_ms out)
  unfolding snapshot_clip append_record
  process_record-IsShort p h s =
      let fresh = start_clip-IsShort h p in
      let started : IsShortOutcome clip_ms
          (maybe_emit_continuous_window (start_clip fsm rec now_ms) clip_ms out) =
        rw (metadata_emits_nothing h) (fresh, (λ e. cc), (λ e. cc)) in
      process_record_ind fsm rec clip_ms now_ms out (IsShortOutcome clip_ms)
        (λ v. (s, (λ e. cc), (λ e. cc))) (λ v a. started) (λ v a l. (s, (λ e. cc), (λ e. cc)))
        (λ v a l z g. started) (λ v a l g. (fresh, (λ e. cc), (λ e. s.short)))
        (λ v a n c. cc (metadata_never_compatible s.metadata_only))
        (λ v a n c t. (fresh, (λ e. s.short), (λ e. cc)))
        (λ v a n c t. (record { metadata_only = s.metadata_only; short = t }, (λ e. cc), (λ e. cc)))

aligned : ℕ → ℕ → ℕ
aligned target frame_align = if ltb 1 frame_align then target - target % frame_align else target

sub-mod_self : (t f : ℕ) → (t - t % f) % f ≡ 0
sub-mod_self t f =
    let e : t - t % f ≡ f * (t / f) = omega (arith, div-add-mod t f) in
    rw e (mul-mod_right f (t / f))

aligned_bounds :
    (t f : ℕ) → 0 < f → (aligned t f % f ≡ 0) × (aligned t f ≤ t) × (t < aligned t f + f)
unfolding aligned
aligned_bounds t f h = (ground (arith, sub-mod_self t f, mod-lt t h), grind arith, grind arith)

-- If the product of the clip time in milliseconds and the byte rate is below 2^64, and the rate
-- and the alignment are positive, the bytes of a continuous window are the largest multiple of
-- the alignment that the rate reaches within the clip time.
pub aligned_target_bounds :
    (clip_ms byte_rate frame_align : ℕ)
    → 0 < byte_rate
    → 0 < frame_align
    → clip_ms * byte_rate < 2 ^ 64
    → let target = aligned_target_bytes (pos clip_ms) byte_rate frame_align in
      (target % frame_align ≡ 0)
      × (target * 1000 ≤ clip_ms * byte_rate)
      × (clip_ms * byte_rate < (target + frame_align) * 1000)
unfolding aligned_target_bytes aligned
aligned_target_bounds clip_ms byte_rate frame_align r f h =
    let t = clip_ms * byte_rate / 1000 in
    let exact = thousandth_exact (clip_ms * byte_rate) h in
    let (a, b, c) = aligned_bounds t frame_align f in (ground arith, ground arith, ground arith)

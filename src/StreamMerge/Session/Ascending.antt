-- ===== src/StreamMerge/Session/Ascending.antt =====
-- Between two idle flushes no chunk is taken twice: the sequence numbers taken in rise strictly.
use ws_pipeline_dispatcher.Prelude.{
  ℕ, ◌+◌, ◌≤◌, ◌<◌, Bool, true, false, List, [], ◌∷◌, ◌≡◌, ◌≢◌, arith, if◌then◌else◌,
}
use ws_pipeline_dispatcher.Prelude.Int.{ℤ}
use ws_pipeline_dispatcher.StreamMerge.Records.{
  u64, MetaRecord, Fsm, Action, nothing, reject_late, emit_complete, emit_partial, zero_clip,
}
use ws_pipeline_dispatcher.StreamMerge.Fsm.{fsm_process_record}
use ws_pipeline_dispatcher.StreamMerge.Fsm.Sequence.{refused, taken, process_record-Positions}

abbrev is_reject : Action → Bool
is_reject reject_late = true
is_reject nothing = false
is_reject emit_complete = false
is_reject emit_partial = false

not_reject : (a : Action) → a ≢ reject_late → is_reject a ≡ false
not_reject a h = ground arith

-- The sequence numbers of the records that are not rejected, in their order.
pub taken_seqs : ℤ → Fsm → List (MetaRecord × ℤ) → List ℕ
taken_seqs clip_ms fsm [] = []
taken_seqs clip_ms fsm ((rec, now_ms) ∷ rs) =
    let o = fsm_process_record fsm rec clip_ms now_ms zero_clip in
    let rest = taken_seqs clip_ms o.fsm rs in if is_reject o.action then rest else rec.seq ∷ rest

-- All at least `lo`, each above the one before it.
abbrev pub RiseFrom : ℕ → List ℕ → Type 0
RiseFrom lo [] = Unit
RiseFrom lo (s ∷ ss) = (lo ≤ s) × RiseFrom (s + 1) ss

-- A valid record whose sequence number is not the last 64-bit number.
pub record IsCounted (rec : MetaRecord) : Type 0 where
  pub valid : rec.valid ≡ true
  pub bounded : rec.seq + 1 < u64

abbrev pub AllCounted : List (MetaRecord × ℤ) → Type 0
AllCounted [] = Unit
AllCounted ((rec, now_ms) ∷ rs) = IsCounted rec × AllCounted rs

abbrev pub least_seq : Fsm → ℕ
least_seq fsm = if fsm.active then fsm.expected_seq else 0

-- The sequence numbers of the records that a window takes rise strictly from the expected one,
-- whatever valid records with numbers below 2^64 - 1 come in whatever order.
pub taken_seqs-RiseFrom :
    (clip_ms : ℤ) (fsm : Fsm) (rs : List (MetaRecord × ℤ))
    → AllCounted rs
    → RiseFrom (least_seq fsm) (taken_seqs clip_ms fsm rs)
unfolding taken_seqs
taken_seqs-RiseFrom clip_ms fsm [] h = tt
taken_seqs-RiseFrom clip_ms fsm ((rec, now_ms) ∷ rs) h =
    let o = fsm_process_record fsm rec clip_ms now_ms zero_clip in
    let later = taken_seqs-RiseFrom clip_ms o.fsm rs h.1 in
    elim (process_record-Positions fsm rec clip_ms now_ms zero_clip h.0.valid) [
      | refused a l e ↦ rw e (rw e at later)
      | taken a b c d e ↦
          let next : least_seq o.fsm ≡ rec.seq + 1 = ground (arith, h.0.bounded) in
          rw (not_reject o.action b) (ground arith, rw next at later)
    ]

-- ===== src/StreamMerge/Session/Tile.antt =====
-- A stream with no gap is cut with no gap: the printed clips lie end to end.
use mathlib.Core.List.{append-nil}
use ws_pipeline_dispatcher.Prelude.{
  ℕ, ◌+◌, ◌%◌, true, false, List, [], ◌∷◌, ◌++◌, ◌≡◌, refl, if◌then◌else◌, arith,
}
use ws_pipeline_dispatcher.Prelude.Int.{ℤ}
use ws_pipeline_dispatcher.StreamMerge.Records.{
  u64, MetaRecord, Clip, Fsm, Outcome, zero_fsm, zero_clip,
}
use ws_pipeline_dispatcher.StreamMerge.Fsm.Cases.{process_record_ind}
use ws_pipeline_dispatcher.StreamMerge.Fsm.Window.{
  IsWindow, Fits, process_record-IsWindow, check_idle-IsWindow, flush_final-IsWindow,
}
use ws_pipeline_dispatcher.StreamMerge.Fsm.Sequence.{refused, taken, process_record-Positions}
use ws_pipeline_dispatcher.StreamMerge.Fsm.{
  snapshot_clip, has_gap, maybe_emit_continuous_window, start_clip, append_record,
  fsm_process_record, fsm_check_idle, fsm_flush_final,
}
use ws_pipeline_dispatcher.StreamMerge.Session.{
  Emission, handle_action, Input, chunk, idle, finish, step, run,
}
use ws_pipeline_dispatcher.StreamMerge.Session.Conserve.{run-append}

-- The clips are byte ranges that lie end to end from offset `a` to offset `b`.
abbrev pub Tiles : ℕ → List Emission → ℕ → Type 0
Tiles a [] b = a ≡ b
Tiles a (e ∷ es) b = (e.clip.start_offset ≡ a) × Tiles ((a + e.clip.total_length) % u64) es b

Tiles-append : (a b c : ℕ) (x y : List Emission) → Tiles a x b → Tiles b y c → Tiles a (x ++ y) c
Tiles-append a b c [] y h k = rw h k
Tiles-append a b c (e ∷ x) y h k =
    (h.0, Tiles-append ((a + e.clip.total_length) % u64) b c x y h.1 k)

-- The record has sequence number `s` and begins at offset `p`.
pub record IsNext (s p : ℕ) (rec : MetaRecord) : Type 0 where
  pub valid : rec.valid ≡ true
  pub seq : rec.seq ≡ s
  pub offset : rec.offset ≡ p
  pub fits : Fits rec

-- The records of the inputs follow one another from sequence number `s` and offset `p` on.
abbrev pub Follows : ℕ → ℕ → List Input → Type 0
Follows s p [] = Unit
Follows s p (chunk rec now_ms ∷ is) =
    IsNext s p rec × Follows ((s + 1) % u64) ((p + rec.length) % u64) is
Follows s p (idle now_ms ∷ is) = Follows s p is
Follows s p (finish ∷ is) = Follows s p is

-- The offset behind the last record.
abbrev pub stream_end : ℕ → List Input → ℕ
stream_end p [] = p
stream_end p (chunk rec now_ms ∷ is) = stream_end ((p + rec.length) % u64) is
stream_end p (idle now_ms ∷ is) = stream_end p is
stream_end p (finish ∷ is) = stream_end p is

-- Between two inputs, an open window waits for the record with number `s` at offset `p`.
record Waits (s p : ℕ) (fsm : Fsm) : Type 0 where
  window : IsWindow fsm
  seq : fsm.active ≡ true → fsm.expected_seq ≡ s
  offset : fsm.active ≡ true → fsm.expected_offset ≡ p

-- The offset from which on nothing is printed yet.
abbrev origin : Fsm → ℕ → ℕ
origin fsm p = if fsm.active then fsm.start_offset else p

-- What is printed goes from offset `a` to the origin of the next state.
abbrev Cuts : ℕ → ℕ → Outcome → Type 0
Cuts a p o = Tiles a (handle_action o.action o.out) (origin o.fsm p)

maybe_emit-Cuts :
    (fsm : Fsm) (clip_ms : ℤ) (out : Clip) (a p : ℕ)
    → fsm.active ≡ true
    → fsm.start_offset ≡ a
    → Cuts a p (maybe_emit_continuous_window fsm clip_ms out)
unfolding maybe_emit_continuous_window handle_action
maybe_emit-Cuts fsm clip_ms out a p h e = ground arith

has_gap-next :
    (s p : ℕ) (fsm : Fsm) (rec : MetaRecord)
    → Waits s p fsm
    → IsNext s p rec
    → fsm.active ≡ true
    → has_gap fsm rec ≡ false
unfolding has_gap
has_gap-next s p fsm rec w n a = ground arith

abbrev next_end : ℕ → MetaRecord → ℕ
next_end p rec = (p + rec.length) % u64

module _ (s p : ℕ) (fsm : Fsm) (rec : MetaRecord) (clip_ms now_ms : ℤ) (out : Clip)
    (w : Waits s p fsm) (n : IsNext s p rec) where
  process_record-Cuts :
      Cuts (origin fsm p) (next_end p rec) (fsm_process_record fsm rec clip_ms now_ms out)
  unfolding handle_action snapshot_clip start_clip append_record
  process_record-Cuts =
      let first =
        maybe_emit-Cuts (start_clip fsm rec now_ms) clip_ms out (origin fsm p) (next_end p rec) in
      let more =
        maybe_emit-Cuts (append_record fsm rec now_ms) clip_ms out (origin fsm p)
          (next_end p rec) in
      process_record_ind fsm rec clip_ms now_ms out (Cuts (origin fsm p) (next_end p rec))
        (λ v. cc (n.valid)) (λ v a. first refl (ground arith))
        (λ v a l. absurd (omega (arith, w.seq a, n.seq)))
        (λ v a l z g. cc (has_gap-next s p fsm rec w n a))
        (λ v a l g. cc (has_gap-next s p fsm rec w n a)) (λ v a g c. more a (ground arith))
        (λ v a g c t. ground (arith, w.window.ends, w.offset a, n.offset))
        (λ v a g c t. ground arith)

  process_record-Waits :
      Waits ((s + 1) % u64) (next_end p rec) (fsm_process_record fsm rec clip_ms now_ms out).fsm
  process_record-Waits = elim (process_record-Positions fsm rec clip_ms now_ms out n.valid) [
    | refused a l e ↦ absurd (omega (arith, w.seq a, n.seq))
    | taken a b c d e ↦ record {
      window = process_record-IsWindow fsm rec clip_ms now_ms out w.window n.fits;
      seq = λ _. ground arith;
      offset = λ _. ground arith;
    }
  ]

module _ (s p : ℕ) (fsm : Fsm) (w : Waits s p fsm) (out : Clip) where
  check_idle-Cuts :
      (idle_ms now_ms : ℤ)
      → Cuts (origin fsm p) p (fsm_check_idle fsm idle_ms now_ms out)
        × Waits s p (fsm_check_idle fsm idle_ms now_ms out).fsm
  unfolding handle_action fsm_check_idle
  check_idle-Cuts idle_ms now_ms = (
    ground (arith, w.window.ends),
    record {
      window = check_idle-IsWindow fsm out idle_ms now_ms w.window;
      seq = ground arith;
      offset = ground arith;
    },
  )

  flush_final-Cuts :
      Cuts (origin fsm p) p (fsm_flush_final fsm out)
      × Waits s p (fsm_flush_final fsm out).fsm
      × (origin (fsm_flush_final fsm out).fsm p ≡ p)
  unfolding handle_action fsm_flush_final
  flush_final-Cuts = (
    ground (arith, w.window.ends),
    record {
      window = flush_final-IsWindow fsm out w.window;
      seq = ground arith;
      offset = ground arith;
    },
    ground (arith, w.window.ends),
  )

run-Tiles :
    (clip_ms idle_ms : ℤ) (is : List Input) (s p : ℕ) (fsm : Fsm)
    → Waits s p fsm
    → Follows s p is
    → let r = run clip_ms idle_ms fsm is in
      Tiles (origin fsm p) r.0 (origin r.1 (stream_end p is))
      × ((t : ℕ) × Waits t (stream_end p is) r.1)
unfolding run step
run-Tiles clip_ms idle_ms [] s p fsm w f = (refl, (s, w))
run-Tiles clip_ms idle_ms (chunk rec now_ms ∷ is) s p fsm w f =
    let o = fsm_process_record fsm rec clip_ms now_ms zero_clip in
    let w' = process_record-Waits s p fsm rec clip_ms now_ms zero_clip w f.0 in
    let (later, end) = run-Tiles clip_ms idle_ms is _ _ o.fsm w' f.1 in
    (
      Tiles-append _ _ _ (handle_action o.action o.out) _
          (process_record-Cuts s p fsm rec clip_ms now_ms zero_clip w f.0) later,
      end,
    )
run-Tiles clip_ms idle_ms (idle now_ms ∷ is) s p fsm w f =
    let o = fsm_check_idle fsm idle_ms now_ms zero_clip in
    let (cut, w') = check_idle-Cuts s p fsm w zero_clip idle_ms now_ms in
    let (later, end) = run-Tiles clip_ms idle_ms is s p o.fsm w' f in
    (Tiles-append _ _ _ (handle_action o.action o.out) _ cut later, end)
run-Tiles clip_ms idle_ms (finish ∷ is) s p fsm w f =
    let o = fsm_flush_final fsm zero_clip in
    let (cut, w', _) = flush_final-Cuts s p fsm w zero_clip in
    let (later, end) = run-Tiles clip_ms idle_ms is s p o.fsm w' f in
    (Tiles-append _ _ _ (handle_action o.action o.out) _ cut later, end)

-- For records in sequence with no gap, with idle checks in between, the printed clips of a
-- session that ends with the final flush lie end to end from the first record's offset to the
-- end of the last record.
pub session-Tiles :
    (clip_ms idle_ms : ℤ) (s p : ℕ) (is : List Input)
    → Follows s p is
    → Tiles p (run clip_ms idle_ms zero_fsm (is ++ finish ∷ [])).0 (stream_end p is)
unfolding run step
session-Tiles clip_ms idle_ms s p is f =
    let start : Waits s p zero_fsm = record {
      window = omega arith;
      seq = λ e. cc;
      offset = λ e. cc;
    } in
    let r = run clip_ms idle_ms zero_fsm is in
    let (cut, (t, w)) = run-Tiles clip_ms idle_ms is s p zero_fsm start f in
    let (last, _, end) = flush_final-Cuts t (stream_end p is) r.1 w zero_clip in
    rw (run-append, append-nil) (Tiles-append p _ _ r.0 _ cut (rw end at last))

-- ===== src/StreamMerge/Session/Conserve.antt =====
-- No byte is lost or printed twice: over any session the printed clips and the open window hold as
-- many bytes as the session started with and took in.
use mathlib.Core.List.{append_assoc}
use ws_pipeline_dispatcher.Prelude.{ℕ, ◌+◌, ◌%◌, true, List, [], ◌∷◌, ◌++◌, ◌≡◌, refl, arith}
use ws_pipeline_dispatcher.Prelude.Int.{ℤ}
use ws_pipeline_dispatcher.StreamMerge.Records.{
  u64, MetaRecord, Clip, Fsm, Outcome, zero_fsm, zero_clip,
}
use ws_pipeline_dispatcher.StreamMerge.Fsm.Cases.{process_record_ind}
use ws_pipeline_dispatcher.StreamMerge.Fsm.Window.{
  IsWindow, Fits, emitted, taken_in, process_record-IsWindow, process_record-balance,
  check_idle-IsWindow, check_idle-balance, flush_final-IsWindow, flush_final-balance,
}
use ws_pipeline_dispatcher.StreamMerge.Fsm.{
  snapshot_clip, maybe_emit_continuous_window, start_clip, append_record, fsm_process_record,
  fsm_check_idle, fsm_flush_final,
}
use ws_pipeline_dispatcher.StreamMerge.Session.{
  Emission, handle_action, Input, chunk, idle, finish, step, run,
}

-- The bytes of the printed clips.
abbrev pub clip_bytes : List Emission → ℕ
clip_bytes [] = 0
clip_bytes (e ∷ es) = e.clip.total_length + clip_bytes es

clip_bytes-append : (a b : List Emission) → clip_bytes (a ++ b) ≡ clip_bytes a + clip_bytes b
clip_bytes-append [] b = omega arith
clip_bytes-append (e ∷ a) b = omega (arith, clip_bytes-append a b)

-- The bytes that an input brings in, and those of all inputs: a record counts if it is valid and
-- not late at its turn.
abbrev pub input_bytes : Fsm → Input → ℕ
input_bytes fsm (chunk rec now_ms) = taken_in fsm rec
input_bytes fsm (idle now_ms) = 0
input_bytes fsm finish = 0

abbrev pub stream_bytes : ℤ → ℤ → Fsm → List Input → ℕ
stream_bytes clip_ms idle_ms fsm [] = 0
stream_bytes clip_ms idle_ms fsm (i ∷ is) =
    input_bytes fsm i + stream_bytes clip_ms idle_ms (step clip_ms idle_ms fsm i).fsm is

abbrev pub AllFit : List Input → Type 0
AllFit [] = Unit
AllFit (chunk rec now_ms ∷ is) = Fits rec × AllFit is
AllFit (idle now_ms ∷ is) = AllFit is
AllFit (finish ∷ is) = AllFit is

-- What is emitted is an open clip, so it is printed.
abbrev Prints : Outcome → Type 0
Prints o = clip_bytes (handle_action o.action o.out) ≡ emitted o

maybe_emit-Prints :
    (fsm : Fsm) (clip_ms : ℤ) (out : Clip)
    → fsm.active ≡ true
    → Prints (maybe_emit_continuous_window fsm clip_ms out)
unfolding maybe_emit_continuous_window handle_action
maybe_emit-Prints fsm clip_ms out a = ground arith

process_record-Prints :
    (fsm : Fsm) (rec : MetaRecord) (clip_ms now_ms : ℤ) (out : Clip)
    → Prints (fsm_process_record fsm rec clip_ms now_ms out)
unfolding handle_action snapshot_clip start_clip append_record
process_record-Prints fsm rec clip_ms now_ms out =
    process_record_ind fsm rec clip_ms now_ms out Prints (λ v. refl)
      (λ v a. maybe_emit-Prints (start_clip fsm rec now_ms) clip_ms out refl) (λ v a l. refl)
      (λ v a l z g. maybe_emit-Prints (start_clip fsm rec now_ms) clip_ms out refl)
      (λ v a l g. ground arith)
      (λ v a n c. maybe_emit-Prints (append_record fsm rec now_ms) clip_ms out a)
      (λ v a n c t. ground arith) (λ v a n c t. refl)

step-Prints : (clip_ms idle_ms : ℤ) (fsm : Fsm) (i : Input) → Prints (step clip_ms idle_ms fsm i)
unfolding step handle_action fsm_check_idle fsm_flush_final
step-Prints clip_ms idle_ms fsm (chunk rec now_ms) =
    process_record-Prints fsm rec clip_ms now_ms zero_clip
step-Prints clip_ms idle_ms fsm (idle now_ms) = ground arith
step-Prints clip_ms idle_ms fsm finish = ground arith

step-IsWindow :
    (clip_ms idle_ms : ℤ) (fsm : Fsm) (i : Input)
    → AllFit (i ∷ [])
    → IsWindow fsm
    → IsWindow (step clip_ms idle_ms fsm i).fsm
unfolding step
step-IsWindow clip_ms idle_ms fsm (chunk rec now_ms) f w =
    process_record-IsWindow fsm rec clip_ms now_ms zero_clip w f.0
step-IsWindow clip_ms idle_ms fsm (idle now_ms) f w =
    check_idle-IsWindow fsm zero_clip idle_ms now_ms w
step-IsWindow clip_ms idle_ms fsm finish f w = flush_final-IsWindow fsm zero_clip w

step-balance :
    (clip_ms idle_ms : ℤ) (fsm : Fsm) (i : Input)
    → AllFit (i ∷ [])
    → IsWindow fsm
    → let o = step clip_ms idle_ms fsm i in
      (o.fsm.total_length + emitted o) % u64 ≡ (fsm.total_length + input_bytes fsm i) % u64
unfolding step
step-balance clip_ms idle_ms fsm (chunk rec now_ms) f w =
    process_record-balance fsm rec clip_ms now_ms zero_clip w f.0
step-balance clip_ms idle_ms fsm (idle now_ms) f w =
    omega (arith, check_idle-balance fsm zero_clip idle_ms now_ms)
step-balance clip_ms idle_ms fsm finish f w =
    let (left, printed) = flush_final-balance fsm zero_clip w in omega arith

first_fits : (i : Input) (is : List Input) → AllFit (i ∷ is) → AllFit (i ∷ []) × AllFit is
first_fits (chunk rec now_ms) is f = ((f.0, tt), f.1)
first_fits (idle now_ms) is f = (tt, f)
first_fits finish is f = (tt, f)

run-balance :
    (clip_ms idle_ms : ℤ) (fsm : Fsm) (is : List Input)
    → AllFit is
    → IsWindow fsm
    → let r = run clip_ms idle_ms fsm is in
      IsWindow r.1
      × ((r.1.total_length + clip_bytes r.0) % u64
          ≡ (fsm.total_length + stream_bytes clip_ms idle_ms fsm is) % u64)
unfolding run
run-balance clip_ms idle_ms fsm [] f w = (w, refl)
run-balance clip_ms idle_ms fsm (i ∷ is) f w =
    let (f₁, fs) = first_fits i is f in
    let o = step clip_ms idle_ms fsm i in
    let (w', later) =
      run-balance clip_ms idle_ms o.fsm is fs (step-IsWindow clip_ms idle_ms fsm i f₁ w) in
    (
      w',
      omega (
        arith,
        later,
        step-balance clip_ms idle_ms fsm i f₁ w,
        step-Prints clip_ms idle_ms fsm i,
        clip_bytes-append (handle_action o.action o.out) (run clip_ms idle_ms o.fsm is).0,
      ),
    )

pub run-append :
    (clip_ms idle_ms : ℤ) (fsm : Fsm) (is js : List Input)
    → let r = run clip_ms idle_ms fsm is in
      let r' = run clip_ms idle_ms r.1 js in
      run clip_ms idle_ms fsm (is ++ js) ≡ (r.0 ++ r'.0, r'.1)
unfolding run
run-append clip_ms idle_ms fsm [] js = refl
run-append clip_ms idle_ms fsm (i ∷ is) js =
    simp (run-append clip_ms idle_ms (step clip_ms idle_ms fsm i).fsm is js, append_assoc)

zero-IsWindow : IsWindow zero_fsm
zero-IsWindow = omega arith

-- From the empty state to the final flush, the printed clips have as many bytes, in 64-bit
-- arithmetic, as the valid records that were not late.
pub session_conserves :
    (clip_ms idle_ms : ℤ) (is : List Input)
    → AllFit is
    → clip_bytes (run clip_ms idle_ms zero_fsm (is ++ finish ∷ [])).0 % u64
      ≡ stream_bytes clip_ms idle_ms zero_fsm is % u64
unfolding run step
session_conserves clip_ms idle_ms is f =
    let r = run clip_ms idle_ms zero_fsm is in
    let (w, balance) = run-balance clip_ms idle_ms zero_fsm is f zero-IsWindow in
    let (left, printed) = flush_final-balance r.1 zero_clip w in
    let o = step clip_ms idle_ms r.1 finish in
    rw run-append (
      omega (
        arith,
        balance,
        clip_bytes-append r.0 (handle_action o.action o.out ++ []),
        clip_bytes-append (handle_action o.action o.out) [],
        step-Prints clip_ms idle_ms r.1 finish,
      ))

-- ===== src/StreamMerge/Drain/Refines.antt =====
-- applets/stream_merge/stream_merge.c, `drain_meta`: what a call does to the session, as a run of the
-- session's steps on the records of the whole lines.
use mathlib.Core.List.{append_assoc, append-nil}
use ws_pipeline_dispatcher.Prelude.{
  ℕ, ◌+◌, true, List, [], ◌∷◌, ◌++◌, ◌≡◌, refl, sym, ap, ◌∙◌, inl, inr, Option, none, some, arith,
  if◌then◌else◌, Bool-cases, length, length-append, Bytes,
}
use ws_pipeline_dispatcher.Prelude.Int.{ℤ}
use ws_pipeline_dispatcher.ClipStore.Format.{c_string}
use ws_pipeline_dispatcher.StreamMerge.Records.{MetaRecord, zero_clip}
use ws_pipeline_dispatcher.StreamMerge.Fsm.{fsm_process_record}
use ws_pipeline_dispatcher.StreamMerge.Session
use ws_pipeline_dispatcher.StreamMerge.Session.{Emission, Input, chunk, run, step}
use ws_pipeline_dispatcher.StreamMerge.Session.Conserve.{run-append}
use ws_pipeline_dispatcher.StreamMerge.Reader.{parse_line}
use ws_pipeline_dispatcher.DynamicBuffer.Chain.{joined}
use ws_pipeline_dispatcher.StreamMerge.Emit.{Env, Printed}
use ws_pipeline_dispatcher.StreamMerge.Emit.Text.{
  Prints, whole, cut_off, texts, handle_action-Prints,
}
use ws_pipeline_dispatcher.StreamMerge.Drain.{Drain, is_data, feed, feed_data, handle_line}

joined_assoc : (a b c : Option Bytes) → joined (joined a b) c ≡ joined a (joined b c)
joined_assoc none b c = refl
joined_assoc (some a) none c = refl
joined_assoc (some a) (some b) none = refl
joined_assoc (some a) (some b) (some c) = ap some (append_assoc a b c)

joined_nil : (o : Option Bytes) → joined (some []) o ≡ o
joined_nil none = refl
joined_nil (some s) = ap some (nil-append s)
  where
    nil-append : (s : Bytes) → [] ++ s ≡ s
    nil-append s = refl

pub whole_of :
    (out : Bytes) (o : Option Bytes) (r : Printed)
    → Prints out o r
    → r.1 ≡ true
    → (text : Bytes) × (o ≡ some text) × (r.0 ≡ out ++ text)
whole_of out o r (whole text e) h = (text, e, refl)
whole_of out o r (cut_off out') h = absurd (cc)

module _ (env : Env) where
  pub texts-append : (a b : List Emission) → texts env (a ++ b) ≡ joined (texts env a) (texts env b)
  texts-append [] b = sym (joined_nil (texts env b))
  texts-append (e ∷ a) b = rw (texts-append a b) (sym (joined_assoc _ (texts env a) (texts env b)))

  -- The data record of a line, if it has one.
  abbrev pub kept_record : Option MetaRecord → Option MetaRecord
  kept_record none = none
  kept_record (some rec) = if is_data rec then some rec else none

  abbrev pub data_record : Bytes → Option MetaRecord
  data_record [] = none
  data_record (c ∷ line) = kept_record (parse_line env.lib (c_string (c ∷ line)))

  -- The inputs of the session that the lines stand for, from a call of the clock on.
  abbrev pub put_input : Option MetaRecord → ℕ → (ℕ → List Input) → List Input
  put_input none ticks more = more ticks
  put_input (some rec) ticks more = chunk rec (env.clock ticks) ∷ more (ticks + 1)

  abbrev pub inputs_of : List Bytes → ℕ → List Input
  inputs_of [] ticks = []
  inputs_of (line ∷ lines) ticks = put_input (data_record line) ticks (inputs_of lines)

  -- The inputs of one line.
  abbrev pub inputs_of_line : Option MetaRecord → ℕ → List Input
  inputs_of_line o ticks = put_input o ticks (λ later. [])

module _ (env : Env) (clip_ms idle_ms : ℤ) where
  -- The session has run on the inputs, and the records of its clips were printed.
  pub record Fed (st : Drain) (is : List Input) (st' : Drain) : Type 0 where
    pub fsm : st'.fsm ≡ (run clip_ms idle_ms st.fsm is).1
    pub ticks : st'.ticks ≡ st.ticks + length is
    pub text : Bytes
    pub clips : texts env (run clip_ms idle_ms st.fsm is).0 ≡ some text
    pub out : st'.out ≡ st.out ++ text

  pub Fed_trans :
      (st st₁ st₂ : Drain) (is js : List Input)
      → Fed st is st₁
      → Fed st₁ js st₂
      → Fed st (is ++ js) st₂
  Fed_trans st st₁ st₂ is js f g =
      let both = run-append clip_ms idle_ms st.fsm is js in
      let first = run clip_ms idle_ms st.fsm is in
      let second = run clip_ms idle_ms first.1 js in
      let later : run clip_ms idle_ms st₁.fsm js ≡ second =
        ap (λ m. run clip_ms idle_ms m js) f.fsm in
      record {
        fsm = g.fsm ∙ ap (λ r. r.1) later ∙ sym (ap (λ r. r.1) both);
        ticks = omega (arith, f.ticks, g.ticks, length-append is js);
        text = f.text ++ g.text;
        clips =
            ap (λ r. texts env r.0) both
            ∙ texts-append env first.0 second.0
            ∙ ap (λ o. joined o (texts env second.0)) f.clips
            ∙ ap (λ o. joined (some f.text) o) (ap (λ r. texts env r.0) (sym later) ∙ g.clips);
        out = g.out ∙ ap (λ t. t ++ g.text) f.out ∙ append_assoc st.out f.text g.text;
      }

  pub none_Fed : (st : Drain) → Fed st [] st
  unfolding run
  none_Fed st = record {
    fsm = refl;
    ticks = omega arith;
    text = [];
    clips = refl;
    out = sym (append-nil st.out);
  }

  feed-Fed :
      (st : Drain) (rec : MetaRecord)
      → (feed env clip_ms st rec).1 ≡ true
      → Fed st (chunk rec (env.clock st.ticks) ∷ []) (feed env clip_ms st rec).0
  unfolding feed run step
  feed-Fed st rec h =
      let o = fsm_process_record st.fsm rec clip_ms (env.clock st.ticks) zero_clip in
      let (text, clips, out) =
        whole_of st.out _ _ (handle_action-Prints env o.action o.out st.out) h in
      record {
        fsm = refl;
        ticks = omega arith;
        text = text;
        clips = ap (texts env) (append-nil (Session.handle_action o.action o.out)) ∙ clips;
        out = out;
      }

  feed_data-Fed :
      (st : Drain) (o : Option MetaRecord)
      → (feed_data env clip_ms st o).1 ≡ true
      → Fed st (inputs_of_line env (kept_record env o) st.ticks) (feed_data env clip_ms st o).0
  feed_data-Fed st none h = none_Fed st
  feed_data-Fed st (some rec) h = elim (Bool-cases (is_data rec)) [
    | inl e ↦ rw e (feed-Fed st rec (rw e at h))
    | inr e ↦ rw e (none_Fed st)
  ]

  pub handle_line-Fed :
      (st : Drain) (line : Bytes)
      → (handle_line env clip_ms st line).1 ≡ true
      → Fed st
          (inputs_of_line env (data_record env line) st.ticks)
          (handle_line env clip_ms st line).0
  unfolding handle_line
  handle_line-Fed st [] h = none_Fed st
  handle_line-Fed st (c ∷ line) h = feed_data-Fed st (parse_line env.lib (c_string (c ∷ line))) h

  -- A line leaves the buffer to the loop.
  feed_data_buf : (st : Drain) (o : Option MetaRecord) → (feed_data env clip_ms st o).0.buf ≡ st.buf
  unfolding feed
  feed_data_buf st none = refl
  feed_data_buf st (some rec) = elim (Bool-cases (is_data rec)) [
    | inl e ↦ rw e refl
    | inr e ↦ rw e refl
  ]

  pub handle_line_buf :
      (st : Drain) (line : Bytes) → (handle_line env clip_ms st line).0.buf ≡ st.buf
  unfolding handle_line
  handle_line_buf st [] = refl
  handle_line_buf st (c ∷ line) = feed_data_buf st (parse_line env.lib (c_string (c ∷ line)))

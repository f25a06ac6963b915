-- ===== src/StreamMerge/Main/Ran.antt =====
-- applets/stream_merge/stream_merge.c: the states of `stream_merge_main` as those of a session.
use mathlib.Core.Path.{subst}
use mathlib.Core.List.{append-nil}
use ws_pipeline_dispatcher.Prelude.{
  ℕ, ◌+◌, Bool, true, List, [], ◌∷◌, ◌++◌, ◌≡◌, refl, sym, ap, ◌∙◌, some, Bytes, some_inj, length,
}
use ws_pipeline_dispatcher.Prelude.Int.{ℤ}
use ws_pipeline_dispatcher.DynamicBuffer.Reserve.{content, IsBuffer}
use ws_pipeline_dispatcher.Library.Inotify.{Stop}
use ws_pipeline_dispatcher.StreamMerge.Records.{Fsm, zero_fsm}
use ws_pipeline_dispatcher.StreamMerge.Session
use ws_pipeline_dispatcher.StreamMerge.Session.{Emission, Input, chunk, idle, finish, run, step}
use ws_pipeline_dispatcher.StreamMerge.Session.Conserve.{run-append}
use ws_pipeline_dispatcher.DynamicBuffer.Chain.{joined}
use ws_pipeline_dispatcher.StreamMerge.Emit.{Env}
use ws_pipeline_dispatcher.StreamMerge.Emit.Text.{texts, handle_action-Prints}
use ws_pipeline_dispatcher.StreamMerge.Drain.{Drain, Reads, drain_meta}
use ws_pipeline_dispatcher.StreamMerge.Drain.Lines.{lines_of, lines_of-append}
use ws_pipeline_dispatcher.StreamMerge.Drain.Refines.{inputs_of, whole_of, texts-append}
use ws_pipeline_dispatcher.StreamMerge.Drain.Loop.{Drains, drain_meta-Drains}
use ws_pipeline_dispatcher.StreamMerge.Drain.Reading.{bytes_of}
use ws_pipeline_dispatcher.StreamMerge.Main.{act, check_idle}
use ws_pipeline_dispatcher.StreamMerge.Main.Inputs.{Progress, tick, read_on, check_now}
use ws_pipeline_dispatcher.StreamMerge.Main.Records.{
  chunk_records, chunk_records-append, data_records, data_records-append, inputs_of_records,
}

module _ (env : Env) (clip_ms idle_ms : ℤ) where
  abbrev pub session : List Input → List Emission × Fsm
  session is = run clip_ms idle_ms zero_fsm is

  -- The state behind a session on the inputs, whose chunks are the data records of the whole lines
  -- of the text; the rest of the text is in the buffer.
  pub record Ran (st : Drain) (is : List Input) (text : Bytes) : Type 0 where
    pub buffer : IsBuffer st.buf
    pub fsm : st.fsm ≡ (session is).1
    pub prints : texts env (session is).0 ≡ some st.out
    pub rest : content st.buf ≡ (lines_of text).1
    pub records : chunk_records is ≡ data_records env (lines_of text).0

  pub session-append :
      (is js : List Input)
      → session (is ++ js) ≡ (
        (session is).0 ++ (run clip_ms idle_ms (session is).1 js).0,
        (run clip_ms idle_ms (session is).1 js).1,
      )
  session-append is js = run-append clip_ms idle_ms zero_fsm is js

  -- More inputs, with the text of their clips.
  pub more_prints :
      (st : Drain) (is js : List Input) (out text : Bytes)
      → st.fsm ≡ (session is).1
      → texts env (session is).0 ≡ some st.out
      → texts env (run clip_ms idle_ms st.fsm js).0 ≡ some text
      → out ≡ st.out ++ text
      → texts env (session (is ++ js)).0 ≡ some out
  more_prints st is js out text same before after all =
      let later : run clip_ms idle_ms (session is).1 js ≡ run clip_ms idle_ms st.fsm js =
        ap (λ m. run clip_ms idle_ms m js) (sym same) in
      ap (λ r. texts env r.0) (session-append is js)
      ∙ texts-append env (session is).0 (run clip_ms idle_ms (session is).1 js).0
      ∙ ap (λ o. joined o (texts env (run clip_ms idle_ms (session is).1 js).0)) before
      ∙ ap (λ r. joined (some st.out) (texts env r.0)) later
      ∙ ap (λ o. joined (some st.out) o) after
      ∙ ap some (sym all)

  pub more_fsm :
      (st : Drain) (is js : List Input) (fsm : Fsm)
      → st.fsm ≡ (session is).1
      → fsm ≡ (run clip_ms idle_ms st.fsm js).1
      → fsm ≡ (session (is ++ js)).1
  more_fsm st is js fsm same after =
      after
      ∙ ap (λ m. (run clip_ms idle_ms m js).1) same
      ∙ sym (ap (λ r. r.1) (session-append is js))

  pub drain-Ran :
      (st : Drain) (is : List Input) (text bytes : Bytes) (r : Drain × Bool)
      → Ran st is text
      → Drains env clip_ms idle_ms st (content st.buf ++ bytes) r
      → r.1 ≡ true
      → Ran r.0
          (is ++ inputs_of env (lines_of (content st.buf ++ bytes)).0 st.ticks)
          (text ++ bytes)
  drain-Ran st is text bytes r ran d ok =
      let f = d.fed ok in
      let js = inputs_of env (lines_of (content st.buf ++ bytes)).0 st.ticks in
      let whole = lines_of-append text bytes in
      let behind = ap (λ s. lines_of (s ++ bytes)) ran.rest in
      record {
        buffer = d.buffer;
        fsm = more_fsm st is js r.0.fsm ran.fsm f.fsm;
        prints = more_prints st is js r.0.out f.text ran.fsm ran.prints f.clips f.out;
        rest = d.rest ok ∙ ap (λ ls. ls.1) behind ∙ sym (ap (λ ls. ls.1) whole);
        records =
            chunk_records-append is js
            ∙ ap (λ r. r ++ chunk_records js) ran.records
            ∙ ap (λ r. data_records env (lines_of text).0 ++ r)
                (inputs_of_records env (lines_of (content st.buf ++ bytes)).0 st.ticks
                  ∙ ap (λ ls. data_records env ls.0) behind)
            ∙ sym (data_records-append env (lines_of text).0 _)
            ∙ ap (λ ls. data_records env ls.0) (sym whole);
      }

  -- The state behind the inputs of a progress, whose text so far is `text`.
  pub record Reached (st : Drain) (p : Progress) (text : Bytes) : Type 0 where
    pub ran : Ran st p.inputs text
    pub rest : content st.buf ≡ p.rest
    pub ticks : st.ticks ≡ p.ticks

  drain-Reached :
      (st : Drain) (p : Progress) (text bytes : Bytes) (r : Drain × Bool)
      → Reached st p text
      → Drains env clip_ms idle_ms st (content st.buf ++ bytes) r
      → r.1 ≡ true
      → Reached r.0 (read_on env bytes p) (text ++ bytes)
  drain-Reached st p text bytes r h d ok =
      let inputs : inputs_of env (lines_of (content st.buf ++ bytes)).0 st.ticks
          ≡ inputs_of env (lines_of (p.rest ++ bytes)).0 p.ticks =
        λ i. inputs_of env (lines_of (h.rest i ++ bytes)).0 (h.ticks i) in
      let f = d.fed ok in
      record {
        ran =
            subst (λ js. Ran r.0 (p.inputs ++ js) (text ++ bytes)) inputs
              (drain-Ran st p.inputs text bytes r h.ran d ok);
        rest = d.rest ok ∙ ap (λ s. (lines_of (s ++ bytes)).1) h.rest;
        ticks = f.ticks ∙ (λ i. h.ticks i + length (inputs i));
      }

  pub drain_meta-Reached :
      (st st' : Drain) (p : Progress) (text : Bytes) (reads : Reads) (stop : Stop)
      → Reached st p text
      → drain_meta env clip_ms st reads stop ≡ some (st', true)
      → Reached st' (read_on env (bytes_of reads) p) (text ++ bytes_of reads)
  drain_meta-Reached st st' p text reads stop h e =
      let (r, eq, d) = drain_meta-Drains env clip_ms idle_ms st reads stop h.ran.buffer in
      let d' =
        subst (Drains env clip_ms idle_ms st (content st.buf ++ bytes_of reads))
          (some_inj (sym eq ∙ e)) d in
      drain-Reached st p text (bytes_of reads) (st', true) h d' refl

  -- An idle check or the final flush.
  pub act-Ran :
      (st : Drain) (is : List Input) (text : Bytes) (i : Input)
      → chunk_records (i ∷ []) ≡ []
      → Ran st is text
      → (act env clip_ms idle_ms st (step clip_ms idle_ms st.fsm i)).1 ≡ true
      → Ran (act env clip_ms idle_ms st (step clip_ms idle_ms st.fsm i)).0 (is ++ i ∷ []) text
  unfolding run
  act-Ran st is text i none_taken ran h =
      let o = step clip_ms idle_ms st.fsm i in
      let (more, clips, out) =
        whole_of st.out _ _ (handle_action-Prints env o.action o.out st.out) h in
      record {
        buffer = ran.buffer;
        fsm = more_fsm st is (i ∷ []) o.fsm ran.fsm refl;
        prints =
            more_prints st is (i ∷ []) _ more ran.fsm ran.prints
              (ap (texts env) (append-nil (Session.handle_action o.action o.out)) ∙ clips) out;
        rest = ran.rest;
        records =
            chunk_records-append is (i ∷ [])
            ∙ ap (λ r. chunk_records is ++ r) none_taken
            ∙ append-nil (chunk_records is)
            ∙ ran.records;
      }

  pub tick-Ran :
      (st : Drain) (is : List Input) (text : Bytes) (n : ℕ)
      → Ran st is text
      → Ran (record st { ticks = n }) is text
  tick-Ran st is text n ran = record {
    buffer = ran.buffer;
    fsm = ran.fsm;
    prints = ran.prints;
    rest = ran.rest;
    records = ran.records;
  }

  pub tick-Reached :
      (st : Drain) (p : Progress) (text : Bytes)
      → Reached st p text
      → Reached (record st { ticks = st.ticks + 1 }) (tick p) text
  tick-Reached st p text h = record {
    ran = tick-Ran st p.inputs text (st.ticks + 1) h.ran;
    rest = h.rest;
    ticks = ap (λ n. n + 1) h.ticks;
  }

  pub check_idle-Reached :
      (st : Drain) (p : Progress) (text : Bytes)
      → Reached st p text
      → (check_idle env clip_ms idle_ms st).1 ≡ true
      → Reached (check_idle env clip_ms idle_ms st).0 (check_now env p) text
  unfolding check_idle step
  check_idle-Reached st p text h ok =
      let checked =
        act-Ran (record st { ticks = st.ticks + 1 }) p.inputs text (idle (env.clock st.ticks)) refl
          (tick-Ran st p.inputs text (st.ticks + 1) h.ran) ok in
      record {
        ran =
            subst
              (λ n.
                Ran (check_idle env clip_ms idle_ms st).0 (p.inputs ++ idle (env.clock n) ∷ [])
                  text)
              h.ticks checked;
        rest = h.rest;
        ticks = ap (λ n. n + 1) h.ticks;
      }

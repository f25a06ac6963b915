-- ===== src/StreamMerge/Main/Session.antt =====
-- applets/stream_merge/stream_merge.c, `stream_merge_main`: what a session that ends with 0 has
-- printed.
use mathlib.Core.Path.{subst}
use ws_pipeline_dispatcher.Prelude.{
  ◌%◌, Bool, true, false, List, [], ◌∷◌, ◌++◌, ◌≡◌, refl, sym, ap, ◌∙◌, some, ◌>>=◌, bind-eq-some,
  Bytes, some_inj,
}
use ws_pipeline_dispatcher.Prelude.Int.{ℤ}
use ws_pipeline_dispatcher.DynamicBuffer.Reserve.{IsBuffer, unallocated}
use ws_pipeline_dispatcher.Library.Inotify.{Stop}
use ws_pipeline_dispatcher.StreamMerge.Records.{u64, zero_fsm}
use ws_pipeline_dispatcher.StreamMerge.Session.{Input, finish, run, step}
use ws_pipeline_dispatcher.StreamMerge.Session.Conserve.{
  clip_bytes, stream_bytes, session_conserves,
}
use ws_pipeline_dispatcher.StreamMerge.Emit.{Env}
use ws_pipeline_dispatcher.StreamMerge.Emit.Text.{texts}
use ws_pipeline_dispatcher.StreamMerge.Drain.{Drain, Reads, drain_meta}
use ws_pipeline_dispatcher.StreamMerge.Drain.Lines.{lines_of}
use ws_pipeline_dispatcher.StreamMerge.Drain.Reading.{bytes_of}
use ws_pipeline_dispatcher.StreamMerge.Main.{
  Round, Loop, going, broken, main_loop, after_last, finish_loop, start, after_first,
  stream_merge_main,
}
use ws_pipeline_dispatcher.StreamMerge.Main.Records.{
  chunk_records, data_records, AllRecordsFit, data_records-Fit, fit_inputs,
}
use ws_pipeline_dispatcher.StreamMerge.Main.Ran.{session, Ran, Reached, drain_meta-Reached, act-Ran}
use ws_pipeline_dispatcher.StreamMerge.Main.Inputs.{
  Progress, read_on, rounds_bytes, until_seen, session_inputs,
}
use ws_pipeline_dispatcher.StreamMerge.Main.Rounds.{main_loop-Reached}

module _ (env : Env) (clip_ms idle_ms : ℤ) where
  unfilled-IsBuffer : IsBuffer (start env clip_ms idle_ms).buf
  unfilled-IsBuffer = unallocated refl refl refl

  abbrev opening : Progress
  opening = record { inputs = []; rest = []; ticks = 0 }

  start-Reached : Reached env clip_ms idle_ms (start env clip_ms idle_ms) opening []
  unfolding run
  start-Reached = record {
    ran = record {
      buffer = unfilled-IsBuffer;
      fsm = refl;
      prints = refl;
      rest = refl;
      records = refl;
    };
    rest = refl;
    ticks = refl;
  }

  -- What is printed at the end of a session with these inputs, whose metadata is the text.
  record Finishes (inputs : List Input) (text out : Bytes) : Type 0 where
    records : chunk_records inputs ≡ data_records env (lines_of text).0
    prints : texts env (session env clip_ms idle_ms (inputs ++ finish ∷ [])).0 ≡ some out

  after_last-Finishes :
      (st st' : Drain) (is : List Input) (text : Bytes)
      → Ran env clip_ms idle_ms st is text
      → after_last env clip_ms idle_ms (st, true) ≡ (st', true)
      → Finishes is text st'.out
  unfolding step
  after_last-Finishes st st' is text ran e =
      let ran' = act-Ran env clip_ms idle_ms st is text finish refl ran (ap (λ r. r.1) e) in
      record { records = ran.records; prints = ran'.prints ∙ ap (λ r. some r.0.out) e }

  finish_loop-Finishes :
      (loop : Loop) (st' : Drain) (reads : Reads) (stop : Stop)
      → finish_loop env clip_ms idle_ms (reads, stop) loop ≡ some (st', true)
      → (st : Drain) × (loop ≡ going st true)
        × ((p : Progress) (text : Bytes)
            → Reached env clip_ms idle_ms st p text
            → Finishes (read_on env (bytes_of reads) p).inputs (text ++ bytes_of reads) st'.out)
  finish_loop-Finishes (broken st) st' reads stop e = absurd (cc)
  finish_loop-Finishes (going st false) st' reads stop e = absurd (cc)
  finish_loop-Finishes (going st true) st' reads stop e =
      let ((st₁, ok), drained, e') = bind-eq-some (drain_meta env clip_ms st reads stop) _ e in
      let fine = last_ok st₁ ok (some_inj e') in
      (
        st,
        refl,
        λ p text ran.
            let ran' =
              drain_meta-Reached env clip_ms idle_ms st st₁ p text reads stop ran
                (drained ∙ ap (λ b. some (st₁, b)) fine) in
            after_last-Finishes st₁ st' _ _ ran'.ran
              (ap (λ b. after_last env clip_ms idle_ms (st₁, b)) (sym fine) ∙ some_inj e'),
      )
    where
      last_ok :
          (st₁ : Drain) (ok : Bool)
          → after_last env clip_ms idle_ms (st₁, ok) ≡ (st', true)
          → ok ≡ true
      last_ok st₁ true e = refl
      last_ok st₁ false e = absurd (cc)

  -- The metadata that a session reads: that of the first call, of the rounds, and of the last call.
  abbrev pub session_text : Reads → List Round → Reads → Bytes
  session_text reads rounds last = bytes_of reads ++ rounds_bytes rounds ++ bytes_of last

  -- The output is the records of the clips of a session on the inputs, which takes in the data
  -- records of the lines.
  pub record SessionOf (inputs : List Input) (lines : List Bytes) (out : Bytes) : Type 0 where
    pub records : chunk_records inputs ≡ data_records env lines
    pub prints : texts env (session env clip_ms idle_ms (inputs ++ finish ∷ [])).0 ≡ some out
    pub bytes :
        clip_bytes (session env clip_ms idle_ms (inputs ++ finish ∷ [])).0 % u64
        ≡ stream_bytes clip_ms idle_ms zero_fsm inputs % u64

  -- The output of a session that returns 0 is the records of the clips of one run of the state
  -- machine, from the empty state to one final flush, on these inputs in this order: the data
  -- records of the lines of the first read, then, if the sentinel was not there at the start,
  -- for each round up to that which sees it the data records of the lines that it makes whole
  -- and one idle check, except for an interrupted round, which has neither, and then the data
  -- records of the last read, each record and check with the time of its own call of the clock.
  -- The records are those of the whole lines of all that was read, each once, and the clips have
  -- as many bytes, in 64-bit arithmetic, as the records that were not late.
  pub main-prints_session :
      (reads last : Reads) (stop stop' : Stop) (rounds : List Round) (saw : Bool) (st : Drain)
      → stream_merge_main env clip_ms idle_ms (reads, stop) rounds (last, stop') saw
        ≡ some (st, true)
      → let seen = until_seen env rounds saw in
        SessionOf
          (session_inputs env (bytes_of reads) seen (bytes_of last))
          (lines_of (session_text reads seen last)).0
          st.out
  unfolding stream_merge_main
  main-prints_session reads last stop stop' rounds saw st e =
      let seen = until_seen env rounds saw in
      let ((st₁, ok), drained, e₁) =
        bind-eq-some (drain_meta env clip_ms (start env clip_ms idle_ms) reads stop) _ e in
      let (fine, e₂) = first_ok st₁ ok e₁ in
      let ran =
        drain_meta-Reached env clip_ms idle_ms (start env clip_ms idle_ms) st₁ opening [] reads stop
          start-Reached (drained ∙ ap (λ b. some (st₁, b)) fine) in
      let (loop, looped, e₃) = bind-eq-some (main_loop env clip_ms idle_ms rounds st₁ saw) _ e₂ in
      let (st₂, at, finishes) = finish_loop-Finishes loop st last stop' e₃ in
      let ran' =
        main_loop-Reached env clip_ms idle_ms rounds st₁ st₂ _ (bytes_of reads) saw true ran
          (looped ∙ ap some at) in
      let f = finishes _ (bytes_of reads ++ rounds_bytes seen) ran' in
      let inputs = session_inputs env (bytes_of reads) seen (bytes_of last) in
      let fit = fit_inputs env inputs (
        subst (AllRecordsFit env) (sym f.records)
          (data_records-Fit env (lines_of (session_text reads seen last)).0)) in
      record {
        records = f.records;
        prints = f.prints;
        bytes = session_conserves clip_ms idle_ms inputs fit;
      }
    where
      first_ok :
          (st₁ : Drain) (ok : Bool)
          → after_first env clip_ms idle_ms rounds (last, stop') saw (st₁, ok) ≡ some (st, true)
          → (ok ≡ true)
            × ((main_loop env clip_ms idle_ms rounds st₁ saw
                  >>= finish_loop env clip_ms idle_ms (last, stop'))
                ≡ some (st, true))
      first_ok st₁ true e = (refl, e)
      first_ok st₁ false e = absurd (cc)

-- ===== src/StreamMerge/Drain/Loop.antt =====
-- applets/stream_merge/stream_merge.c, `drain_meta`: its loops end, and a call that returns 0 has fed
-- the records of all whole lines to the session and has kept the rest of the text.
use mathlib.Core.Path.{subst}
use ws_pipeline_dispatcher.Prelude.{
  ℕ, zero, suc, ◌+◌, ◌≤◌, ◌<◌, Bool, true, false, List, [], ◌∷◌, ◌++◌, ◌≡◌, refl, sym, ap, ◌∙◌, inl,
  inr, Option, none, some, arith, Bool-cases, Option-cases, length, length-drop, take, drop, Bytes,
}
use ws_pipeline_dispatcher.Prelude.Int.{ℤ}
use ws_pipeline_dispatcher.DynamicBuffer.{old_block}
use ws_pipeline_dispatcher.DynamicBuffer.Reserve.{content, IsBuffer}
use ws_pipeline_dispatcher.Library.Inotify.{Stop}
use ws_pipeline_dispatcher.StreamMerge.Records.{MetaRecord}
use ws_pipeline_dispatcher.StreamMerge.Session.{Input}
use ws_pipeline_dispatcher.StreamMerge.Emit.{Env}
use ws_pipeline_dispatcher.StreamMerge.Drain.{
  Drain, Reads, read_meta, handle_line, drop_line, find_newline, go_on, drain_lines, drain_meta,
}
use ws_pipeline_dispatcher.StreamMerge.Drain.Lines.{lines_of, lines_of-none, lines_of-some}
use ws_pipeline_dispatcher.StreamMerge.Drain.Shift.{drop_line_lem}
use ws_pipeline_dispatcher.StreamMerge.Drain.Refines.{
  data_record, put_input, inputs_of, inputs_of_line, Fed, Fed_trans, none_Fed, handle_line-Fed,
  handle_line_buf,
}
use ws_pipeline_dispatcher.StreamMerge.Drain.Reading.{bytes_of, read_meta-ReadsTo}

module _ (env : Env) (clip_ms idle_ms : ℤ) where
  -- What a call makes of a text: the buffer is valid; with success the session has run on the
  -- records of the whole lines, their clips are printed, and the rest is in the buffer.
  pub record Drains (st : Drain) (text : Bytes) (r : Drain × Bool) : Type 0 where
    pub buffer : IsBuffer r.0.buf
    pub fed : r.1 ≡ true → Fed env clip_ms idle_ms st (inputs_of env (lines_of text).0 st.ticks) r.0
    pub rest : r.1 ≡ true → content r.0.buf ≡ (lines_of text).1

  put_append :
      (o : Option MetaRecord) (ticks later : ℕ) (more : ℕ → List Input)
      → later ≡ ticks + length (inputs_of_line env o ticks)
      → inputs_of_line env o ticks ++ more later ≡ put_input env o ticks more
  put_append none ticks later more e = let same : later ≡ ticks = omega arith in rw same refl
  put_append (some rec) ticks later more e =
      let same : later ≡ ticks + 1 = omega arith in rw same refl

  module _ (st : Drain) (n : ℕ) (b : IsBuffer st.buf)
      (found : find_newline (content st.buf) ≡ some n) where
    abbrev line : Bytes
    line = take n (content st.buf)

    abbrev next : Drain → Drain
    next st₁ = record st₁ { buf = drop_line st₁.buf n }

    next-IsBuffer :
        (st₁ : Drain)
        → st₁.buf ≡ st.buf
        → IsBuffer (next st₁).buf × (content (next st₁).buf ≡ drop (suc n) (content st.buf))
    next-IsBuffer st₁ same =
        subst
          (λ old.
            IsBuffer (drop_line old n)
            × (content (drop_line old n) ≡ drop (suc n) (content st.buf)))
          (sym same) (drop_line_lem st.buf n b (lines_of-some (content st.buf) n found).0)

    -- The lines behind the first one, from the state behind it.
    later_Drains :
        (st₁ : Drain) (r : Drain × Bool)
        → st₁.buf ≡ st.buf
        → Fed env clip_ms idle_ms st (inputs_of_line env (data_record env line) st.ticks) st₁
        → Drains (next st₁) (content (next st₁).buf) r
        → Drains st (content st.buf) r
    later_Drains st₁ r same f d =
        let (_, cut) = lines_of-some (content st.buf) n found in
        let text : lines_of (content (next st₁).buf) ≡ lines_of (drop (suc n) (content st.buf)) =
          ap lines_of (next-IsBuffer st₁ same).1 in
        let f' : Fed env clip_ms idle_ms st (inputs_of_line env (data_record env line) st.ticks)
            (next st₁) =
          record { fsm = f.fsm; ticks = f.ticks; text = f.text; clips = f.clips; out = f.out } in
        record {
          buffer = d.buffer;
          fed = λ ok.
              let both = Fed_trans env clip_ms idle_ms st (next st₁) r.0 _ _ f' (d.fed ok) in
              subst (λ is. Fed env clip_ms idle_ms st is r.0)
                (put_append (data_record env line) st.ticks st₁.ticks
                    (inputs_of env (lines_of (content (next st₁).buf)).0) f.ticks
                  ∙ ap (λ ls. put_input env (data_record env line) st.ticks (inputs_of env ls))
                      (ap (λ t. t.0) text)
                  ∙ ap (λ t. inputs_of env t.0 st.ticks) (sym cut))
                both;
          rest = λ ok. d.rest ok ∙ ap (λ t. t.1) text ∙ ap (λ t. t.1) (sym cut);
        }

  go_on-true :
      (again : Drain → Option (Drain × Bool)) (n : ℕ) (r : Drain × Bool)
      → r.1 ≡ true
      → go_on env clip_ms again n r ≡ again (record r.0 { buf = drop_line r.0.buf n })
  go_on-true again n (st, true) h = refl
  go_on-true again n (st, false) h = absurd (cc)

  go_on-false :
      (again : Drain → Option (Drain × Bool)) (n : ℕ) (r : Drain × Bool)
      → r.1 ≡ false
      → go_on env clip_ms again n r ≡ some (r.0, false)
  go_on-false again n (st, true) h = absurd (cc)
  go_on-false again n (st, false) h = refl

  -- A call that ends with the result, which is as it should be.
  abbrev Ends : Drain → Bytes → Option (Drain × Bool) → Type 0
  Ends st text o = (r : Drain × Bool) × (o ≡ some r) × Drains st text r

  failed-Drains : (st st' : Drain) (text : Bytes) → IsBuffer st'.buf → Drains st text (st', false)
  failed-Drains st st' text b = record {
    buffer = b;
    fed = λ ok. absurd (cc);
    rest = λ ok. absurd (cc);
  }

  no_line-Drains :
      (st : Drain)
      → IsBuffer st.buf
      → find_newline (content st.buf) ≡ none
      → Drains st (content st.buf) (st, true)
  no_line-Drains st b e =
      let lines = lines_of-none (content st.buf) e in
      record {
        buffer = b;
        fed = λ ok.
            subst (λ ls. Fed env clip_ms idle_ms st (inputs_of env ls st.ticks) st)
              (sym (ap (λ t. t.0) lines)) (none_Fed env clip_ms idle_ms st);
        rest = λ ok. sym (ap (λ t. t.1) lines);
      }

  -- Each line takes at least its newline off the content.
  drain_lines-Ends :
      (rounds : ℕ) (st : Drain)
      → IsBuffer st.buf
      → length (content st.buf) < rounds
      → Ends st (content st.buf) (drain_lines env clip_ms rounds st)
  unfolding drain_lines
  drain_lines-Ends zero st b h = absurd (omega arith)
  drain_lines-Ends (suc rounds) st b h = elim (Option-cases (find_newline (content st.buf))) [
    | inl e ↦ ((st, true), rw e refl, no_line-Drains st b e)
    | inr found ↦
        let (n, e) = found in
        let done_line = handle_line env clip_ms st (line st n b e) in
        let same = handle_line_buf env clip_ms idle_ms st (line st n b e) in
        elim (Bool-cases done_line.1) [
          | inr bad ↦ (
            (done_line.0, false),
            rw e (go_on-false (drain_lines env clip_ms rounds) n done_line bad),
            failed-Drains st done_line.0 _ (subst IsBuffer (sym same) b),
          )
          | inl ok ↦
              let (b', text) = next-IsBuffer st n b e done_line.0 same in
              let short : length (content (next st n b e done_line.0).buf) < rounds = omega (
                arith,
                ap length text,
                length-drop (suc n) (content st.buf),
                (lines_of-some (content st.buf) n e).0,
              ) in
              let (r, eq, d) = drain_lines-Ends rounds (next st n b e done_line.0) b' short in
              (
                r,
                rw e (go_on-true (drain_lines env clip_ms rounds) n done_line ok ∙ eq),
                later_Drains st n b e done_line.0 r same
                    (handle_line-Fed env clip_ms idle_ms st (line st n b e) ok) d,
              )
        ]
  ]

  take-le : (n : ℕ) (s : Bytes) → length (take n s) ≤ n
  take-le zero s = omega arith
  take-le (suc n) [] = omega arith
  take-le (suc n) (c ∷ s) = omega (arith, take-le n s)

  -- A call ends, whatever the reads return and whatever fails. With success it has done what the
  -- session does on the data records of the whole lines of the buffer's old content and the bytes
  -- read, in this order; it has printed the clips of that run whole, and the buffer keeps the text
  -- behind the last line. The buffer is valid in any case.
  pub drain_meta-Drains :
      (st : Drain) (reads : Reads) (stop : Stop)
      → IsBuffer st.buf
      → (r : Drain × Bool) × (drain_meta env clip_ms st reads stop ≡ some r)
        × Drains st (content st.buf ++ bytes_of reads) r
  unfolding drain_meta
  drain_meta-Drains st reads stop b =
      let read = read_meta env.heap st.buf reads stop in
      let all = read_meta-ReadsTo env.heap st.buf reads stop b in
      elim (Bool-cases read.1) [
        | inr bad ↦ (
          (record st { buf = read.0 }, false),
          rw bad refl,
          failed-Drains st (record st { buf = read.0 }) _ all.buffer,
        )
        | inl ok ↦
            let st' : Drain = record st { buf = read.0 } in
            let (r, eq, d) =
              drain_lines-Ends (suc read.0.len) st' all.buffer
                (omega (arith, take-le read.0.len (old_block read.0.data_))) in
            (
              r,
              rw ok eq,
              subst (λ text. Drains st text r) (all.text ok)
                  (record {
                    buffer = d.buffer;
                    fed = λ fine.
                        let f = d.fed fine in
                        record {
                          fsm = f.fsm;
                          ticks = f.ticks;
                          text = f.text;
                          clips = f.clips;
                          out = f.out;
                        };
                    rest = d.rest;
                  }),
            )
      ]

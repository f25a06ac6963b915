-- ===== src/StreamMerge/Drain/Batches.antt =====
-- applets/stream_merge/stream_merge.c: a session does the same however its metadata comes in pieces,
-- and no metadata file breaks the bounds that the state machine relies on.
use mathlib.Core.Path.{subst}
use mathlib.Core.List.{append_assoc}
use ws_pipeline_dispatcher.Prelude.{
  ℕ, suc, ◌+◌, ◌%◌, Bool, true, List, [], ◌∷◌, ◌++◌, ◌≡◌, refl, sym, ap, ◌∙◌, inl, inr, Option,
  none, some, arith, Bool-cases, Option-cases, length, Bytes, some_inj,
}
use ws_pipeline_dispatcher.Prelude.Int.{ℤ, pos}
use ws_pipeline_dispatcher.DynamicBuffer.Reserve.{content, IsBuffer}
use ws_pipeline_dispatcher.Library.Inotify.{Stop}
use ws_pipeline_dispatcher.ClipStore.Format.{c_string}
use ws_pipeline_dispatcher.StreamMerge.Records.{MetaRecord, u64, zero_fsm}
use ws_pipeline_dispatcher.StreamMerge.Session.{Input, chunk, finish, run}
use ws_pipeline_dispatcher.StreamMerge.Session.Conserve.{
  AllFit, clip_bytes, stream_bytes, session_conserves,
}
use ws_pipeline_dispatcher.StreamMerge.Reader.{parse_line}
use ws_pipeline_dispatcher.StreamMerge.Reader.Bounds.{IsRead, parse_line-IsRead, IsRead-Fits}
use ws_pipeline_dispatcher.StreamMerge.Emit.{Env}
use ws_pipeline_dispatcher.StreamMerge.Drain.{Drain, Reads, drain_meta, is_data}
use ws_pipeline_dispatcher.StreamMerge.Drain.Lines.{lines_of, lines_of-append}
use ws_pipeline_dispatcher.StreamMerge.Drain.Refines.{
  data_record, inputs_of, put_input, Fed, Fed_trans,
}
use ws_pipeline_dispatcher.StreamMerge.Drain.Loop.{Drains, drain_meta-Drains}
use ws_pipeline_dispatcher.StreamMerge.Drain.Reading.{bytes_of}

bytes_of-append : (a b : Reads) → bytes_of (a ++ b) ≡ bytes_of a ++ bytes_of b
bytes_of-append [] b = refl
bytes_of-append (none ∷ a) b = bytes_of-append a b
bytes_of-append (some part ∷ a) b =
    ap (λ t. part ++ t) (bytes_of-append a b) ∙ sym (append_assoc part (bytes_of a) (bytes_of b))

module _ (env : Env) where
  put_input-append :
      (o : Option MetaRecord) (ticks : ℕ) (more most : ℕ → List Input) (rest : ℕ → List Input)
      → ((t : ℕ) → most t ≡ more t ++ rest (t + length (more t)))
      → put_input env o ticks most
        ≡ put_input env o ticks more ++ rest (ticks + length (put_input env o ticks more))
  put_input-append none ticks more most rest h = h ticks
  put_input-append (some rec) ticks more most rest h =
      let later = more (ticks + 1) in
      let e : ticks + 1 + length later ≡ ticks + suc (length later) = omega arith in
      ap (λ is. chunk rec (env.clock ticks) ∷ is) (h (ticks + 1) ∙ ap (λ t. later ++ rest t) e)

  inputs_of-append :
      (a b : List Bytes) (ticks : ℕ)
      → inputs_of env (a ++ b) ticks
        ≡ inputs_of env a ticks ++ inputs_of env b (ticks + length (inputs_of env a ticks))
  inputs_of-append [] b ticks = let e : ticks + 0 ≡ ticks = omega arith in rw e refl
  inputs_of-append (line ∷ a) b ticks =
      put_input-append (data_record env line) ticks (inputs_of env a) (inputs_of env (a ++ b))
        (inputs_of env b) (λ t. inputs_of-append a b t)

  -- A line that counts was read within bounds.
  pub data_record-IsRead :
      (line : Bytes) (rec : MetaRecord)
      → data_record env line ≡ some rec
      → (text : Bytes) × IsRead env.lib text rec
  data_record-IsRead [] rec e = absurd (cc)
  data_record-IsRead (c ∷ line) rec e =
      let text = c_string (c ∷ line) in
      elim (Option-cases (parse_line env.lib text)) [
        | inl nothing ↦ absurd (let e' = rw nothing at e in cc)
        | inr found ↦
            let (rec', parsed) = found in
            elim (Bool-cases (is_data rec')) [
              | inr other ↦ absurd (let e' = rw (parsed, other) at e in cc)
              | inl counts ↦
                  let same : rec' ≡ rec = some_inj (rw (parsed, counts) at e) in
                  (text, parse_line-IsRead env.lib text rec (parsed ∙ ap some same))
            ]
      ]

  put_input-AllFit :
      (o : Option MetaRecord) (ticks : ℕ) (more : ℕ → List Input)
      → ((rec : MetaRecord) → o ≡ some rec → (text : Bytes) × IsRead env.lib text rec)
      → ((t : ℕ) → AllFit (more t))
      → AllFit (put_input env o ticks more)
  put_input-AllFit none ticks more h k = k ticks
  put_input-AllFit (some rec) ticks more h k =
      let (text, read) = h rec refl in (IsRead-Fits env.lib text rec read, k (ticks + 1))

  inputs_of-AllFit : (lines : List Bytes) (ticks : ℕ) → AllFit (inputs_of env lines ticks)
  inputs_of-AllFit [] ticks = tt
  inputs_of-AllFit (line ∷ lines) ticks =
      put_input-AllFit (data_record env line) ticks (inputs_of env lines)
        (λ rec e. data_record-IsRead line rec e) (λ t. inputs_of-AllFit lines t)

  -- Whatever the lines of a metadata file say, a session on their data records prints clips of as
  -- many bytes, in 64-bit arithmetic, as the records that were not late.
  pub lines_conserve :
      (clip_ms idle_ms : ℤ) (lines : List Bytes)
      → let is = inputs_of env lines 0 in
        clip_bytes (run clip_ms idle_ms zero_fsm (is ++ finish ∷ [])).0 % u64
        ≡ stream_bytes clip_ms idle_ms zero_fsm is % u64
  lines_conserve clip_ms idle_ms lines =
      session_conserves clip_ms idle_ms (inputs_of env lines 0) (inputs_of-AllFit lines 0)

-- Two calls that succeed on the same text from the same state end alike.
abbrev pub Alike : Drain → Drain → Type 0
Alike st st' =
    (st.fsm ≡ st'.fsm)
    × (st.ticks ≡ st'.ticks)
    × (st.out ≡ st'.out)
    × (content st.buf ≡ content st'.buf)

module _ (env : Env) (clip_ms idle_ms : ℤ) where
  abbrev Result : Type 0
  Result = Drain × Bool

  -- A call behind another one does what one call does on both texts.
  Drains-trans :
      (st : Drain) (a t : Bytes) (r r' : Result)
      → Drains env clip_ms idle_ms st a r
      → r.1 ≡ true
      → Drains env clip_ms idle_ms r.0 (content r.0.buf ++ t) r'
      → Drains env clip_ms idle_ms st (a ++ t) r'
  Drains-trans st a t r r' d ok d' =
      let whole = lines_of-append a t in
      let first = inputs_of env (lines_of a).0 st.ticks in
      let kept : lines_of (content r.0.buf ++ t) ≡ lines_of ((lines_of a).1 ++ t) =
        ap (λ s. lines_of (s ++ t)) (d.rest ok) in
      let f = d.fed ok in
      record {
        buffer = d'.buffer;
        fed = λ ok'.
            let both = Fed_trans env clip_ms idle_ms st r.0 r'.0 _ _ f (d'.fed ok') in
            subst (λ is. Fed env clip_ms idle_ms st is r'.0)
              (ap (λ ls. first ++ inputs_of env ls.0 r.0.ticks) kept
                ∙ ap (λ n. first ++ inputs_of env (lines_of ((lines_of a).1 ++ t)).0 n) f.ticks
                ∙ sym (
                    inputs_of-append env (lines_of a).0 (lines_of ((lines_of a).1 ++ t)).0 st.ticks)
                ∙ ap (λ ls. inputs_of env ls.0 st.ticks) (sym whole))
              both;
        rest = λ ok'. d'.rest ok' ∙ ap (λ ls. ls.1) kept ∙ ap (λ ls. ls.1) (sym whole);
      }

  Drains-Alike :
      (st : Drain) (text : Bytes) (st₁ st₂ : Drain)
      → Drains env clip_ms idle_ms st text (st₁, true)
      → Drains env clip_ms idle_ms st text (st₂, true)
      → Alike st₁ st₂
  Drains-Alike st text st₁ st₂ d d' =
      let f = d.fed refl in
      let f' = d'.fed refl in
      let same : f.text ≡ f'.text = some_inj (sym f.clips ∙ f'.clips) in
      (
        f.fsm ∙ sym f'.fsm,
        f.ticks ∙ sym f'.ticks,
        f.out ∙ ap (λ s. st.out ++ s) same ∙ sym f'.out,
        d.rest refl ∙ sym (d'.rest refl),
      )

  drained :
      (st st' : Drain) (reads : Reads) (stop : Stop)
      → IsBuffer st.buf
      → drain_meta env clip_ms st reads stop ≡ some (st', true)
      → Drains env clip_ms idle_ms st (content st.buf ++ bytes_of reads) (st', true)
  drained st st' reads stop b e =
      let (r, eq, d) = drain_meta-Drains env clip_ms idle_ms st reads stop b in
      subst (λ q. Drains env clip_ms idle_ms st (content st.buf ++ bytes_of reads) q)
        (some_inj (sym eq ∙ e)) d

module _ (env : Env) (clip_ms : ℤ) where
  -- If two calls of the drain in a row succeed, and so does one call on the reads of both, they
  -- leave the same state machine, the same calls of the clock, the same output and the same rest
  -- of a line in the buffer.
  pub drain_batches :
      (st st₁ st₂ st₃ : Drain) (reads more : Reads) (stop stop' stop₃ : Stop)
      → IsBuffer st.buf
      → drain_meta env clip_ms st reads stop ≡ some (st₁, true)
      → drain_meta env clip_ms st₁ more stop' ≡ some (st₂, true)
      → drain_meta env clip_ms st (reads ++ more) stop₃ ≡ some (st₃, true)
      → Alike st₂ st₃
  drain_batches st st₁ st₂ st₃ reads more stop stop' stop₃ b e₁ e₂ e₃ =
      let d₁ = drained env clip_ms (pos 0) st st₁ reads stop b e₁ in
      let d₂ = drained env clip_ms (pos 0) st₁ st₂ more stop' d₁.buffer e₂ in
      let d₃ = drained env clip_ms (pos 0) st st₃ (reads ++ more) stop₃ b e₃ in
      let old = content st.buf in
      let split : old ++ bytes_of (reads ++ more) ≡ old ++ bytes_of reads ++ bytes_of more =
        ap (λ t. old ++ t) (bytes_of-append reads more)
        ∙ sym (append_assoc old (bytes_of reads) (bytes_of more)) in
      Drains-Alike env clip_ms (pos 0) st (old ++ bytes_of reads ++ bytes_of more) st₂ st₃
        (Drains-trans env clip_ms (pos 0) st (old ++ bytes_of reads) (bytes_of more) (st₁, true)
          (st₂, true) d₁ refl d₂)
        (subst (λ t. Drains env clip_ms (pos 0) st t (st₃, true)) split d₃)

-- ===== src/StreamMerge/Main/Rounds.antt =====
-- applets/stream_merge/stream_merge.c: the rounds of the loop of `stream_merge_main`.
use mathlib.Core.Path.{subst}
use mathlib.Core.List.{append_assoc, append-nil}
use ws_pipeline_dispatcher.Prelude.{
  ◌+◌, Bool, true, false, List, [], ◌∷◌, ◌++◌, ◌≡◌, refl, sym, ap, ◌∙◌, Option, none, some,
  bind-eq-some, Bytes, some_inj,
}
use ws_pipeline_dispatcher.Prelude.Int.{ℤ}
use ws_pipeline_dispatcher.Library.Inotify.{Stop}
use ws_pipeline_dispatcher.StreamMerge.Emit.{Env}
use ws_pipeline_dispatcher.StreamMerge.Drain.{Drain, Reads}
use ws_pipeline_dispatcher.StreamMerge.Main.{
  Round, interrupted, failing, ready, Loop, going, broken, drain_if, watch_if, after_check,
  after_drain, loop_round, go_round, main_loop,
}
use ws_pipeline_dispatcher.StreamMerge.Main.Inputs.{
  Progress, tick, check_now, read_if, round_on, rounds_on, sees, seen_with, until_seen, round_bytes,
  rounds_bytes,
}
use ws_pipeline_dispatcher.StreamMerge.Main.Ran.{
  Reached, drain_meta-Reached, tick-Reached, check_idle-Reached,
}

module _ (env : Env) (clip_ms idle_ms : ℤ) where
  pub after_check-going :
      (saw saw' : Bool) (r : Drain × Bool) (st' : Drain)
      → after_check env clip_ms idle_ms saw r ≡ going st' saw'
      → (r.1 ≡ true) × (r.0 ≡ st')
  after_check-going saw saw' (st, true) st' e = (refl, cc)
  after_check-going saw saw' (st, false) st' e = absurd (cc)

  pub after_drain-Reached :
      (st st' : Drain) (p : Progress) (text : Bytes) (saw saw' ok : Bool)
      (dir : Option (List Bytes × Stop)) (access : Bytes → Bool)
      → Reached env clip_ms idle_ms st p text
      → after_drain env clip_ms idle_ms saw dir access (st, ok) ≡ some (going st' saw')
      → Reached env clip_ms idle_ms st' (check_now env p) text
  after_drain-Reached st st' p text saw saw' false dir access ran e = absurd (cc)
  after_drain-Reached st st' p text saw saw' true dir access ran e =
      let (seen, _, made) = bind-eq-some (watch_if env clip_ms idle_ms saw dir) _ e in
      let (ok, same) = after_check-going _ saw' _ st' (some_inj made) in
      subst (λ s. Reached env clip_ms idle_ms s (check_now env p) text) same
        (check_idle-Reached env clip_ms idle_ms st p text ran ok)

  pub going_state : {st st' : Drain} {saw saw' : Bool} → going st saw ≡ going st' saw' → st ≡ st'
  going_state e = cc

  pub stays :
      (st st' : Drain) (p : Progress) (text : Bytes)
      → Reached env clip_ms idle_ms st p text
      → st ≡ st'
      → Reached env clip_ms idle_ms st' p (text ++ [])
  stays st st' p text ran same =
      subst (λ s. Reached env clip_ms idle_ms s p (text ++ [])) same
        (subst (Reached env clip_ms idle_ms st p) (sym (append-nil text)) ran)

  pub drain_if-Reached :
      (st st' : Drain) (p : Progress) (text : Bytes) (meta : Option (Reads × Stop))
      (dir : Option (List Bytes × Stop)) (access : Bytes → Bool)
      → Reached env clip_ms idle_ms st p text
      → drain_if env clip_ms idle_ms st meta ≡ some (st', true)
      → Reached env clip_ms idle_ms st'
          (read_if env meta p)
          (text ++ round_bytes (ready meta dir access))
  drain_if-Reached st st' p text none dir access ran e =
      let same : st ≡ st' = ap (λ r. r.0) (some_inj e) in stays st st' p text ran same
  drain_if-Reached st st' p text (some (reads, stop)) dir access ran e =
      drain_meta-Reached env clip_ms idle_ms st st' p text reads stop ran e

  pub after_drain_ok :
      {st' : Drain} {saw' : Bool} (st : Drain) (saw : Bool) (dir : Option (List Bytes × Stop))
      (access : Bytes → Bool) (ok : Bool)
      → after_drain env clip_ms idle_ms saw dir access (st, ok) ≡ some (going st' saw')
      → ok ≡ true
  after_drain_ok st saw dir access true e = refl
  after_drain_ok st saw dir access false e = absurd (cc)

  pub loop_round-Reached :
      (r : Round) (st st' : Drain) (p : Progress) (text : Bytes) (saw saw' : Bool)
      → Reached env clip_ms idle_ms st p text
      → loop_round env clip_ms idle_ms r st saw ≡ some (going st' saw')
      → Reached env clip_ms idle_ms st' (round_on env r p) (text ++ round_bytes r)
  unfolding loop_round
  loop_round-Reached interrupted st st' p text saw saw' ran e =
      let same : record st { ticks = st.ticks + 1 } ≡ st' = going_state (some_inj e) in
      stays _ st' (tick p) text (tick-Reached env clip_ms idle_ms st p text ran) same
  loop_round-Reached failing st st' p text saw saw' ran e = absurd (cc)
  loop_round-Reached (ready meta dir access) st st' p text saw saw' ran e =
      let ((st₁, ok), drained, e') =
        bind-eq-some (drain_if env clip_ms idle_ms (record st { ticks = st.ticks + 1 }) meta) _ e in
      let fine = after_drain_ok st₁ saw dir access ok e' in
      let ran' =
        drain_if-Reached (record st { ticks = st.ticks + 1 }) st₁ (tick p) text meta dir access
          (tick-Reached env clip_ms idle_ms st p text ran)
          (drained ∙ ap (λ b. some (st₁, b)) fine) in
      after_drain-Reached st₁ st' (read_if env meta (tick p)) _ saw saw' ok dir access ran' e'

  pub went_on :
      (loop : Loop) (rounds : List Round) (st' : Drain) (saw' : Bool)
      → go_round env clip_ms idle_ms (main_loop env clip_ms idle_ms rounds) loop
        ≡ some (going st' saw')
      → (st₁ : Drain) × (saw₁ : Bool) × (loop ≡ going st₁ saw₁)
        × (main_loop env clip_ms idle_ms rounds st₁ saw₁ ≡ some (going st' saw'))
  went_on (going st₁ saw₁) rounds st' saw' e = (st₁, saw₁, refl, e)
  went_on (broken st₁) rounds st' saw' e = absurd (cc)

  after_check_saw :
      (saw saw' : Bool) (r : Drain × Bool) (st' : Drain)
      → after_check env clip_ms idle_ms saw r ≡ going st' saw'
      → saw ≡ saw'
  after_check_saw saw saw' (st, true) st' e = cc
  after_check_saw saw saw' (st, false) st' e = absurd (cc)

  watch_sees :
      (meta : Option (Reads × Stop)) (dir : Option (List Bytes × Stop)) (access : Bytes → Bool)
      (saw : Bool)
      → sees env (ready meta dir access) saw
        ≡ seen_with env access (watch_if env clip_ms idle_ms saw dir)
  watch_sees meta none access saw = refl
  watch_sees meta (some (reads, stop)) access saw = refl

  after_drain-sees :
      (st st' : Drain) (saw saw' ok : Bool) (dir : Option (List Bytes × Stop))
      (access : Bytes → Bool)
      → after_drain env clip_ms idle_ms saw dir access (st, ok) ≡ some (going st' saw')
      → seen_with env access (watch_if env clip_ms idle_ms saw dir) ≡ saw'
  after_drain-sees st st' saw saw' false dir access e = absurd (cc)
  after_drain-sees st st' saw saw' true dir access e =
      let (seen, watched, made) = bind-eq-some (watch_if env clip_ms idle_ms saw dir) _ e in
      ap (seen_with env access) watched ∙ after_check_saw _ saw' _ st' (some_inj made)

  loop_round-sees :
      (r : Round) (st st' : Drain) (saw saw' : Bool)
      → loop_round env clip_ms idle_ms r st saw ≡ some (going st' saw')
      → sees env r saw ≡ saw'
  unfolding loop_round
  loop_round-sees interrupted st st' saw saw' e = let e' = some_inj e in cc
  loop_round-sees failing st st' saw saw' e = absurd (cc)
  loop_round-sees (ready meta dir access) st st' saw saw' e =
      let ((st₁, ok), _, e') =
        bind-eq-some (drain_if env clip_ms idle_ms (record st { ticks = st.ticks + 1 }) meta) _ e in
      watch_sees meta dir access saw ∙ after_drain-sees st₁ st' saw saw' ok dir access e'

  pub main_loop-Reached :
      (rounds : List Round) (st st' : Drain) (p : Progress) (text : Bytes) (saw saw' : Bool)
      → Reached env clip_ms idle_ms st p text
      → main_loop env clip_ms idle_ms rounds st saw ≡ some (going st' saw')
      → Reached env clip_ms idle_ms st'
          (rounds_on env (until_seen env rounds saw) p)
          (text ++ rounds_bytes (until_seen env rounds saw))
  unfolding main_loop
  main_loop-Reached [] st st' p text saw saw' ran e =
      let same : st ≡ st' = going_state (some_inj e) in stays st st' p text ran same
  main_loop-Reached (r ∷ rounds) st st' p text true saw' ran e =
      let same : st ≡ st' = going_state (some_inj e) in stays st st' p text ran same
  main_loop-Reached (r ∷ rounds) st st' p text false saw' ran e =
      let (loop, once, e') = bind-eq-some (loop_round env clip_ms idle_ms r st false) _ e in
      let (st₁, saw₁, went, e'') = went_on loop rounds st' saw' e' in
      let p' = round_on env r p in
      let seen = loop_round-sees r st st₁ false saw₁ (once ∙ ap some went) in
      let ran' = loop_round-Reached r st st₁ p text false saw₁ ran (once ∙ ap some went) in
      let ran'' = main_loop-Reached rounds st₁ st' p' _ saw₁ saw' ran' e'' in
      subst
        (λ s.
          Reached env clip_ms idle_ms st' (rounds_on env (until_seen env rounds s) p')
            (text ++ (round_bytes r ++ rounds_bytes (until_seen env rounds s))))
        (sym seen)
        (subst (Reached env clip_ms idle_ms st' (rounds_on env (until_seen env rounds saw₁) p'))
          (append_assoc text (round_bytes r) (rounds_bytes (until_seen env rounds saw₁))) ran'')

-- ===== src/StreamMerge/Main/Ends.antt =====
-- applets/stream_merge/stream_merge.c, `stream_merge_main`: the loop ends once the sentinel is there.
use mathlib.Core.Path.{subst}
use ws_pipeline_dispatcher.Prelude.{
  ◌+◌, Bool, true, false, ◌||◌, List, [], ◌∷◌, ◌≡◌, refl, sym, ap, ◌∙◌, Option, none, some,
  if◌then◌else◌, ◌>>=◌, Bytes, arith,
}
use ws_pipeline_dispatcher.Prelude.Int.{ℤ}
use ws_pipeline_dispatcher.DynamicBuffer.Reserve.{IsBuffer, unallocated}
use ws_pipeline_dispatcher.Library.Inotify.{Stop}
use ws_pipeline_dispatcher.Library.Inotify.Events.{consume_lem}
use ws_pipeline_dispatcher.StreamMerge.Emit.{Env}
use ws_pipeline_dispatcher.StreamMerge.Drain.{Drain, Reads, drain_meta}
use ws_pipeline_dispatcher.StreamMerge.Drain.Loop.{drain_meta-Drains}
use ws_pipeline_dispatcher.StreamMerge.Main.{
  Round, interrupted, failing, ready, Loop, going, broken, check_idle, drain_if, watch_if,
  after_check, after_drain, loop_round, go_round, main_loop, after_last, finish_loop, start,
  after_first, stream_merge_main, sentinel_exists,
}

module _ (env : Env) (clip_ms idle_ms : ℤ) where
  -- A round at whose end the sentinel file exists.
  abbrev pub sees : Round → Bool
  sees interrupted = false
  sees failing = false
  sees (ready meta dir access) = sentinel_exists access env.src

  abbrev pub any_sees : List Round → Bool
  any_sees [] = false
  any_sees (r ∷ rounds) = sees r || any_sees rounds

  -- The buffer is valid, and the flag is set if it has to be.
  abbrev Sound : Bool → Loop → Type 0
  Sound must (going st saw) = IsBuffer st.buf × (must ≡ true → saw ≡ true)
  Sound must (broken st) = Unit

  abbrev Gives : Bool → Option Loop → Type 0
  Gives must o = (loop : Loop) × (o ≡ some loop) × Sound must loop

  drain_meta_total :
      (st : Drain) (reads : Reads) (stop : Stop)
      → IsBuffer st.buf
      → (r : Drain × Bool) × (drain_meta env clip_ms st reads stop ≡ some r) × IsBuffer r.0.buf
  drain_meta_total st reads stop b =
      let (r, eq, d) = drain_meta-Drains env clip_ms idle_ms st reads stop b in (r, eq, d.buffer)

  drain_if_total :
      (st : Drain) (meta : Option (Reads × Stop))
      → IsBuffer st.buf
      → (r : Drain × Bool) × (drain_if env clip_ms idle_ms st meta ≡ some r) × IsBuffer r.0.buf
  drain_if_total st none b = ((st, true), refl, b)
  drain_if_total st (some (reads, stop)) b = drain_meta_total st reads stop b

  watch_if_total :
      (saw : Bool) (dir : Option (List Bytes × Stop))
      → (saw' : Bool) × (watch_if env clip_ms idle_ms saw dir ≡ some saw')
  watch_if_total saw none = (saw, refl)
  watch_if_total saw (some (reads, stop)) =
      let (saw', e) = (consume_lem reads [] stop saw tt).0 in (saw', rw e refl)

  check_idle_buf : (st : Drain) → (check_idle env clip_ms idle_ms st).0.buf ≡ st.buf
  unfolding check_idle
  check_idle_buf st = refl

  after_check-Sound :
      (must saw : Bool) (r : Drain × Bool)
      → IsBuffer r.0.buf
      → (must ≡ true → saw ≡ true)
      → Sound must (after_check env clip_ms idle_ms saw r)
  after_check-Sound must saw (st, true) b h = (b, h)
  after_check-Sound must saw (st, false) b h = tt

  after_drain-Gives :
      (r : Drain × Bool) (saw : Bool) (dir : Option (List Bytes × Stop)) (access : Bytes → Bool)
      → IsBuffer r.0.buf
      → Gives (sentinel_exists access env.src) (after_drain env clip_ms idle_ms saw dir access r)
  after_drain-Gives (st, false) saw dir access b = (broken st, refl, tt)
  after_drain-Gives (st, true) saw dir access b =
      let (saw', e) = watch_if_total saw dir in
      let seen = if sentinel_exists access env.src then true else saw' in
      (
        after_check env clip_ms idle_ms seen (check_idle env clip_ms idle_ms st),
        rw e refl,
        after_check-Sound (sentinel_exists access env.src) seen (check_idle env clip_ms idle_ms st)
            (subst IsBuffer (sym (check_idle_buf st)) b) (λ h. rw h refl),
      )

  loop_round-Gives :
      (r : Round) (st : Drain) (saw : Bool)
      → IsBuffer st.buf
      → Gives (sees r) (loop_round env clip_ms idle_ms r st saw)
  unfolding loop_round
  loop_round-Gives interrupted st saw b = (_, refl, (b, λ h. absurd (cc)))
  loop_round-Gives failing st saw b = (_, refl, tt)
  loop_round-Gives (ready meta dir access) st saw b =
      let (r, e, b') = drain_if_total (record st { ticks = st.ticks + 1 }) meta b in
      let (loop, eq, s) = after_drain-Gives r saw dir access b' in (loop, rw e eq, s)

  go_round-Gives :
      (next : Drain → Bool → Option Loop) (seen later : Bool) (loop : Loop)
      → Sound seen loop
      → ((st : Drain) (saw : Bool)
          → IsBuffer st.buf
          → (saw || later) ≡ true
          → Gives true (next st saw))
      → (seen || later) ≡ true
      → Gives true (go_round env clip_ms idle_ms next loop)
  go_round-Gives next seen later (broken st) s ih h = (broken st, refl, tt)
  go_round-Gives next seen later (going st saw) s ih h =
      ih st saw s.0 (or_later seen saw later s.1 h)
    where
      or_later :
          (seen saw later : Bool)
          → (seen ≡ true → saw ≡ true)
          → (seen || later) ≡ true
          → (saw || later) ≡ true
      or_later seen saw later f h = ground arith

  main_loop-Gives :
      (rounds : List Round) (st : Drain) (saw : Bool)
      → IsBuffer st.buf
      → (saw || any_sees rounds) ≡ true
      → Gives true (main_loop env clip_ms idle_ms rounds st saw)
  unfolding main_loop
  main_loop-Gives [] st true b h = (going st true, refl, (b, λ e. refl))
  main_loop-Gives [] st false b h = absurd (cc)
  main_loop-Gives (r ∷ rounds) st true b h = (going st true, refl, (b, λ e. refl))
  main_loop-Gives (r ∷ rounds) st false b h =
      let (loop, e, s) = loop_round-Gives r st false b in
      let (last, eq, s') =
        go_round-Gives (main_loop env clip_ms idle_ms rounds) (sees r) (any_sees rounds) loop s
          (λ st₁ saw₁ b₁ h₁. main_loop-Gives rounds st₁ saw₁ b₁ h₁) h in
      (
        last,
        ap (λ o. o >>= go_round env clip_ms idle_ms (main_loop env clip_ms idle_ms rounds)) e ∙ eq,
        s',
      )

  -- A session ends, with 0 or 1, if the sentinel is there at the start or at the end of a round,
  -- whatever the reads return and whatever fails.
  pub main_ends :
      (reads last : Reads) (stop stop' : Stop) (rounds : List Round) (saw : Bool)
      → (saw || any_sees rounds) ≡ true
      → (r : Drain × Bool) × (stream_merge_main env clip_ms idle_ms
            (reads, stop)
            rounds
            (last, stop')
            saw
          ≡ some r)
  unfolding stream_merge_main
  main_ends reads last stop stop' rounds saw h =
      let (r, e, b) =
        drain_meta_total (start env clip_ms idle_ms) reads stop (unallocated refl refl refl) in
      let (r', e') = from_first r b in
      (r', ap (λ o. o >>= after_first env clip_ms idle_ms rounds (last, stop') saw) e ∙ e')
    where
      finishes :
          (loop : Loop)
          → Sound true loop
          → (r : Drain × Bool) × (finish_loop env clip_ms idle_ms (last, stop') loop ≡ some r)
      finishes (broken st) s = ((st, false), refl)
      finishes (going st true) s =
          let (r, e, b) = drain_meta_total st last stop' s.0 in
          (
            after_last env clip_ms idle_ms r,
            ap (λ o. o >>= λ q. some (after_last env clip_ms idle_ms q)) e,
          )
      finishes (going st false) s = absurd (let no = s.1 refl in cc)

      from_first :
          (r : Drain × Bool)
          → IsBuffer r.0.buf
          → (r' : Drain × Bool) × (after_first env clip_ms idle_ms rounds (last, stop') saw r
              ≡ some r')
      from_first (st, false) b = ((st, false), refl)
      from_first (st, true) b =
          let (loop, e, s) = main_loop-Gives rounds st saw b h in
          let (r, e') = finishes loop s in
          (r, ap (λ o. o >>= finish_loop env clip_ms idle_ms (last, stop')) e ∙ e')

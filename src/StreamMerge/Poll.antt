-- ===== src/StreamMerge/Poll.antt =====
-- applets/stream_merge/stream_merge.c: how long the main loop of `stream_merge_main` sleeps.
use ws_pipeline_dispatcher.Prelude.{
  refl, true, ◌⊎◌, inl, inr, Bool-cases, ◌≡◌, ◌≢◌, if◌then◌else◌, arith,
}
use ws_pipeline_dispatcher.Prelude.Int.{
  ℤ, pos, ◌+ℤ◌, ◌-ℤ◌, ltb_ℤ, ◌≤ℤ◌, ◌<ℤ◌, ltb_ℤ→lt, ltb_ℤ→le, int_laws,
}
use ws_pipeline_dispatcher.StreamMerge.Records.{Clip, Fsm, emit_partial}
use ws_pipeline_dispatcher.StreamMerge.Fsm.{fsm_check_idle}

-- The timeout of `poll`, in milliseconds.
unfoldable pub poll_timeout : Fsm → ℤ → ℤ → ℤ
poll_timeout fsm idle_ms now =
    let timeout = pos 1000 in
    let idle_left = idle_ms -ℤ (now -ℤ fsm.last_chunk_wall_ms) in
    if fsm.active
    then (if ltb_ℤ idle_left timeout
        then (if ltb_ℤ (pos 0) idle_left then idle_left else pos 0)
        else timeout)
    else timeout

flushes :
    (fsm : Fsm) (idle_ms now' : ℤ) (out : Clip)
    → fsm.active ≡ true
    → fsm.total_length ≢ 0
    → idle_ms ≤ℤ now' -ℤ fsm.last_chunk_wall_ms
    → (fsm_check_idle fsm idle_ms now' out).action ≡ emit_partial
unfolding fsm_check_idle
flushes fsm idle_ms now' out a n h = ground arith

-- What is left of the idle time.
abbrev idle_left : Fsm → ℤ → ℤ → ℤ
idle_left fsm idle_ms now = idle_ms -ℤ (now -ℤ fsm.last_chunk_wall_ms)

-- The timeout, and why.
data Timeout (left : ℤ) : ℤ → Type 0 where
  full : pos 1000 ≤ℤ left → Timeout left (pos 1000)
  rest : pos 0 <ℤ left → left <ℤ pos 1000 → Timeout left left
  over : left ≤ℤ pos 0 → Timeout left (pos 0)

poll_timeout-Timeout :
    (fsm : Fsm) (idle_ms now : ℤ)
    → fsm.active ≡ true
    → Timeout (idle_left fsm idle_ms now) (poll_timeout fsm idle_ms now)
unfolding poll_timeout
poll_timeout-Timeout fsm idle_ms now a =
    let left = idle_left fsm idle_ms now in
    elim (Bool-cases (ltb_ℤ left (pos 1000))) [
      | inr late ↦ rw (a, late) (full (ltb_ℤ→le left (pos 1000) late))
      | inl soon ↦
          let near = ltb_ℤ→lt left (pos 1000) soon in
          elim (Bool-cases (ltb_ℤ (pos 0) left)) [
            | inl ahead ↦ rw (a, soon, ahead) (rest (ltb_ℤ→lt (pos 0) left ahead) near)
            | inr past ↦ rw (a, soon, past) (over (ltb_ℤ→le (pos 0) left past))
          ]
    ]

-- With an open window that has bytes, the poll timeout is between 0 and a second; the sleep does
-- not outlast the time at which the window has been idle for long enough, unless the timeout is
-- 0; and if the timeout is not a second, an idle check at any time behind the sleep flushes the
-- window.
pub poll_wakes_to_flush :
    (fsm : Fsm) (idle_ms now now' : ℤ) (out : Clip)
    → fsm.active ≡ true
    → fsm.total_length ≢ 0
    → now +ℤ poll_timeout fsm idle_ms now ≤ℤ now'
    → let timeout = poll_timeout fsm idle_ms now in
      let deadline = fsm.last_chunk_wall_ms +ℤ idle_ms in
      (pos 0 ≤ℤ timeout)
      × (timeout ≤ℤ pos 1000)
      × (timeout ≡ pos 0 ⊎ now +ℤ timeout ≤ℤ deadline)
      × (timeout ≡ pos 1000 ⊎ (fsm_check_idle fsm idle_ms now' out).action ≡ emit_partial)
poll_wakes_to_flush fsm idle_ms now now' out a n t =
    wakes (poll_timeout-Timeout fsm idle_ms now a) t
  where
    wakes :
        {timeout : ℤ}
        → Timeout (idle_left fsm idle_ms now) timeout
        → now +ℤ timeout ≤ℤ now'
        → (pos 0 ≤ℤ timeout)
          × (timeout ≤ℤ pos 1000)
          × (timeout ≡ pos 0 ⊎ now +ℤ timeout ≤ℤ fsm.last_chunk_wall_ms +ℤ idle_ms)
          × (timeout ≡ pos 1000 ⊎ (fsm_check_idle fsm idle_ms now' out).action ≡ emit_partial)
    wakes (full far) t = (omega arith, omega arith, inr (omega int_laws), inl refl)
    wakes (rest some_left near) t = (
      omega arith,
      omega arith,
      inr (omega int_laws),
      inr (flushes fsm idle_ms now' out a n (omega int_laws)),
    )
    wakes (over none_left) t = (
      omega arith,
      omega arith,
      inl refl,
      inr (flushes fsm idle_ms now' out a n (omega int_laws)),
    )

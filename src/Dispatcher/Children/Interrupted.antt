-- ===== src/Dispatcher/Children/Interrupted.antt =====
-- applets/pipeline_dispatcher/pd_spawn.c, `pd_wait_children`: the end of a wait that is interrupted.
use mathlib.Core.List.{append_assoc, append-nil}
use ws_pipeline_dispatcher.Prelude.{
  ℕ, suc, ◌+◌, Bool, true, false, not, ◌&&◌, List, [], ◌∷◌, ◌++◌, ◌≡◌, ◌≢◌, refl, sym, ap, ◌∙◌,
  arith, ◌==◌, if◌then◌else◌, Bool-cases, inl, inr, length,
}
use ws_pipeline_dispatcher.Prelude.Int.{ℤ}
use ws_pipeline_dispatcher.Dispatcher.Children.{
  Child, ExitCode, exit_ok, child_error, exit_interrupted, Waited, exited, signaled,
  wait_interrupted, wait_failed, Waits, is_running, reaped, kill_children, wait_loop, wait_children,
  WaitResult, ended_first,
}
use ws_pipeline_dispatcher.Dispatcher.Children.Reaped.{
  NoneRuns, running_pids, kill_children-NoneRuns, Waited-cases, an_exit, a_signal, an_interrupt,
  a_failure, length-snoc,
}

-- The reply tells the end of the child.
abbrev pub is_end : Waited → Bool
is_end (exited code) = true
is_end (signaled number) = true
is_end wait_interrupted = false
is_end wait_failed = false

-- Of the children that run, from index `i` on, those whose end the wait tells.
abbrev pub ended_pids : Waits → ℕ → List Child → List ℤ
ended_pids waits i [] = []
ended_pids waits i (child ∷ children) =
    let rest = ended_pids waits (suc i) children in
    if is_running child && is_end (waits.reply i) then child.pid ∷ rest else rest

-- And those on which the wait fails.
abbrev pub left_pids : Waits → ℕ → List Child → List ℤ
left_pids waits i [] = []
left_pids waits i (child ∷ children) =
    let rest = left_pids waits (suc i) children in
    if is_running child && not (is_end (waits.reply i)) then child.pid ∷ rest else rest

-- The wait on the children from index `i` on was interrupted at one of them, with these processes
-- left of the children before them. Those that were not reaped got a SIGTERM and were waited for.
pub record Interrupts (waits : Waits) (i : ℕ) (earlier : List ℤ) (children : List Child)
    (r : WaitResult) : Type 0 where
  pub front : List Child
  pub child : Child
  pub back : List Child
  pub split : children ≡ front ++ child ∷ back
  pub runs : is_running child ≡ true
  pub reply : waits.reply (i + length front) ≡ wait_interrupted
  pub flagged : waits.interrupted (i + length front) ≡ true
  pub killed : r.killed ≡ earlier ++ (left_pids waits i front ++ child.pid ∷ running_pids back)
  pub awaited : r.awaited ≡ ended_pids waits i front ++ r.killed
  pub none_left : NoneRuns r.children

running_pids-append :
    (cs ds : List Child) → running_pids (cs ++ ds) ≡ running_pids cs ++ running_pids ds
running_pids-append [] ds = refl
running_pids-append (c ∷ cs) ds = elim (Bool-cases (is_running c)) [
  | inl e ↦ rw e (ap (λ ps. c.pid ∷ ps) (running_pids-append cs ds))
  | inr e ↦ rw e (running_pids-append cs ds)
]

later : (i n : ℕ) → i + suc n ≡ suc i + n
later i n = omega arith

module _ (waits : Waits) (i : ℕ) (earlier : List ℤ) (c : Child) (children : List Child)
    (r : WaitResult) where
  skipped-Interrupts :
      is_running c ≡ false
      → Interrupts waits (suc i) earlier children r
      → Interrupts waits i earlier (c ∷ children) r
  skipped-Interrupts e h = record {
    front = c ∷ h.front;
    child = h.child;
    back = h.back;
    split = ap (λ cs. c ∷ cs) h.split;
    runs = h.runs;
    reply = ap waits.reply (later i (length h.front)) ∙ h.reply;
    flagged = ap waits.interrupted (later i (length h.front)) ∙ h.flagged;
    killed = rw e h.killed;
    awaited = rw e h.awaited;
    none_left = h.none_left;
  }

  kept-Interrupts :
      is_running c ≡ true
      → is_end (waits.reply i) ≡ false
      → Interrupts waits (suc i) (earlier ++ c.pid ∷ []) children r
      → Interrupts waits i earlier (c ∷ children) r
  kept-Interrupts e n h = record {
    front = c ∷ h.front;
    child = h.child;
    back = h.back;
    split = ap (λ cs. c ∷ cs) h.split;
    runs = h.runs;
    reply = ap waits.reply (later i (length h.front)) ∙ h.reply;
    flagged = ap waits.interrupted (later i (length h.front)) ∙ h.flagged;
    killed = rw (e, n) (h.killed ∙ append_assoc earlier (c.pid ∷ []) _);
    awaited = rw (e, n) h.awaited;
    none_left = h.none_left;
  }

  ended-Interrupts :
      is_running c ≡ true
      → is_end (waits.reply i) ≡ true
      → Interrupts waits (suc i) earlier children r
      → Interrupts waits i earlier (c ∷ children) (ended_first c.pid r)
  ended-Interrupts e n h = record {
    front = c ∷ h.front;
    child = h.child;
    back = h.back;
    split = ap (λ cs. c ∷ cs) h.split;
    runs = h.runs;
    reply = ap waits.reply (later i (length h.front)) ∙ h.reply;
    flagged = ap waits.interrupted (later i (length h.front)) ∙ h.flagged;
    killed = rw (e, n) h.killed;
    awaited = rw (e, n) (ap (λ ps. c.pid ∷ ps) h.awaited);
    none_left = h.none_left;
  }

stopped-Interrupts :
    (waits : Waits) (before : List Child) (child : Child) (children : List Child)
    → is_running child ≡ true
    → waits.reply (length before) ≡ wait_interrupted
    → waits.interrupted (length before) ≡ true
    → let stopped = kill_children (before ++ child ∷ children) in
      Interrupts waits (length before) (running_pids before) (child ∷ children) (record {
        code = exit_interrupted;
        children = stopped.children;
        killed = stopped.killed;
        awaited = stopped.awaited;
      })
stopped-Interrupts waits before child children e w s =
    let (none_left, pids, ends) = kill_children-NoneRuns (before ++ child ∷ children) in
    let first : length before + 0 ≡ length before = omega arith in
    record {
      front = [];
      child = child;
      back = children;
      split = refl;
      runs = e;
      reply = ap waits.reply first ∙ w;
      flagged = ap waits.interrupted first ∙ s;
      killed =
          pids
          ∙ running_pids-append before (child ∷ children)
          ∙ ap
              (λ b.
                running_pids before
                ++ (if b then child.pid ∷ running_pids children else running_pids children))
              e;
      awaited = ends ∙ sym pids;
      none_left = none_left;
    }

kept_pids :
    (before : List Child) (c : Child)
    → is_running c ≡ true
    → running_pids (before ++ c ∷ []) ≡ running_pids before ++ c.pid ∷ []
kept_pids before c e =
    running_pids-append before (c ∷ [])
    ∙ ap (λ b. running_pids before ++ (if b then c.pid ∷ [] else [])) e

skipped_pids :
    (before : List Child) (c : Child)
    → is_running c ≡ false
    → running_pids (before ++ c ∷ []) ≡ running_pids before
skipped_pids before c e =
    running_pids-append before (c ∷ [])
    ∙ ap (λ b. running_pids before ++ (if b then c.pid ∷ [] else [])) e
    ∙ append-nil (running_pids before)

wait_loop-Interrupts :
    (waits : Waits) (before children : List Child) (rc : ExitCode)
    → rc ≢ exit_interrupted
    → (wait_loop waits before children rc).code ≡ exit_interrupted
    → Interrupts waits
        (length before)
        (running_pids before)
        children
        (wait_loop waits before children rc)
unfolding wait_loop
wait_loop-Interrupts waits before [] rc n = λ h. absurd (n h)
wait_loop-Interrupts waits before (child ∷ children) rc n =
    let i = length before in
    let pids = running_pids before in
    let n' : child_error ≢ exit_interrupted = λ e. cc in
    let ih : (c : Child) (ps : List ℤ) (rc' : ExitCode)
        → running_pids (before ++ c ∷ []) ≡ ps
        → rc' ≢ exit_interrupted
        → (wait_loop waits (before ++ c ∷ []) children rc').code ≡ exit_interrupted
        → Interrupts waits (suc i) ps children (wait_loop waits (before ++ c ∷ []) children rc') =
      λ c ps rc' e m h.
        rw (length-snoc before c, e) at
          (wait_loop-Interrupts waits (before ++ c ∷ []) children rc' m h) in
    let gone = skipped_pids before (reaped child) refl in
    elim (Bool-cases (is_running child)) [
      | inr e ↦ rw e (λ h.
          skipped-Interrupts waits i pids child children _ e
            (ih child pids rc (skipped_pids before child e) n h))
      | inl e ↦ elim (Waited-cases (waits.reply i)) [
        | a_signal number w ↦
            rw (e, w)
              (λ h.
                ended-Interrupts waits i pids child children _ e (ap is_end w)
                  (ih (reaped child) pids child_error gone n' h))
        | a_failure w ↦
            rw (e, w)
              (λ h.
                kept-Interrupts waits i pids child children _ e (ap is_end w)
                  (ih child (pids ++ child.pid ∷ []) child_error (kept_pids before child e) n' h))
        | an_interrupt w ↦ elim (Bool-cases (waits.interrupted i)) [
          | inl s ↦ rw (e, w) (rw s (λ _. stopped-Interrupts waits before child children e w s))
          | inr s ↦
              rw (e, w)
                (rw s (λ h.
                  kept-Interrupts waits i pids child children _ e (ap is_end w) (
                    ih child (pids ++ child.pid ∷ []) child_error (kept_pids before child e) n' h)))
        ]
        | an_exit code w ↦ elim (Bool-cases (code == 0)) [
          | inl z ↦
              rw (e, w)
                (rw z (λ h.
                  ended-Interrupts waits i pids child children _ e (ap is_end w)
                    (ih (reaped child) pids rc gone n h)))
          | inr z ↦
              rw (e, w)
                (rw z (λ h.
                  ended-Interrupts waits i pids child children _ e (ap is_end w)
                    (ih (reaped child) pids child_error gone n' h)))
        ]
      ]
    ]

-- If the wait returns the code of an interrupt, it was interrupted at a child that ran. Of the
-- children that ran, exactly that one, those behind it, and those before it whose end the wait
-- had not told get a SIGTERM, in their order, and are waited for after that; no child is
-- recorded as running.
pub wait_children-Interrupts :
    (waits : Waits) (children : List Child)
    → (wait_children waits children).code ≡ exit_interrupted
    → Interrupts waits 0 [] children (wait_children waits children)
unfolding wait_children
wait_children-Interrupts waits children = wait_loop-Interrupts waits [] children exit_ok (λ e. cc)

-- ===== src/Dispatcher/Children/Reaped.antt =====
-- What the exit code of the wait tells of the children.
use ws_pipeline_dispatcher.Prelude.{
  ℕ, suc, Bool, true, false, not, ◌&&◌, ◌||◌, List, [], ◌∷◌, ◌++◌, ◌≡◌, refl, sym, ap, ◌∙◌, arith,
  ◌==◌, if◌then◌else◌, Bool-cases, inl, inr, length, length-append,
}
use ws_pipeline_dispatcher.Prelude.Int.{ℤ}
use ws_pipeline_dispatcher.Dispatcher.Children.{
  Child, ExitCode, exit_ok, usage_error, setup_error, child_error, exit_interrupted, Waited, exited,
  signaled, wait_interrupted, wait_failed, Waits, is_running, reaped, kill_children, wait_loop,
  terminate, await, wait_children,
}

-- No child of the list runs.
abbrev pub NoneRuns : List Child → Type 0
NoneRuns [] = Unit
NoneRuns (child ∷ children) = (is_running child ≡ false) × NoneRuns children

abbrev pub running_pids : List Child → List ℤ
running_pids [] = []
running_pids (child ∷ children) =
    let rest = running_pids children in if is_running child then child.pid ∷ rest else rest

-- Stopping the children leaves none running, and exactly those that ran get a SIGTERM and are
-- waited for, in their order.
pub kill_children-NoneRuns :
    (children : List Child)
    → NoneRuns (kill_children children).children
      × ((kill_children children).killed ≡ running_pids children)
      × ((kill_children children).awaited ≡ running_pids children)
unfolding kill_children terminate await
kill_children-NoneRuns [] = (tt, refl, refl)
kill_children-NoneRuns (child ∷ children) =
    let (none_left, pids, ends) = kill_children-NoneRuns children in
    elim (Bool-cases (is_running child)) [
      | inl e ↦
          rw e ((refl, none_left), ap (λ ps. child.pid ∷ ps) pids, ap (λ ps. child.pid ∷ ps) ends)
      | inr e ↦ rw e ((e, none_left), pids, ends)
    ]

abbrev pub is_ok : ExitCode → Bool
is_ok exit_ok = true
is_ok usage_error = false
is_ok setup_error = false
is_ok child_error = false
is_ok exit_interrupted = false

abbrev pub is_success : Waited → Bool
is_success (exited code) = code == 0
is_success (signaled number) = false
is_success wait_interrupted = false
is_success wait_failed = false

-- Every child that runs, from index `i` on, exits with code 0.
abbrev pub all_succeed : Waits → ℕ → List Child → Bool
all_succeed waits i [] = true
all_succeed waits i (child ∷ children) =
    (not (is_running child) || is_success (waits.reply i)) && all_succeed waits (suc i) children

-- How a reply looks.
pub data Reply (w : Waited) : Type 0 where
  an_exit : (code : ℕ) → w ≡ exited code → Reply w
  a_signal : (number : ℕ) → w ≡ signaled number → Reply w
  an_interrupt : w ≡ wait_interrupted → Reply w
  a_failure : w ≡ wait_failed → Reply w

pub Waited-cases : (w : Waited) → Reply w
Waited-cases (exited code) = an_exit code refl
Waited-cases (signaled number) = a_signal number refl
Waited-cases wait_interrupted = an_interrupt refl
Waited-cases wait_failed = a_failure refl

pub length-snoc :
    (before : List Child) (child : Child) → length (before ++ child ∷ []) ≡ suc (length before)
length-snoc before child = omega (arith, length-append before (child ∷ []))

and_false : (b : Bool) → b && false ≡ false
and_false b = ground arith

wait_loop_ok :
    (waits : Waits) (before children : List Child) (rc : ExitCode)
    → is_ok (wait_loop waits before children rc).code
      ≡ (is_ok rc && all_succeed waits (length before) children)
unfolding wait_loop
wait_loop_ok waits before [] rc = ground arith
wait_loop_ok waits before (child ∷ children) rc =
    let i = length before in
    let ih : (c : Child) (rc' : ExitCode)
        → is_ok (wait_loop waits (before ++ c ∷ []) children rc').code
          ≡ (is_ok rc' && all_succeed waits (suc i) children) =
      λ c rc'. rw (length-snoc before c) at (wait_loop_ok waits (before ++ c ∷ []) children rc') in
    elim (Bool-cases (is_running child)) [
      | inr e ↦ rw e (ih child rc)
      | inl e ↦ elim (Waited-cases (waits.reply i)) [
        | a_signal number w ↦ rw (e, w) (ih (reaped child) child_error ∙ sym (and_false (is_ok rc)))
        | a_failure w ↦ rw (e, w) (ih child child_error ∙ sym (and_false (is_ok rc)))
        | an_interrupt w ↦ elim (Bool-cases (waits.interrupted i)) [
          | inl s ↦ rw (e, w) (rw s (sym (and_false (is_ok rc))))
          | inr s ↦ rw (e, w) (rw s (ih child child_error ∙ sym (and_false (is_ok rc))))
        ]
        | an_exit code w ↦ elim (Bool-cases (code == 0)) [
          | inl z ↦ rw (e, w) (rw z (ih (reaped child) rc))
          | inr z ↦ rw (e, w) (rw z (ih (reaped child) child_error ∙ sym (and_false (is_ok rc))))
        ]
      ]
    ]

-- The wait returns the success code exactly if every child that runs exits with code 0.
pub wait_children_ok :
    (waits : Waits) (children : List Child)
    → is_ok (wait_children waits children).code ≡ all_succeed waits 0 children
unfolding wait_children
wait_children_ok waits children = wait_loop_ok waits [] children exit_ok

-- ===== src/Dispatcher/Children.antt =====
-- applets/pipeline_dispatcher/pd_spawn.c: waiting for the children, and stopping them.
pub mod Reaped
pub mod Interrupted
use ws_pipeline_dispatcher.Prelude.{
  ℕ, ◌+◌, Bool, true, false, List, [], ◌∷◌, ◌++◌, ◌==◌, if◌then◌else◌, length, Bytes,
}
use ws_pipeline_dispatcher.Prelude.Int.{ℤ, pos, negsuc, ltb_ℤ}

-- `pd_child_t`, without the path.
pub record Child : Type 0 where
  pub name : Bytes
  pub pid : ℤ

-- `pd_exit_code_t`
pub data ExitCode : Type 0 where
  exit_ok usage_error setup_error child_error exit_interrupted : ExitCode

-- What `waitpid` on one child tells: an exit with a code, an end by a signal, `EINTR`, or another
-- error.
pub data Waited : Type 0 where
  exited : ℕ → Waited
  signaled : ℕ → Waited
  wait_interrupted : Waited
  wait_failed : Waited

-- The reply for the child at an index, and what `pd_signal_interrupted` answers then.
pub record Waits : Type 0 where
  pub reply : ℕ → Waited
  pub interrupted : ℕ → Bool

abbrev pub is_running : Child → Bool
is_running child = ltb_ℤ (pos 0) child.pid

-- `pid = -1`
abbrev pub reaped : Child → Child
reaped child = record child { pid = negsuc 0 }

-- The first loop of `pd_kill_children`: the processes that get a SIGTERM.
unfoldable pub terminate : List Child → List ℤ
terminate [] = []
terminate (child ∷ children) =
    let pids = terminate children in if is_running child then child.pid ∷ pids else pids

-- The second loop: the children afterwards, and the processes on which `waitpid` has returned.
unfoldable pub await : List Child → List Child × List ℤ
await [] = ([], [])
await (child ∷ children) =
    let (rest, pids) = await children in
    if is_running child then (reaped child ∷ rest, child.pid ∷ pids) else (child ∷ rest, pids)

-- What is left of a call of `pd_kill_children`.
pub record Stopped : Type 0 where
  pub children : List Child
  pub killed : List ℤ
  pub awaited : List ℤ

-- `pd_kill_children`
unfoldable pub kill_children : List Child → Stopped
kill_children children =
    let (left, pids) = await children in
    record { children = left; killed = terminate children; awaited = pids }

-- What is left of a call of `pd_wait_children`: the code, the children, the processes that got a
-- SIGTERM, and those whose end `waitpid` has told or that were waited for behind a SIGTERM.
pub record WaitResult : Type 0 where
  pub code : ExitCode
  pub children : List Child
  pub killed : List ℤ
  pub awaited : List ℤ

-- `waitpid` has told the end of the process before the rest of the loop.
abbrev pub ended_first : ℤ → WaitResult → WaitResult
ended_first pid r = record r { awaited = pid ∷ r.awaited }

-- The loop of `pd_wait_children`, on the children behind it and before it.
unfoldable pub wait_loop : Waits → List Child → List Child → ExitCode → WaitResult
wait_loop waits before [] rc = record { code = rc; children = before; killed = []; awaited = [] }
wait_loop waits before (child ∷ children) rc =
    let skipped = wait_loop waits (before ++ child ∷ []) children rc in
    let kept = wait_loop waits (before ++ child ∷ []) children child_error in
    let good = ended_first child.pid (wait_loop waits (before ++ reaped child ∷ []) children rc) in
    let bad =
      ended_first child.pid (wait_loop waits (before ++ reaped child ∷ []) children child_error) in
    let stopped = kill_children (before ++ child ∷ children) in
    if is_running child
    then elim (waits.reply (length before)) [
      | exited code ↦ if code == 0 then good else bad
      | signaled number ↦ bad
      | wait_failed ↦ kept
      | wait_interrupted ↦
          if waits.interrupted (length before)
          then record {
            code = exit_interrupted;
            children = stopped.children;
            killed = stopped.killed;
            awaited = stopped.awaited;
          }
          else kept
    ]
    else skipped

-- `pd_wait_children`
unfoldable pub wait_children : Waits → List Child → WaitResult
wait_children waits children = wait_loop waits [] children exit_ok

-- ===== src/Dispatcher/Pipeline.antt =====
-- applets/pipeline_dispatcher/pd_pipeline.c: the pipes and the three stages.
pub mod Cleanup
use ws_pipeline_dispatcher.Prelude.{
  ℕ, Bool, true, false, not, ◌&&◌, List, [], ◌∷◌, ◌++◌, Option, none, some, if◌then◌else◌, Bytes,
  codes,
}
use ws_pipeline_dispatcher.Prelude.Int.{ℤ, pos, negsuc, ltb_ℤ}
use ws_pipeline_dispatcher.Dispatcher.Children.{
  Child, ExitCode, setup_error, exit_interrupted, Waits, kill_children, WaitResult, wait_children,
}

-- `pd_pipeline_t`
pub record Pipeline : Type 0 where
  pub pipe1 : ℤ × ℤ
  pub pipe2 : ℤ × ℤ
  pub children : List Child

-- The replies of the operating system: what `pipe` gives, the process ids of the three `fork`s,
-- negative where they fail, the interrupt flag before the wait, and the wait.
pub record System : Type 0 where
  pub first_pipe : Option (ℤ × ℤ)
  pub second_pipe : Option (ℤ × ℤ)
  pub merge_pid : ℤ
  pub parse_pid : ℤ
  pub store_pid : ℤ
  pub interrupted : Bool
  pub waits : Waits

-- What a run leaves: the code, the state, the descriptors it closed and the processes that got a
-- SIGTERM.
pub record RunResult : Type 0 where
  pub code : ExitCode
  pub pipeline : Pipeline
  pub closed : List ℤ
  pub killed : List ℤ

abbrev pub no_fd : ℤ
no_fd = negsuc 0

abbrev pub child_named : Bytes → ℤ → Child
child_named name pid = record { name = name; pid = pid }

-- The children once the first stages have these process ids.
abbrev pub stages : ℤ → ℤ → ℤ → List Child
stages merge parse store =
    child_named (codes "stream_merge") merge
    ∷ child_named (codes "log_parse") parse
    ∷ child_named (codes "clip_store") store
    ∷ []

-- `pd_pipeline_init`
unfoldable pub pipeline_init : Pipeline
pipeline_init = record {
  pipe1 = (no_fd, no_fd);
  pipe2 = (no_fd, no_fd);
  children = stages no_fd no_fd no_fd;
}

abbrev pub open_fd : ℤ → List ℤ
open_fd fd = if ltb_ℤ fd (pos 0) then [] else fd ∷ []

-- `close_pipe_fds`: the state, and the descriptors that were closed, in their order.
unfoldable pub close_pipe_fds : Pipeline → Pipeline × List ℤ
close_pipe_fds p = (
  record p { pipe1 = (no_fd, no_fd); pipe2 = (no_fd, no_fd) },
  open_fd p.pipe1.0 ++ (open_fd p.pipe1.1 ++ (open_fd p.pipe2.0 ++ open_fd p.pipe2.1)),
)

-- `pd_pipeline_cleanup`, and the return of a code.
unfoldable pub cleanup : Pipeline → ExitCode → RunResult
cleanup p code =
    let (closed_pipes, fds) = close_pipe_fds p in
    let stopped = kill_children p.children in
    record {
      code = code;
      pipeline = record closed_pipes { children = stopped.children };
      closed = fds;
      killed = stopped.killed;
    }

-- The end of `pd_pipeline_run`, with all stages started.
unfoldable pub wait_pipeline : System → Pipeline → RunResult
wait_pipeline sys p =
    let (closed_pipes, fds) = close_pipe_fds p in
    let stopped = cleanup closed_pipes exit_interrupted in
    let w = wait_children sys.waits p.children in
    if sys.interrupted then record stopped { closed = fds ++ stopped.closed } else record {
      code = w.code;
      pipeline = record closed_pipes { children = w.children };
      closed = fds;
      killed = w.killed;
    }

-- The start of the stages, with both pipes open. The pid of a stage that was not started yet is -1.
unfoldable pub run_stages : System → ℤ × ℤ → ℤ × ℤ → RunResult
run_stages sys pipe1 pipe2 =
    let with_children : List Child → Pipeline =
      λ children. record { pipe1 = pipe1; pipe2 = pipe2; children = children } in
    if ltb_ℤ sys.merge_pid (pos 0)
    then cleanup (with_children (stages sys.merge_pid no_fd no_fd)) setup_error
    else if ltb_ℤ sys.parse_pid (pos 0)
    then cleanup (with_children (stages sys.merge_pid sys.parse_pid no_fd)) setup_error
    else if ltb_ℤ sys.store_pid (pos 0)
    then cleanup (with_children (stages sys.merge_pid sys.parse_pid sys.store_pid)) setup_error
    else wait_pipeline sys (with_children (stages sys.merge_pid sys.parse_pid sys.store_pid))

-- The run on the replies of both calls of `pipe`.
unfoldable pub with_pipes : System → Option (ℤ × ℤ) → Option (ℤ × ℤ) → RunResult
with_pipes sys none second = record {
  code = setup_error;
  pipeline = pipeline_init;
  closed = [];
  killed = [];
}
with_pipes sys (some pipe1) none =
    let (p, fds) = close_pipe_fds (record pipeline_init { pipe1 = pipe1 }) in
    record { code = setup_error; pipeline = p; closed = fds; killed = [] }
with_pipes sys (some pipe1) (some pipe2) = run_stages sys pipe1 pipe2

-- `pd_pipeline_run`
unfoldable pub pipeline_run : System → RunResult
pipeline_run sys = with_pipes sys sys.first_pipe sys.second_pipe

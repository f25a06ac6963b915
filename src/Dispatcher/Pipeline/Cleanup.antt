-- ===== src/Dispatcher/Pipeline/Cleanup.antt =====
-- The run closes both pipes on every path, and a failed start leaves no stage running.
use ws_pipeline_dispatcher.Prelude.{
  ℕ, true, ◌||◌, List, [], ◌∷◌, ◌≡◌, refl, some, arith, if◌then◌else◌, if_ind,
}
use ws_pipeline_dispatcher.Prelude.Int.{ℤ, pos, ltb_ℤ}
use ws_pipeline_dispatcher.Dispatcher.Children.{Child, ExitCode, setup_error}
use ws_pipeline_dispatcher.Dispatcher.Children.Reaped.{
  NoneRuns, running_pids, kill_children-NoneRuns,
}
use ws_pipeline_dispatcher.Dispatcher.Pipeline.{
  Pipeline, System, RunResult, no_fd, stages, close_pipe_fds, cleanup, wait_pipeline, run_stages,
  pipeline_run, with_pipes,
}

-- The four descriptors were closed, each once, and the state holds none of them.
pub record ClosesAll (a b c d : ℤ) (r : RunResult) : Type 0 where
  pub closed : r.closed ≡ a ∷ b ∷ c ∷ d ∷ []
  pub first : r.pipeline.pipe1 ≡ (no_fd, no_fd)
  pub second : r.pipeline.pipe2 ≡ (no_fd, no_fd)

-- The stages were stopped: none runs, and those that ran got a SIGTERM.
pub record Stops (started : List Child) (r : RunResult) : Type 0 where
  pub code : r.code ≡ setup_error
  pub stopped : NoneRuns r.pipeline.children
  pub killed : r.killed ≡ running_pids started

-- The children at the first start that failed.
abbrev pub attempted : System → List Child
attempted sys =
    if ltb_ℤ sys.merge_pid (pos 0)
    then stages sys.merge_pid no_fd no_fd
    else if ltb_ℤ sys.parse_pid (pos 0)
    then stages sys.merge_pid sys.parse_pid no_fd
    else stages sys.merge_pid sys.parse_pid sys.store_pid

module _ (a b c d : ℕ) where
  abbrev both : List Child → Pipeline
  both children = record { pipe1 = (pos a, pos b); pipe2 = (pos c, pos d); children = children }

  cleanup-ClosesAll :
      (children : List Child) (code : ExitCode)
      → ClosesAll (pos a) (pos b) (pos c) (pos d) (cleanup (both children) code)
  unfolding cleanup close_pipe_fds
  cleanup-ClosesAll children code = record { closed = ground arith; first = refl; second = refl }

  cleanup-Stops : (children : List Child) → Stops children (cleanup (both children) setup_error)
  unfolding cleanup close_pipe_fds
  cleanup-Stops children =
      let (stopped, killed, awaited) = kill_children-NoneRuns children in
      record { code = refl; stopped = stopped; killed = killed }

  wait-ClosesAll :
      (sys : System) (children : List Child)
      → ClosesAll (pos a) (pos b) (pos c) (pos d) (wait_pipeline sys (both children))
  unfolding wait_pipeline cleanup close_pipe_fds
  wait-ClosesAll sys children =
      if_ind (ClosesAll (pos a) (pos b) (pos c) (pos d)) sys.interrupted
        (λ _. record { closed = ground arith; first = refl; second = refl })
        (λ _. record { closed = ground arith; first = refl; second = refl })

  pipes_lem :
      (sys : System)
      → sys.first_pipe ≡ some (pos a, pos b)
      → sys.second_pipe ≡ some (pos c, pos d)
      → pipeline_run sys ≡ run_stages sys (pos a, pos b) (pos c, pos d)
  unfolding pipeline_run with_pipes
  pipes_lem sys e1 e2 i = with_pipes sys (e1 i) (e2 i)

  -- Once both pipes are open, the run closes each of their four descriptors exactly once and
  -- keeps none, whether a stage fails to start, the run is interrupted or the stages are waited
  -- for.
  pub run_closes :
      (sys : System)
      → sys.first_pipe ≡ some (pos a, pos b)
      → sys.second_pipe ≡ some (pos c, pos d)
      → ClosesAll (pos a) (pos b) (pos c) (pos d) (pipeline_run sys)
  unfolding run_stages
  run_closes sys e1 e2 =
      let P : RunResult → Type 0 = ClosesAll (pos a) (pos b) (pos c) (pos d) in
      rw (pipes_lem sys e1 e2) (
        if_ind P (ltb_ℤ sys.merge_pid (pos 0)) (λ _. cleanup-ClosesAll _ setup_error)
          (λ _.
            if_ind P (ltb_ℤ sys.parse_pid (pos 0)) (λ _. cleanup-ClosesAll _ setup_error)
              (λ _.
                if_ind P (ltb_ℤ sys.store_pid (pos 0)) (λ _. cleanup-ClosesAll _ setup_error)
                  (λ _. wait-ClosesAll sys _))))

  -- With both pipes open, if a stage fails to start, the run returns the setup error, no stage
  -- is left running, and exactly those that were started get a SIGTERM.
  pub failed_start_stops :
      (sys : System)
      → sys.first_pipe ≡ some (pos a, pos b)
      → sys.second_pipe ≡ some (pos c, pos d)
      → ltb_ℤ sys.merge_pid (pos 0) || (ltb_ℤ sys.parse_pid (pos 0) || ltb_ℤ sys.store_pid (pos 0))
        ≡ true
      → Stops (attempted sys) (pipeline_run sys)
  unfolding run_stages
  failed_start_stops sys e1 e2 h =
      let P : RunResult → Type 0 = Stops (attempted sys) in
      rw (pipes_lem sys e1 e2) (
        if_ind P (ltb_ℤ sys.merge_pid (pos 0)) (λ m. rw m (cleanup-Stops _))
          (λ m.
            if_ind P (ltb_ℤ sys.parse_pid (pos 0)) (λ p. rw (m, p) (cleanup-Stops _))
              (λ p.
                if_ind P (ltb_ℤ sys.store_pid (pos 0)) (λ s. rw (m, p) (cleanup-Stops _))
                  (λ s. ground arith))))

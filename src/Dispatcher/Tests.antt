-- ===== src/Dispatcher/Tests.antt =====
-- Runs of applets/main.c and applets/pipeline_dispatcher.
use ws_pipeline_dispatcher.ClipStore.Number.{scan, skip_spaces}
use ws_pipeline_dispatcher.Dispatcher.Config.Parse.{
  defaults, opt_ttl, take_opt, take_opts, sibling_path, dir_of, parsed, config_parse,
}
use ws_pipeline_dispatcher.Dispatcher.Config.Siblings.{RunsApplets, config_parse_lem}
use ws_pipeline_dispatcher.Dispatcher.Config.{
  Config, valid_uint_string, accepted_signed, accepted_digits, accepted,
}
use ws_pipeline_dispatcher.Prelude.{
  ℕ, true, false, List, [], ◌∷◌, ◌≡◌, refl, none, some, arith, ◌==◌, if◌then◌else◌, codes,
}
use ws_pipeline_dispatcher.Prelude.Int.{pos, negsuc}
use ws_pipeline_dispatcher.Dispatcher.Children.{
  Child, exited, wait_interrupted, Waits, wait_children, wait_loop, exit_interrupted,
}
use ws_pipeline_dispatcher.Dispatcher.Children.Interrupted.{Interrupts, wait_children-Interrupts}
use ws_pipeline_dispatcher.Dispatcher.Children.Reaped.{is_ok, all_succeed, wait_children_ok}
use ws_pipeline_dispatcher.Dispatcher.Spawn.{FdTable, child_fds, wired, child_fds_lem}
use ws_pipeline_dispatcher.Dispatcher.Pipeline.{System, pipeline_run, stages}
use ws_pipeline_dispatcher.Dispatcher.Pipeline.Cleanup.{
  ClosesAll, Stops, attempted, run_closes, failed_start_stops,
}

abbrev three : List Child
three = stages (pos 10) (pos 11) (pos 12)

abbrev second_interrupted : Waits
second_interrupted = record {
  reply = λ i. if i == 1 then wait_interrupted else exited 0;
  interrupted = λ i. true;
}

wait_children_ok_example :
    is_ok (wait_children second_interrupted three).code ≡ all_succeed second_interrupted 0 three
wait_children_ok_example = wait_children_ok second_interrupted three

is_interrupted : (wait_children second_interrupted three).code ≡ exit_interrupted
unfolding wait_children wait_loop
is_interrupted = refl

wait_children-Interrupts_example :
    Interrupts second_interrupted 0 [] three (wait_children second_interrupted three)
wait_children-Interrupts_example = wait_children-Interrupts second_interrupted three is_interrupted

-- A terminal at 0 and 1, and a pipe at 3 and 4.
abbrev parent_fds : FdTable
parent_fds fd =
    if fd == 0
    then some 100
    else if fd == 1
    then some 101
    else if fd == 3
    then some 103
    else if fd == 4
    then some 104
    else none

child_fds_lem_example :
    (t : FdTable) × (child_fds parent_fds 3 1 (3 ∷ 4 ∷ []) ≡ some t)
    × ((fd : ℕ) → t fd ≡ wired parent_fds 103 101 (3 ∷ 4 ∷ []) fd)
child_fds_lem_example =
    child_fds_lem parent_fds 3 1 103 101 (3 ∷ 4 ∷ []) refl refl (λ e. absurd (omega arith))

abbrev last_fork_fails : System
last_fork_fails = record {
  first_pipe = some (pos 3, pos 4);
  second_pipe = some (pos 5, pos 6);
  merge_pid = pos 10;
  parse_pid = pos 11;
  store_pid = negsuc 0;
  interrupted = false;
  waits = second_interrupted;
}

run_closes_example : ClosesAll (pos 3) (pos 4) (pos 5) (pos 6) (pipeline_run last_fork_fails)
run_closes_example = run_closes 3 4 5 6 last_fork_fails refl refl

failed_start_stops_example : Stops (attempted last_fork_fails) (pipeline_run last_fork_fails)
failed_start_stops_example = failed_start_stops 3 4 5 6 last_fork_fails refl refl refl

-- A negative number wraps round in `strtoul` and passes.
negative_passes : valid_uint_string (codes "-1") false ≡ true
unfolding valid_uint_string skip_spaces accepted_signed accepted_digits accepted scan
negative_passes = refl

abbrev parsed_config : Config
parsed_config = record defaults {
  session_id = codes "s";
  src_dir = codes "d";
  db_path = codes "db";
  ttl = codes "9";
  bin_stream_merge = codes "/b/stream_merge";
  bin_log_parse = codes "/b/log_parse";
  bin_clip_store = codes "/b/clip_store";
}

parses_options :
    config_parse
      (some (codes "/b/box"))
      (codes "box")
      (opt_ttl (codes "9") ∷ [])
      (codes "s" ∷ codes "d" ∷ codes "db" ∷ [])
    ≡ parsed parsed_config
unfolding config_parse take_opts take_opt sibling_path dir_of
parses_options = refl

config_parse_lem_example :
    RunsApplets parsed_config
    × (codes "s" ∷ codes "d" ∷ codes "db" ∷ [] ≡ codes "s" ∷ codes "d" ∷ codes "db" ∷ [])
config_parse_lem_example =
    config_parse_lem (some (codes "/b/box")) (codes "box") (opt_ttl (codes "9") ∷ [])
      (codes "s" ∷ codes "d" ∷ codes "db" ∷ []) parsed_config parses_options

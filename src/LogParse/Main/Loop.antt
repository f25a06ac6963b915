-- ===== src/LogParse/Main/Loop.antt =====
-- applets/log_parse/log_parse.c: the loop over the lines and the end of the program.
use ws_pipeline_dispatcher.Prelude.{
  ℕ, Bool, not, ◌&&◌, List, [], ◌∷◌, ◌++◌, Option, none, some, ◌==◌, if◌then◌else◌, Bytes,
}
use ws_pipeline_dispatcher.Prelude.Int.{pos}
use ws_pipeline_dispatcher.ClipStore.Number.{print_long}
use ws_pipeline_dispatcher.StreamMerge.Emit.{cut_print}
use ws_pipeline_dispatcher.LogParse.Aggregate.{AggOp, no_values, print_aggregate}
use ws_pipeline_dispatcher.LogParse.Main.{
  Opt, Options, no_options, take_options, set_up, OrExit, go, exits, is_count, World, Setup,
}
use ws_pipeline_dispatcher.LogParse.Main.Lines.{State, Line, next, stops, one_line}

-- The end of stdin: `ferror(stdin)`, and if the full log closes.
pub record Ending : Type 0 where
  pub failed : Bool
  pub closes : Bool

module _ {W : Type 0} (w : World W) (s : Setup) where
  abbrev pub on_line : (State W → State W × ℕ) → Line W → State W × ℕ
  on_line again (next st) = again st
  on_line again (stops st) = (st, 2)

  -- The loop over the lines, with the exit code.
  unfoldable pub all_lines : List Bytes → State W → State W × ℕ
  unfolding one_line
  all_lines [] st = (st, 0)
  all_lines (line ∷ lines) st = on_line (all_lines lines) (one_line w s line st)

  abbrev pub print_last : State W → Bytes → State W
  print_last st text = record st { out = (cut_print st.out text (w.stdout st.out text)).0 }

  -- The print at the end of a run that has not failed.
  abbrev pub print_result : State W → Option (AggOp × Bytes) → State W
  print_result st (some (op, field)) = print_last st (print_aggregate w.doubles op st.agg)
  print_result st none =
      if is_count s.format_ then print_last st (print_long (pos st.matched) ++ b'\n' ∷ []) else st

  abbrev pub end_code : Ending → ℕ → ℕ
  end_code e code = if e.failed then 2 else code

  abbrev pub close_code : Ending → ℕ → ℕ
  close_code e code = if s.logs && not e.closes && code == 0 then 2 else code

  unfoldable pub run_lines : List Bytes → Ending → State W → State W × ℕ
  unfolding all_lines
  run_lines lines e st =
      let (last, code) = all_lines lines st in
      let ended = end_code e code in
      (if ended == 0 then print_result last s.agg else last, close_code e ended)

  abbrev pub first_state : Bytes → State W
  first_state log = record { out = []; log = log; agg = no_values w.doubles; matched = 0 }

-- `log_parse_main`, over the old content of the full log: the state at the end, if the loop is
-- reached, and the exit code.
module _ {W : Type 0} (w : World W) where
  abbrev pub after_setup : List Bytes → Ending → Bytes → OrExit Setup → Option (State W) × ℕ
  after_setup lines e log (exits code) = (none, code)
  after_setup lines e log (go s) =
      let (st, code) = run_lines w s lines e (first_state w s log) in (some st, code)

  abbrev pub after_options : List Bytes → Ending → Bytes → OrExit Options → Option (State W) × ℕ
  after_options lines e log (exits code) = (none, code)
  after_options lines e log (go o) = after_setup lines e log (set_up w o)

  unfoldable pub log_parse_main : List Opt → List Bytes → Ending → Bytes → Option (State W) × ℕ
  unfolding run_lines
  log_parse_main opts lines e log = after_options lines e log (take_options opts no_options)

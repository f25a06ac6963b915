-- ===== src/LogParse/Main/Json.antt =====
-- applets/log_parse/log_parse.c in JSON mode: what a run prints, and what it appends to the full log.
use mathlib.Core.List.{append_assoc, append-nil}
use ws_pipeline_dispatcher.Prelude.{
  ℕ, suc, ◌+◌, Bool, true, false, List, [], ◌∷◌, ◌++◌, ◌≡◌, refl, sym, ap, ◌∙◌, inl, inr, Option,
  none, some, arith, Bool-cases, Option-cases, length, map, Bytes,
}
use ws_pipeline_dispatcher.Prelude.Int.{ℤ, pos}
use ws_pipeline_dispatcher.Json.{get_int64}
use ws_pipeline_dispatcher.ClipStore.Format.{c_string}
use ws_pipeline_dispatcher.ClipStore.Number.{print_long}
use ws_pipeline_dispatcher.StreamMerge.Emit.{cut_print}
use ws_pipeline_dispatcher.LogParse.Filter.{Filter}
use ws_pipeline_dispatcher.LogParse.Aggregate.{
  AggOp, no_values, add_value, add_values, print_aggregate,
}
use ws_pipeline_dispatcher.LogParse.Output.{Stream}
use ws_pipeline_dispatcher.LogParse.Main.{Format, format_json, format_count, World, by_json, Setup}
use ws_pipeline_dispatcher.LogParse.Main.Lines.{State, one_line, trim_line, match_jsonl, json_line}
use ws_pipeline_dispatcher.LogParse.Main.Loop.{
  Ending, all_lines, run_lines, first_state, print_last,
}

-- The stream lets every text through.
abbrev pub LetsAll : Stream → Type 0
LetsAll stream = (out text : Bytes) → stream out text ≡ none

-- stdin and the full log give no error.
abbrev pub good_end : Ending
good_end = record { failed = false; closes = true }

module _ {W : Type 0} (w : World W) (filter : Option Filter) where
  abbrev pub line_text : Bytes → Bytes
  line_text line = trim_line (c_string line)

  abbrev pub keep_line : Bytes → Option Bool → List Bytes → List Bytes
  keep_line text none rest = rest
  keep_line text (some false) rest = rest
  keep_line text (some true) rest = text ∷ rest

  -- The trimmed lines that match the filter.
  abbrev pub matching : List Bytes → List Bytes
  matching [] = []
  matching (line ∷ lines) =
      keep_line (line_text line) (match_jsonl w.lib (line_text line) filter) (matching lines)

  -- The integers that lines have under a key.
  abbrev pub put_number : Option ℤ → List ℤ → List ℤ
  put_number none rest = rest
  put_number (some z) rest = z ∷ rest

  abbrev pub numbers : Bytes → List Bytes → List ℤ
  numbers key [] = []
  numbers key (text ∷ texts) = put_number (get_int64 w.lib text key) (numbers key texts)

  -- Lines, each with its newline.
  abbrev pub unlines : List Bytes → Bytes
  unlines [] = []
  unlines (text ∷ texts) = (text ++ b'\n' ∷ []) ++ unlines texts

  abbrev pub json_setup : Format → Option (AggOp × Bytes) → Setup
  json_setup fmt agg = record {
    mode = by_json;
    format_ = fmt;
    filter_ = filter;
    agg = agg;
    logs = false;
  }

  counts :
      (lines : List Bytes) (st : State W)
      → all_lines w (json_setup format_count none) lines st
        ≡ (record st { matched = st.matched + length (matching lines) }, 0)
  unfolding all_lines one_line json_line
  counts [] st = let e : st.matched + 0 ≡ st.matched = omega arith in rw e refl
  counts (line ∷ lines) st = elim (Option-cases (match_jsonl w.lib (line_text line) filter)) [
    | inl e ↦ rw e (counts lines st)
    | inr found ↦
        let (b, e) = found in
        elim (Bool-cases b) [
          | inr skipped ↦ rw (e, skipped) (counts lines st)
          | inl taken ↦
              let n = length (matching lines) in
              let one : st.matched + 1 + n ≡ st.matched + suc n = omega arith in
              rw (e, taken)
                (counts lines (record st { matched = st.matched + 1 })
                  ∙ ap (λ k. (record st { matched = k }, 0)) one)
        ]
  ]

  aggregates :
      (fmt : Format) (op : AggOp) (key : Bytes) (lines : List Bytes) (st : State W)
      → all_lines w (json_setup fmt (some (op, key))) lines st ≡ (
        record st {
          agg = add_values w.doubles (map w.doubles.of_int (numbers key (matching lines))) st.agg;
        },
        0,
      )
  unfolding all_lines one_line json_line add_values
  aggregates fmt op key [] st = refl
  aggregates fmt op key (line ∷ lines) st =
      elim (Option-cases (match_jsonl w.lib (line_text line) filter)) [
        | inl e ↦ rw e (aggregates fmt op key lines st)
        | inr found ↦
            let (b, e) = found in
            elim (Bool-cases b) [
              | inr skipped ↦ rw (e, skipped) (aggregates fmt op key lines st)
              | inl taken ↦ elim (Option-cases (get_int64 w.lib (line_text line) key)) [
                | inl missing ↦ rw (e, taken, missing) (aggregates fmt op key lines st)
                | inr number ↦
                    let (z, is) = number in
                    rw (e, taken, is)
                      (aggregates fmt op key lines
                        (record st { agg = add_value w.doubles st.agg (w.doubles.of_int z) }))
              ]
            ]
      ]

  prints :
      (lines : List Bytes) (st : State W)
      → LetsAll w.stdout
      → all_lines w (json_setup format_json none) lines st
        ≡ (record st { out = st.out ++ unlines (matching lines) }, 0)
  unfolding all_lines one_line json_line
  prints [] st open_out = ap (λ t. (record st { out = t }, 0)) (sym (append-nil st.out))
  prints (line ∷ lines) st open_out =
      elim (Option-cases (match_jsonl w.lib (line_text line) filter)) [
        | inl e ↦ rw e (prints lines st open_out)
        | inr found ↦
            let (b, e) = found in
            elim (Bool-cases b) [
              | inr skipped ↦ rw (e, skipped) (prints lines st open_out)
              | inl taken ↦
                  let text = line_text line ++ b'\n' ∷ [] in
                  rw (e, taken)
                    (ap
                        (λ o.
                          all_lines w (json_setup format_json none) lines
                            (record st { out = (cut_print st.out text o).0 }))
                        (open_out st.out text)
                      ∙ prints lines (record st { out = st.out ++ text }) open_out
                      ∙ ap (λ t. (record st { out = t }, 0))
                          (append_assoc st.out text (unlines (matching lines))))
            ]
      ]

  abbrev pub run_json : Format → Option (AggOp × Bytes) → List Bytes → State W × ℕ
  run_json fmt agg lines =
      run_lines w (json_setup fmt agg) lines good_end (first_state w (json_setup fmt agg) [])

  printed_last :
      (st : State W) (s : Setup) (text : Bytes)
      → LetsAll w.stdout
      → st.out ≡ []
      → (print_last w s st text).out ≡ text
  printed_last st s text open_out e =
      ap (λ o. (cut_print st.out text o).0) (open_out st.out text) ∙ ap (λ out. out ++ text) e

  -- A run in JSON mode without a full log, where no stream fails, returns 0. It prints the
  -- number of the lines that match the filter, or these lines, trimmed and in order, or the
  -- aggregate over the exact integers that they have under its key.
  pub matching_lem :
      (lines : List Bytes) (fmt : Format) (op : AggOp) (key : Bytes)
      → LetsAll w.stdout
      → ((run_json format_count none lines).1 ≡ 0)
        × ((run_json format_count none lines).0.out
            ≡ print_long (pos (length (matching lines))) ++ b'\n' ∷ [])
        × ((run_json format_json none lines).1 ≡ 0)
        × ((run_json format_json none lines).0.out ≡ unlines (matching lines))
        × ((run_json fmt (some (op, key)) lines).1 ≡ 0)
        × ((run_json fmt (some (op, key)) lines).0.out
            ≡ print_aggregate w.doubles op (
                add_values w.doubles
                  (map w.doubles.of_int (numbers key (matching lines)))
                  (no_values w.doubles)))
  unfolding run_lines
  matching_lem lines fmt op key open_out =
      let with_count : ℕ → State W × ℕ =
        λ k. (record (first_state w (json_setup format_count none) []) { matched = k }, 0) in
      let first = first_state w (json_setup format_count none) [] in
      let n = length (matching lines) in
      let none_yet : first.matched + n ≡ n = omega arith in
      let count = counts lines first ∙ ap (λ k. with_count k) none_yet in
      let print = prints lines (first_state w (json_setup format_json none) []) open_out in
      let agg = (some (op, key)) in
      let fold = aggregates fmt op key lines (first_state w (json_setup fmt agg) []) in
      let with_agg : State W × ℕ = (
        record (first_state w (json_setup fmt agg) []) {
          agg =
              add_values w.doubles (map w.doubles.of_int (numbers key (matching lines)))
                (no_values w.doubles);
        },
        0,
      ) in
      (
        rw count refl,
        rw count (printed_last (with_count n).0 (json_setup format_count none) _ open_out refl),
        rw print refl,
        rw print refl,
        rw fold refl,
        rw fold (printed_last with_agg.0 (json_setup fmt agg) _ open_out refl),
      )

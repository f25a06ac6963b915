-- ===== src/ClipStore/Commands/Tests.antt =====
-- Runs of the commands of applets/clip_store.
use mathlib.Core.Path.{subst}
use ws_pipeline_dispatcher.Prelude.{
  ◌++◌, true, List, [], ◌∷◌, ◌≡◌, refl, sym, arith, none, some, if◌then◌else◌, codes, equal, map,
  Bytes,
}
use ws_pipeline_dispatcher.Prelude.Int.{ℤ, pos, ◌+ℤ◌}
use ws_pipeline_dispatcher.Json.{
  Cjson, string, object, field, end, get_string, get_item, parse_object, only_spaces, string_of,
  copy_out, get_int64, int64_of, exact_int64,
}
use ws_pipeline_dispatcher.Json.Tests.{table_json, whole_number, granting}
use ws_pipeline_dispatcher.ClipStore.Number.{print_long, digits}
use ws_pipeline_dispatcher.ClipStore.Commands.Clips.{
  chomp, session_and_time, store_clips, clip_rows,
}
use ws_pipeline_dispatcher.ClipStore.Commands.Stored.{store_clips_lem}
use ws_pipeline_dispatcher.ClipStore.Answer.{Settles}
use ws_pipeline_dispatcher.ClipStore.Row.{Row}
use ws_pipeline_dispatcher.ClipStore.Index.Load.{Loads}
use ws_pipeline_dispatcher.ClipStore.Index.Latest.{latest}
use ws_pipeline_dispatcher.ClipStore.Format.{split_at, read_rows, c_string}
use ws_pipeline_dispatcher.ClipStore.Format.Text.{no_line, above_controls}
use ws_pipeline_dispatcher.ClipStore.Format.File.{IsStorable, AllStorable, line_of, append-total}
use ws_pipeline_dispatcher.ClipStore.Tests.{tagging, tagging-IsZlib, ready, ready-IsReady, generous}
use ws_pipeline_dispatcher.ClipStore.Commands.{
  non_empty_key, parse_set_expr, expiry, append_value, set_command, delete_command, shown,
  get_command,
}
use ws_pipeline_dispatcher.ClipStore.Commands.SetGet.{
  set_row, tombstone, set_then_get, delete_then_get,
}

abbrev stored : Row
stored = set_row (pos 60) (pos 5) (codes "a") (codes "h")

stored-IsStorable : IsStorable stored
unfolding expiry ◌+ℤ◌
stored-IsStorable = record {
  field = (above_controls b'a' (omega arith), tt);
  value = record { text = (λ e. absurd (omega arith), omega arith, tt); short = omega arith };
  long = omega arith;
}

tombstone-IsStorable : IsStorable (tombstone (codes "a"))
tombstone-IsStorable = record {
  field = (above_controls b'a' (omega arith), tt);
  value = record { text = tt; short = omega arith };
  long = omega arith;
}

set_parses : parse_set_expr (codes "a=h") ≡ some (codes "a", codes "h")
unfolding parse_set_expr split_at non_empty_key
set_parses = refl

set_writes :
    set_command tagging ready (pos 60) (pos 5) [] (codes "a=h")
    ≡ some ([] ++ (line_of tagging-IsZlib stored ++ 10 ∷ []))
unfolding set_command parse_set_expr split_at non_empty_key append_value
set_writes = append-total tagging-IsZlib ready [] stored ready-IsReady stored-IsStorable

delete_writes :
    delete_command tagging ready [] (codes "a")
    ≡ some ([] ++ (line_of tagging-IsZlib (tombstone (codes "a")) ++ 10 ∷ []))
unfolding delete_command
delete_writes =
    append-total tagging-IsZlib ready [] (tombstone (codes "a")) ready-IsReady tombstone-IsStorable

set_then_get_example :
    let file' = [] ++ (line_of tagging-IsZlib stored ++ 10 ∷ []) in
    Settles
      (Loads generous true (read_rows tagging ready file'))
      (λ out.
        out
        ≡ shown (pos 30) (
            if equal (codes "a") (codes "a")
            then some stored
            else latest (codes "a") (read_rows tagging ready []) none))
      (get_command generous tagging ready (pos 30) file' (codes "a"))
set_then_get_example =
    set_then_get tagging-IsZlib generous ready ready (pos 60) (pos 5) (pos 30) [] (codes "a=h")
      (codes "a") (codes "h") (codes "a") ready-IsReady no_line set_parses stored-IsStorable
      set_writes

delete_then_get_example :
    let file' = [] ++ (line_of tagging-IsZlib (tombstone (codes "a")) ++ 10 ∷ []) in
    Settles
      (Loads generous true (read_rows tagging ready file'))
      (λ out. out ≡ none)
      (get_command generous tagging ready (pos 30) file' (codes "a"))
delete_then_get_example =
    delete_then_get tagging-IsZlib generous ready ready (pos 30) [] (codes "a") ready-IsReady
      no_line tombstone-IsStorable delete_writes

-- A clip and a line that is no JSON.
abbrev clip_lib : Cjson
clip_lib = table_json (
    (
      codes "c",
      object (
          field (codes "session_id") (string (some (codes "s")))
            (field (codes "ts") (whole_number 7) end)),
    )
    ∷ [])

abbrev clip_lines : List (Bytes × ℤ)
clip_lines = (codes "c\r\n", pos 5) ∷ (codes "x\n", pos 6) ∷ []

abbrev stored_clip : Row
stored_clip = record { key = codes "s:7"; value = codes "c"; expire_at = pos 65 }

clip_rows_are : clip_rows clip_lib (pos 60) clip_lines ≡ stored_clip ∷ []
unfolding chomp session_and_time expiry ◌+ℤ◌ c_string get_string get_item parse_object equal
    only_spaces string_of copy_out get_int64 int64_of exact_int64 print_long digits
clip_rows_are = refl

stored_clip-IsStorable : IsStorable stored_clip
stored_clip-IsStorable = record {
  field = (
    above_controls b's' (omega arith),
    (above_controls b':' (omega arith), (above_controls b'7' (omega arith), tt)),
  );
  value = record { text = (λ e. absurd (omega arith), omega arith, tt); short = omega arith };
  long = omega arith;
}

store_clips_lem_example :
    (file' : Bytes) × (store_clips clip_lib granting tagging ready (pos 60) clip_lines []
      ≡ some file')
    × (read_rows tagging ready file'
        ≡ read_rows tagging ready [] ++ map some (clip_rows clip_lib (pos 60) clip_lines))
store_clips_lem_example =
    store_clips_lem tagging-IsZlib clip_lib granting ready ready (pos 60) clip_lines [] (λ n. refl)
      ready-IsReady ready-IsReady no_line
      (subst AllStorable (sym clip_rows_are) (stored_clip-IsStorable, tt))

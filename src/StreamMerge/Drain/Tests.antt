-- ===== src/StreamMerge/Drain/Tests.antt =====
-- Tests for applets/stream_merge: a line of the metadata file that comes in two parts.
use ws_pipeline_dispatcher.Prelude.{
  ℕ, true, false, [], ◌∷◌, ◌≡◌, refl, none, some, Bytes, codes, equal, replicate,
}
use ws_pipeline_dispatcher.Prelude.Int.{pos, ◌-ℤ◌}
use ws_pipeline_dispatcher.DynamicBuffer.{
  dynamic_buffer_append_mem, finish_append, dynamic_buffer_reserve, enlarge, capacity_for,
  put_bytes, copy_to, overwrite, realloc_block, junk_from,
}
use ws_pipeline_dispatcher.ClipStore.Number.{print_long, digits}
use ws_pipeline_dispatcher.ClipStore.Format.{c_string}
use ws_pipeline_dispatcher.Library.{build_artifact_path}
use ws_pipeline_dispatcher.StreamMerge.Reader
use ws_pipeline_dispatcher.StreamMerge.Reader.{
  parse_line, rate_of, parse_events, events_of, add_items,
}
use ws_pipeline_dispatcher.StreamMerge.Events.{event_set_add_all}
use ws_pipeline_dispatcher.StreamMerge.Fsm.{
  fsm_process_record, fsm_check_idle, fsm_flush_final, fsm_reset, start_clip, snapshot_clip,
  maybe_emit_continuous_window,
}
use ws_pipeline_dispatcher.Json.{
  string, field, end, object, get_string, get_item, parse_object, only_spaces, string_of, copy_out,
  get_uint64, uint64_of, exact_uint64, get_int64, int64_of, exact_int64, get_bool, bool_of,
}
use ws_pipeline_dispatcher.Json.Tests.{table_json, whole_number, granting}
use ws_pipeline_dispatcher.Library.Inotify.{at_end, would_block}
use ws_pipeline_dispatcher.StreamMerge.Emit.{Env, handle_action, printf, seconds}
use ws_pipeline_dispatcher.StreamMerge.Records.{MetaRecord, zero_fsm, metadata}
use ws_pipeline_dispatcher.StreamMerge.Emit.{fresh_buffer}
use ws_pipeline_dispatcher.DynamicBuffer.Reserve.{unallocated}
use ws_pipeline_dispatcher.StreamMerge.Reader.Bounds.{IsRead, parse_line-IsRead}
use ws_pipeline_dispatcher.StreamMerge.Drain.Batches.{Alike, drain_batches}
use ws_pipeline_dispatcher.StreamMerge.Drain.{Drain, drain_meta}

-- A record of ten bytes.
abbrev pub env : Env
env = record {
  lib = table_json (
      (
        codes "r",
        object (
            field (codes "kind") (string (some (codes "data"))) (
              field (codes "sequence") (whole_number 0) (
                field (codes "offset") (whole_number 0) (
                  field (codes "length") (whole_number 10)
                    (field (codes "ts_ms") (whole_number 1500) end))))),
      )
      ∷ []);
  heap = granting;
  cut = λ out text. none;
  flushes = λ out. true;
  clock = λ n. pos n;
  src = codes "d";
  session = codes "s";
}

abbrev first_record : MetaRecord
first_record = record {
  kind = codes "data";
  seq = 0;
  offset = 0;
  length = 10;
  ts_ms = pos 1500;
  continuous = false;
  byte_rate = 0;
  frame_align = 0;
  events = [];
  valid = true;
}

reads_r : parse_line env.lib (codes "r") ≡ some first_record
unfolding drain_meta dynamic_buffer_append_mem finish_append dynamic_buffer_reserve enlarge
    capacity_for put_bytes copy_to overwrite realloc_block junk_from parse_line get_string get_item
    parse_object equal c_string only_spaces string_of copy_out get_uint64 uint64_of exact_uint64
    get_int64 int64_of exact_int64 get_bool bool_of Reader.parse_object rate_of parse_events
    events_of add_items fsm_process_record fsm_check_idle fsm_flush_final fsm_reset start_clip
    snapshot_clip maybe_emit_continuous_window handle_action printf seconds print_long digits
    build_artifact_path ◌-ℤ◌ event_set_add_all
reads_r = refl

parse_line-IsRead_example : IsRead env.lib (codes "r") first_record
parse_line-IsRead_example = parse_line-IsRead env.lib (codes "r") first_record reads_r

abbrev holding : Bytes → ℕ → Drain
holding block size = record {
  buf = record { data_ = some block; len = size; cap = 128; failed = false };
  fsm = zero_fsm;
  ticks = 0;
  out = [];
}

-- The buffer behind the first part of the line, and behind the rest of it.
abbrev begun : Drain
begun = holding (114 ∷ 0 ∷ replicate 126 1) 1

abbrev fed : Drain
fed = record (holding (0 ∷ 10 ∷ 0 ∷ replicate 125 1) 0) {
  fsm = record {
    active = true;
    start_ts_ms = pos 1500;
    end_ts_ms = pos 1500;
    start_offset = 0;
    total_length = 10;
    expected_seq = 1;
    expected_offset = 10;
    last_chunk_wall_ms = pos 0;
    continuous = false;
    byte_rate = 0;
    frame_align = 1;
    boundary_mode = metadata;
    events = [];
  };
  ticks = 1;
}

abbrev unread : Drain
unread = record { buf = fresh_buffer; fsm = zero_fsm; ticks = 0; out = [] }

begins : drain_meta env (pos 5000) unread (some (codes "r") ∷ []) would_block ≡ some (begun, true)
unfolding drain_meta dynamic_buffer_append_mem finish_append dynamic_buffer_reserve enlarge
    capacity_for put_bytes copy_to overwrite realloc_block junk_from parse_line get_string get_item
    parse_object equal c_string only_spaces string_of copy_out get_uint64 uint64_of exact_uint64
    get_int64 int64_of exact_int64 get_bool bool_of Reader.parse_object rate_of parse_events
    events_of add_items fsm_process_record fsm_check_idle fsm_flush_final fsm_reset start_clip
    snapshot_clip maybe_emit_continuous_window handle_action printf seconds print_long digits
    build_artifact_path ◌-ℤ◌ event_set_add_all
begins = refl

feeds : drain_meta env (pos 5000) begun (some (codes "\n") ∷ []) at_end ≡ some (fed, true)
unfolding drain_meta dynamic_buffer_append_mem finish_append dynamic_buffer_reserve enlarge
    capacity_for put_bytes copy_to overwrite realloc_block junk_from parse_line get_string get_item
    parse_object equal c_string only_spaces string_of copy_out get_uint64 uint64_of exact_uint64
    get_int64 int64_of exact_int64 get_bool bool_of Reader.parse_object rate_of parse_events
    events_of add_items fsm_process_record fsm_check_idle fsm_flush_final fsm_reset start_clip
    snapshot_clip maybe_emit_continuous_window handle_action printf seconds print_long digits
    build_artifact_path ◌-ℤ◌ event_set_add_all
feeds = refl

at_once :
    drain_meta env (pos 5000) unread (some (codes "r") ∷ some (codes "\n") ∷ []) at_end
    ≡ some (fed, true)
unfolding drain_meta dynamic_buffer_append_mem finish_append dynamic_buffer_reserve enlarge
    capacity_for put_bytes copy_to overwrite realloc_block junk_from parse_line get_string get_item
    parse_object equal c_string only_spaces string_of copy_out get_uint64 uint64_of exact_uint64
    get_int64 int64_of exact_int64 get_bool bool_of Reader.parse_object rate_of parse_events
    events_of add_items fsm_process_record fsm_check_idle fsm_flush_final fsm_reset start_clip
    snapshot_clip maybe_emit_continuous_window handle_action printf seconds print_long digits
    build_artifact_path ◌-ℤ◌ event_set_add_all
at_once = refl

drain_batches_example : Alike fed fed
drain_batches_example =
    drain_batches env (pos 5000) unread begun fed fed (some (codes "r") ∷ [])
      (some (codes "\n") ∷ []) would_block at_end at_end (unallocated refl refl refl) begins feeds
      at_once

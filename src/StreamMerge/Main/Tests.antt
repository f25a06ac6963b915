-- ===== src/StreamMerge/Main/Tests.antt =====
-- Tests for applets/stream_merge: a session over its text input and output.
use ws_pipeline_dispatcher.Prelude.{
  Bool, true, false, List, [], ◌∷◌, ◌++◌, ◌≡◌, refl, Option, none, some, Bytes, codes, equal,
  replicate,
}
use ws_pipeline_dispatcher.Prelude.Int.{pos, ◌-ℤ◌}
use ws_pipeline_dispatcher.DynamicBuffer.{
  dynamic_buffer_append_mem, finish_append, dynamic_buffer_reserve, enlarge, capacity_for,
  put_bytes, copy_to, overwrite, realloc_block, junk_from,
}
use ws_pipeline_dispatcher.ClipStore.Number.{print_long, digits}
use ws_pipeline_dispatcher.ClipStore.Format.{c_string}
use ws_pipeline_dispatcher.Library.{build_artifact_path}
use ws_pipeline_dispatcher.StreamMerge.Reader
use ws_pipeline_dispatcher.StreamMerge.Reader.{
  parse_line, rate_of, parse_events, events_of, add_items,
}
use ws_pipeline_dispatcher.StreamMerge.Events.{event_set_add_all}
use ws_pipeline_dispatcher.StreamMerge.Fsm.{
  fsm_process_record, fsm_check_idle, fsm_flush_final, fsm_reset, start_clip, snapshot_clip,
  maybe_emit_continuous_window,
}
use ws_pipeline_dispatcher.Json.{
  get_string, get_item, parse_object, only_spaces, string_of, copy_out, get_uint64, uint64_of,
  exact_uint64, get_int64, int64_of, exact_int64, get_bool, bool_of,
}
use ws_pipeline_dispatcher.Library.Inotify.{at_end}
use ws_pipeline_dispatcher.StreamMerge.Emit.{handle_action, printf, seconds}
use ws_pipeline_dispatcher.StreamMerge.Records.{zero_fsm}
use ws_pipeline_dispatcher.StreamMerge.Drain.{Drain, Reads, drain_meta}
use ws_pipeline_dispatcher.StreamMerge.Drain.Lines.{lines_of}
use ws_pipeline_dispatcher.StreamMerge.Drain.Tests.{env}
use ws_pipeline_dispatcher.StreamMerge.Main.{
  Round, interrupted, ready, stream_merge_main, sentinel_exists,
}
use ws_pipeline_dispatcher.StreamMerge.Drain.Reading.{bytes_of}
use ws_pipeline_dispatcher.StreamMerge.Main.Inputs.{until_seen, session_inputs}
use ws_pipeline_dispatcher.StreamMerge.Main.Session.{SessionOf, session_text, main-prints_session}
use ws_pipeline_dispatcher.StreamMerge.Main.Ends.{main_ends}

-- The line comes in two reads, and the sentinel file is there behind the second round.
abbrev rounds : List Round
rounds = interrupted ∷ ready none none (λ path. true) ∷ []

abbrev first_reads : Reads
first_reads = some (codes "r") ∷ none ∷ some (codes "\n") ∷ []

abbrev outcome : Option (Drain × Bool)
outcome =
    stream_merge_main env (pos 5000) (pos 2000) (first_reads, at_end) rounds ([], at_end) false

abbrev printed : Bytes
printed =
    codes
      "{\"type\":\"clip\",\"session_id\":\"s\",\"ts\":1,\"path\":\"d/s.bin\",\"offset\":0,\"length\":10"
    ++ codes ",\"start_ts_ms\":1500,\"end_ts_ms\":1500,\"duration_ms\":0,"
    ++ codes "\"boundary_mode\":\"metadata_boundary\",\"complete\":true}\n"

-- The buffer has dropped the line, and the machine is reset.
abbrev final : Drain
final = record {
  buf = record { data_ = some (0 ∷ 10 ∷ 0 ∷ replicate 125 1); len = 0; cap = 128; failed = false };
  fsm = zero_fsm;
  ticks = 4;
  out = printed;
}

succeeds : outcome ≡ some (final, true)
unfolding stream_merge_main drain_meta dynamic_buffer_append_mem finish_append
    dynamic_buffer_reserve enlarge capacity_for put_bytes copy_to overwrite realloc_block junk_from
    parse_line get_string get_item parse_object equal c_string only_spaces string_of copy_out
    get_uint64 uint64_of exact_uint64 get_int64 int64_of exact_int64 get_bool bool_of
    Reader.parse_object rate_of parse_events events_of add_items fsm_process_record fsm_check_idle
    fsm_flush_final fsm_reset start_clip snapshot_clip maybe_emit_continuous_window handle_action
    printf seconds print_long digits build_artifact_path ◌-ℤ◌ event_set_add_all
succeeds = refl

main-prints_session_example :
    let seen = until_seen env rounds false in
    SessionOf env
      (pos 5000)
      (pos 2000)
      (session_inputs env (bytes_of first_reads) seen (bytes_of []))
      (lines_of (session_text env (pos 5000) (pos 2000) first_reads seen [])).0
      printed
main-prints_session_example =
    main-prints_session env (pos 5000) (pos 2000) first_reads [] at_end at_end rounds false final
      succeeds

main_ends_example :
    (r : Drain × Bool) × (stream_merge_main env
        (pos 5000)
        (pos 2000)
        (first_reads, at_end)
        rounds
        ([], at_end)
        false
      ≡ some r)
unfolding sentinel_exists build_artifact_path
main_ends_example =
    main_ends env (pos 5000) (pos 2000) first_reads [] at_end at_end rounds false refl

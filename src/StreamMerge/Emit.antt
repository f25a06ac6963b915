-- ===== src/StreamMerge/Emit.antt =====
-- applets/stream_merge/stream_merge.c, `emit_clip` and `handle_action`: the text that is printed for
-- a clip, and what happens where a call fails.
pub mod Text
use ws_pipeline_dispatcher.Prelude.{
  ℕ, ◌+◌, ◌*◌, ◌/◌, Bool, true, false, not, [], ◌∷◌, ◌++◌, ◌≡◌, refl, sym, ap, ◌∙◌, inl, inr,
  Option, none, some, arith, leb, ltb, ◌==◌, if◌then◌else◌, Bool-cases, length, take, Bytes, codes,
  if_ind,
}
use ws_pipeline_dispatcher.Prelude.Int.{ℤ, pos, negsuc, ◌-ℤ◌}
use ws_pipeline_dispatcher.DynamicBuffer.{DynamicBuffer, Heap}
use ws_pipeline_dispatcher.DynamicBuffer.Reserve.{content, unallocated}
use ws_pipeline_dispatcher.Json.{Cjson, minus}
use ws_pipeline_dispatcher.Library.{build_artifact_path, path_max}
use ws_pipeline_dispatcher.ClipStore.Number.{print_long}
use ws_pipeline_dispatcher.StreamMerge.Events.{EventSet}
use ws_pipeline_dispatcher.StreamMerge.Events.Text.{event_set_append_json}
use ws_pipeline_dispatcher.StreamMerge.Records.{
  BoundaryMode, metadata, continuous_byte_range, Clip, Action, nothing, reject_late, emit_complete,
  emit_partial,
}

-- The surroundings of a run: cJSON, the memory, and stdout, where `cut out text` is the number of
-- bytes that a failing `printf` of `text` behind `out` lets through, and `flushes out` tells if
-- `fflush` succeeds. The clock is `pipeline_get_monotonic_time_ms` by the number of the call.
pub record Env : Type 0 where
  pub lib : Cjson
  pub heap : Heap
  pub cut : Bytes → Bytes → Option ℕ
  pub flushes : Bytes → Bool
  pub clock : ℕ → ℤ
  pub src : Bytes
  pub session : Bytes

-- What is on stdout after a call, and if it returned 0.
abbrev pub Printed : Type 0
Printed = Bytes × Bool

abbrev pub cut_print : Bytes → Bytes → Option ℕ → Printed
cut_print out text none = (out ++ text, true)
cut_print out text (some k) = (out ++ take k text, false)

unfoldable pub printf : Env → Bytes → Bytes → Printed
printf env text out = cut_print out text (env.cut out text)

-- A call that is made if the one before it succeeded.
abbrev pub then_print : Printed → (Bytes → Printed) → Printed
then_print (out, true) next = next out
then_print (out, false) next = (out, false)

-- `/ 1000` on `int64_t` cuts towards 0.
unfoldable pub seconds : ℤ → ℤ
seconds (pos n) = pos (n / 1000)
seconds (negsuc n) = minus ((n + 1) / 1000)

abbrev pub mode_name : BoundaryMode → Bytes
mode_name metadata = codes "metadata_boundary"
mode_name continuous_byte_range = codes "continuous_byte_range"

abbrev pub bool_name : Bool → Bytes
bool_name true = codes "true"
bool_name false = codes "false"

-- The fields of a record, each with the literal in front of it.
unfoldable pub clip_fields : Bytes → Bytes → Clip → Bool → Bytes
clip_fields session path clip complete =
    codes "{\"type\":\"clip\",\"session_id\":\""
    ++ session
    ++ codes "\",\"ts\":"
    ++ print_long (seconds clip.start_ts_ms)
    ++ codes ",\"path\":\""
    ++ path
    ++ codes "\",\"offset\":"
    ++ print_long (pos clip.start_offset)
    ++ codes ",\"length\":"
    ++ print_long (pos clip.total_length)
    ++ codes ",\"start_ts_ms\":"
    ++ print_long clip.start_ts_ms
    ++ codes ",\"end_ts_ms\":"
    ++ print_long clip.end_ts_ms
    ++ codes ",\"duration_ms\":"
    ++ print_long (clip.end_ts_ms -ℤ clip.start_ts_ms)
    ++ codes ",\"boundary_mode\":\""
    ++ mode_name clip.boundary_mode
    ++ codes "\",\"complete\":"
    ++ bool_name complete

abbrev pub fresh_buffer : DynamicBuffer
fresh_buffer = record { data_ = none; len = 0; cap = 0; failed = false }

-- The print of the events from the buffer, if it was filled.
abbrev pub print_array : Env → Bytes → DynamicBuffer × Bool → Printed
print_array env out (buf, true) = printf env (codes ",\"events\":" ++ content buf) out
print_array env out (buf, false) = (out, false)

unfoldable pub print_events : Env → EventSet → Bytes → Printed
unfolding printf
print_events env [] out = (out, true)
print_events env (tag ∷ events) out =
    print_array env out (event_set_append_json env.lib env.heap (tag ∷ events) fresh_buffer)

-- The path of the session's binary file, within the buffers.
unfoldable pub bin_path : Env → Option Bytes
bin_path env =
    let filename = env.session ++ codes ".bin" in
    if ltb (length filename) path_max then build_artifact_path path_max env.src filename else none

abbrev pub print_clip : Env → Clip → Bool → Option Bytes → Bytes → Printed
print_clip env clip complete none out = (out, false)
print_clip env clip complete (some path) out =
    then_print
      (then_print
        (then_print (printf env (clip_fields env.session path clip complete) out)
          (print_events env clip.events))
        (printf env (codes "}\n")))
      (λ done_out. (done_out, env.flushes done_out))

-- `emit_clip`
unfoldable pub emit_clip : Env → Clip → Bool → Bytes → Printed
unfolding print_events bin_path clip_fields
emit_clip env clip complete out =
    if not clip.active then (out, true) else print_clip env clip complete (bin_path env) out

-- `handle_action`
unfoldable pub handle_action : Env → Action → Clip → Bytes → Printed
unfolding emit_clip
handle_action env emit_complete clip out = emit_clip env clip true out
handle_action env emit_partial clip out = emit_clip env clip false out
handle_action env reject_late clip out = (out, true)
handle_action env nothing clip out = (out, true)

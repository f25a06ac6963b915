-- ===== src/StreamMerge/Drain.antt =====
-- applets/stream_merge/stream_merge.c, `drain_meta`: the metadata file is read into a buffer, and the
-- whole lines of the buffer go to the state machine.
pub mod Lines
pub mod Shift
pub mod Reading
pub mod Refines
pub mod Loop
pub mod Batches
pub mod Tests
use ws_pipeline_dispatcher.Prelude.{
  ℕ, zero, suc, ◌+◌, ◌-◌, Bool, true, false, ◌&&◌, List, [], ◌∷◌, Option, none, some, ◌==◌,
  if◌then◌else◌, length, set, take, drop, Bytes, codes, equal, next_index,
}
use ws_pipeline_dispatcher.Prelude.Int.{ℤ}
use ws_pipeline_dispatcher.DynamicBuffer.{
  DynamicBuffer, Status, Heap, overwrite, dynamic_buffer_append_mem,
}
use ws_pipeline_dispatcher.DynamicBuffer.Reserve.{content}
use ws_pipeline_dispatcher.DynamicBuffer.{is_done}
use ws_pipeline_dispatcher.Library.Inotify.{Stop, stop_status}
use ws_pipeline_dispatcher.ClipStore.Format.{c_string}
use ws_pipeline_dispatcher.StreamMerge.Records.{MetaRecord, Fsm, zero_clip}
use ws_pipeline_dispatcher.StreamMerge.Fsm.{fsm_process_record}
use ws_pipeline_dispatcher.StreamMerge.Reader.{parse_line}
use ws_pipeline_dispatcher.StreamMerge.Emit.{Env, Printed, handle_action}

-- What a call of `drain_meta` works on: the buffer, the state machine, the number of calls of the
-- clock, and stdout.
pub record Drain : Type 0 where
  pub buf : DynamicBuffer
  pub fsm : Fsm
  pub ticks : ℕ
  pub out : Bytes

-- The reads before the last one: bytes, or an interrupt that is tried again.
abbrev pub Reads : Type 0
Reads = List (Option Bytes)

abbrev pub read_on : DynamicBuffer × Status → DynamicBuffer × Bool → DynamicBuffer × Bool
read_on (buf, status) rest = if is_done status then rest else (buf, false)

-- The loop over `read`; `true` stands for going on, and `false` for a return of -1.
unfoldable pub read_meta : Heap → DynamicBuffer → Reads → Stop → DynamicBuffer × Bool
read_meta heap buf [] stop = (buf, stop_status stop)
read_meta heap buf (none ∷ reads) stop = read_meta heap buf reads stop
read_meta heap buf (some chunk ∷ reads) stop =
    let r = dynamic_buffer_append_mem heap buf (some chunk) in
    read_on r (read_meta heap r.0 reads stop)

-- The index of `memchr(s, '\n', n)`.
unfoldable pub find_newline : Bytes → Option ℕ
find_newline [] = none
find_newline (c ∷ s) = let rest = find_newline s in if c == b'\n' then some 0 else next_index rest

abbrev pub shift_block : DynamicBuffer → ℕ → Option Bytes → DynamicBuffer
shift_block buf rest none = buf
shift_block buf rest (some block) =
    let moved = take rest (drop (buf.len - rest) block) in
    record buf { data_ = some (set (overwrite block moved) rest 0); len = rest }

-- The `memmove` of what is behind a line to the front.
unfoldable pub drop_line : DynamicBuffer → ℕ → DynamicBuffer
drop_line buf line_len = shift_block buf (buf.len - suc line_len) buf.data_

abbrev pub is_data : MetaRecord → Bool
is_data rec = rec.valid && equal rec.kind (codes "data")

module _ (env : Env) (clip_ms : ℤ) where
  -- A record at the state machine; `true` stands for going on.
  unfoldable pub feed : Drain → MetaRecord → Drain × Bool
  feed st rec =
      let o = fsm_process_record st.fsm rec clip_ms (env.clock st.ticks) zero_clip in
      let printed = handle_action env o.action o.out st.out in
      (record st { fsm = o.fsm; ticks = st.ticks + 1; out = printed.0 }, printed.1)

  -- What is not a data record is skipped.
  abbrev pub feed_data : Drain → Option MetaRecord → Drain × Bool
  feed_data st none = (st, true)
  feed_data st (some rec) = if is_data rec then feed st rec else (st, true)

  -- A line, whose text for the parser ends at its first NUL. An empty one is skipped.
  unfoldable pub handle_line : Drain → Bytes → Drain × Bool
  unfolding feed
  handle_line st [] = (st, true)
  handle_line st (c ∷ line) = feed_data st (parse_line env.lib (c_string (c ∷ line)))

  abbrev pub go_on : (Drain → Option (Drain × Bool)) → ℕ → Drain × Bool → Option (Drain × Bool)
  go_on again line_len (st, true) = again (record st { buf = drop_line st.buf line_len })
  go_on again line_len (st, false) = some (st, false)

  abbrev pub on_line : (Drain → Option (Drain × Bool)) → Drain → Option ℕ → Option (Drain × Bool)
  on_line again st none = some (st, true)
  on_line again st (some line_len) =
      go_on again line_len (handle_line st (take line_len (content st.buf)))

  -- The loop over the lines, on the rounds left.
  unfoldable pub drain_lines : ℕ → Drain → Option (Drain × Bool)
  unfolding handle_line drop_line find_newline
  drain_lines zero st = none
  drain_lines (suc rounds) st = on_line (drain_lines rounds) st (find_newline (content st.buf))

  -- `drain_meta`; `true` stands for 0 and `false` for -1. There is a round for each byte.
  unfoldable pub drain_meta : Drain → Reads → Stop → Option (Drain × Bool)
  unfolding drain_lines read_meta
  drain_meta st reads stop =
      let (buf, ok) = read_meta env.heap st.buf reads stop in
      let st' : Drain = record st { buf = buf } in
      if ok then drain_lines (suc buf.len) st' else some (st', false)

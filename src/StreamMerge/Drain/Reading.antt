-- ===== src/StreamMerge/Drain/Reading.antt =====
-- applets/stream_merge/stream_merge.c, `drain_meta`: what the loop over `read` leaves in the buffer.
use mathlib.Core.List.{append_assoc, append-nil}
use ws_pipeline_dispatcher.Prelude.{Bool, true, [], ◌∷◌, ◌++◌, ◌≡◌, sym, ap, ◌∙◌, none, some, Bytes}
use ws_pipeline_dispatcher.DynamicBuffer.{DynamicBuffer, Heap, Status, dynamic_buffer_append_mem}
use ws_pipeline_dispatcher.DynamicBuffer.Reserve.{content, IsBuffer}
use ws_pipeline_dispatcher.DynamicBuffer.Append.{Appends, added, failing, append_mem-Appends}
use ws_pipeline_dispatcher.DynamicBuffer.Chain.{not_done}
use ws_pipeline_dispatcher.Library.Inotify.{Stop}
use ws_pipeline_dispatcher.StreamMerge.Drain.{Reads, read_on, read_meta}

-- The bytes that the reads return.
abbrev pub bytes_of : Reads → Bytes
bytes_of [] = []
bytes_of (none ∷ reads) = bytes_of reads
bytes_of (some chunk ∷ reads) = chunk ++ bytes_of reads

-- What the reads of a call make of the buffer.
pub record ReadsTo (buf : DynamicBuffer) (bytes : Bytes) (r : DynamicBuffer × Bool) : Type 0 where
  pub buffer : IsBuffer r.0
  pub text : r.1 ≡ true → content r.0 ≡ content buf ++ bytes

read_on-ReadsTo :
    (heap : Heap) (buf : DynamicBuffer) (chunk text : Bytes) (r : DynamicBuffer × Status)
    (rest : DynamicBuffer × Bool)
    → Appends heap buf chunk r
    → ReadsTo r.0 text rest
    → ReadsTo buf (chunk ++ text) (read_on r rest)
read_on-ReadsTo heap buf chunk text r rest (added buf' b c live) t = record {
  buffer = t.buffer;
  text = λ ok. t.text ok ∙ ap (λ s. s ++ text) c ∙ append_assoc (content buf) chunk text;
}
read_on-ReadsTo heap buf chunk text r rest (failing buf' status n m b c f v) t =
    rw (not_done status n) (record { buffer = b; text = λ ok. absurd (cc) })

Appends-IsBuffer :
    (heap : Heap) (buf : DynamicBuffer) (chunk : Bytes) (r : DynamicBuffer × Status)
    → Appends heap buf chunk r
    → IsBuffer r.0
Appends-IsBuffer heap buf chunk r (added buf' b c live) = b
Appends-IsBuffer heap buf chunk r (failing buf' status n m b c f v) = b

-- The reads keep the buffer valid, and if the loop goes on, their bytes are behind its content.
pub read_meta-ReadsTo :
    (heap : Heap) (buf : DynamicBuffer) (reads : Reads) (stop : Stop)
    → IsBuffer buf
    → ReadsTo buf (bytes_of reads) (read_meta heap buf reads stop)
unfolding read_meta
read_meta-ReadsTo heap buf [] stop b = record {
  buffer = b;
  text = λ ok. sym (append-nil (content buf));
}
read_meta-ReadsTo heap buf (none ∷ reads) stop b = read_meta-ReadsTo heap buf reads stop b
read_meta-ReadsTo heap buf (some chunk ∷ reads) stop b =
    let a = append_mem-Appends heap buf chunk b in
    read_on-ReadsTo heap buf chunk (bytes_of reads) _ _ a (
      read_meta-ReadsTo heap (dynamic_buffer_append_mem heap buf (some chunk)).0 reads stop
        (Appends-IsBuffer heap buf chunk _ a))

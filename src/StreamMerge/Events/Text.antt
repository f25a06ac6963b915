-- ===== src/StreamMerge/Events/Text.antt =====
-- applets/stream_merge/sm_events.c, `sm_event_set_append_json`: the set as a JSON array.
use mathlib.Core.List.{append-nil}
use ws_pipeline_dispatcher.Prelude.{
  Bool, true, false, [], ◌∷◌, refl, sym, Option, some, if◌then◌else◌, Bytes,
}
use ws_pipeline_dispatcher.DynamicBuffer.{DynamicBuffer, Heap}
use ws_pipeline_dispatcher.DynamicBuffer.Reserve.{content, IsBuffer}
use ws_pipeline_dispatcher.DynamicBuffer.Chain.{
  put_char, and_then, joined, Writes, Writes-IsBuffer, written, and_then-Writes, put_char-Writes,
}
use ws_pipeline_dispatcher.Json.{Cjson, write_string, json_string}
use ws_pipeline_dispatcher.Json.Getters.{write_string-WritesString, WritesString-Writes}
use ws_pipeline_dispatcher.StreamMerge.Events.{EventSet}

module _ (lib : Cjson) (heap : Heap) where
  -- The comma in front of every item but the first.
  unfoldable pub append_comma : Bool → DynamicBuffer → DynamicBuffer × Bool
  append_comma first buf = if first then (buf, true) else put_char heap buf b','

  -- The loop over the items, `first` at index 0.
  unfoldable pub append_items : Bool → EventSet → DynamicBuffer → DynamicBuffer × Bool
  unfolding append_comma
  append_items first [] buf = (buf, true)
  append_items first (tag ∷ set) buf =
      let comma = append_comma first buf in
      let item = write_string lib heap comma.0 tag in
      let rest = append_items false set item.0 in and_then comma (and_then item rest)

  -- `sm_event_set_append_json`; `true` stands for 0 and `false` for -1.
  unfoldable pub event_set_append_json : EventSet → DynamicBuffer → DynamicBuffer × Bool
  unfolding append_items
  event_set_append_json set out =
      let opened = put_char heap out b'[' in
      let items = append_items true set opened.0 in
      and_then opened (and_then items (put_char heap items.0 b']'))

module _ (lib : Cjson) where
  abbrev pub comma_text : Bool → Bytes
  comma_text first = if first then [] else b',' ∷ []

  -- The JSON texts of the tags with commas between them, if all of them have one.
  abbrev pub items_text : Bool → EventSet → Option Bytes
  items_text first [] = some []
  items_text first (tag ∷ set) =
      joined (some (comma_text first)) (joined (json_string lib tag) (items_text false set))

  abbrev pub array_text : EventSet → Option Bytes
  array_text set = joined (some (b'[' ∷ [])) (joined (items_text true set) (some (b']' ∷ [])))

module _ (lib : Cjson) (heap : Heap) where
  append_comma-Writes :
      (first : Bool) (buf : DynamicBuffer)
      → IsBuffer buf
      → Writes buf (some (comma_text lib first)) (append_comma lib heap first buf)
  unfolding append_comma
  append_comma-Writes true buf b = written buf [] refl b (sym (append-nil (content buf)))
  append_comma-Writes false buf b = put_char-Writes heap buf b',' b

  append_items-Writes :
      (first : Bool) (set : EventSet) (buf : DynamicBuffer)
      → IsBuffer buf
      → Writes buf (items_text lib first set) (append_items lib heap first set buf)
  unfolding append_items
  append_items-Writes first [] buf b = written buf [] refl b (sym (append-nil (content buf)))
  append_items-Writes first (tag ∷ set) buf b =
      let comma = append_comma-Writes first buf b in
      let ready = Writes-IsBuffer buf _ _ comma in
      let item = write_string-WritesString lib heap (append_comma lib heap first buf).0 tag ready in
      let item' = WritesString-Writes lib _ tag _ item in
      and_then-Writes buf _ _ _ _ comma (
        and_then-Writes _ _ _ _ _ item'
          (append_items-Writes false set _ (Writes-IsBuffer _ _ _ item')))

  -- Appending an event set to a valid buffer: with success the JSON texts of its tags stand behind
  -- the content, in their order, with commas between them and brackets around them; the buffer is
  -- valid in any case.
  pub append_json-Writes :
      (set : EventSet) (out : DynamicBuffer)
      → IsBuffer out
      → Writes out (array_text lib set) (event_set_append_json lib heap set out)
  unfolding event_set_append_json
  append_json-Writes set out b =
      let opened = put_char-Writes heap out b'[' b in
      let items = append_items-Writes true set _ (Writes-IsBuffer _ _ _ opened) in
      and_then-Writes out _ _ _ _ opened (
        and_then-Writes _ _ _ _ _ items (put_char-Writes heap _ b']' (Writes-IsBuffer _ _ _ items)))

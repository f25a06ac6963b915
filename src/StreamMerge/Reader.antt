-- ===== src/StreamMerge/Reader.antt =====
-- applets/stream_merge/sm_reader.c: a line of the metadata file as a chunk record; `none` stands
-- for -1. The records that it returns are within the bounds that the state machine relies on.
pub mod Bounds
use ws_pipeline_dispatcher.Prelude.{
  ℕ, ◌+◌, ◌*◌, ◌^◌, ◌≤◌, ◌<◌, Bool, true, false, ◌≡◌, refl, sym, ◌∙◌, Option, none, some, arith,
  ◌==◌, if◌then◌else◌, ◌>>=◌, bind-eq-some, length, Bytes, codes,
}
use ws_pipeline_dispatcher.Prelude.Int.{ℤ, pos}
use ws_pipeline_dispatcher.Json.{
  Value, null, boolean, number, string, array, object, Items, nil, cons, Cjson, whole_object,
  max_safe_integer, get_string, get_int64, get_uint64, get_bool, string_of,
}
use ws_pipeline_dispatcher.StreamMerge.Events.{EventSet, empty, event_set_add_tag}
use ws_pipeline_dispatcher.StreamMerge.Records.{MetaRecord}

-- The size of `kind`.
abbrev pub kind_size : ℕ
kind_size = 16

abbrev pub added_set : EventSet × Bool → Option EventSet
added_set (set, true) = some set
added_set (set, false) = none

-- The loop of `parse_events` over the items.
unfoldable pub add_items : EventSet → Items → Option EventSet
add_items set nil = some set
add_items set (cons item items) =
    string_of item >>= λ tag. added_set (event_set_add_tag set tag) >>= λ set'. add_items set' items

-- The test of `parse_events` on the item "events"; a missing item leaves the set as it is.
unfoldable pub events_of : EventSet → Option Value → Option EventSet
unfolding add_items
events_of set none = some set
events_of set (some (array items)) = add_items set items
events_of set (some item) = none

-- The fields behind "continuous".
pub record Rate : Type 0 where
  pub continuous : Bool
  pub byte_rate : ℕ
  pub frame_align : ℕ

abbrev pub or_one : Option ℕ → ℕ
or_one none = 1
or_one (some n) = n

abbrev pub nonzero : ℕ → Option ℕ
nonzero n = if n == 0 then none else some n

module _ (lib : Cjson) where
  -- `parse_object` of the reader, a copy of the one of the codec.
  unfoldable pub parse_object : Bytes → Option Value
  unfolding whole_object
  parse_object line = whole_object (lib.parse_with_opts line)

  -- `parse_events`
  unfoldable pub parse_events : Bytes → EventSet → Option EventSet
  unfolding events_of
  parse_events line events =
      parse_object line >>= λ root. events_of events (lib.get_object_item root (codes "events"))

  unfoldable pub rate_of : Bytes → Option Bool → Option Rate
  rate_of line (some true) = get_uint64 lib line (codes "byte_rate") >>= nonzero >>= λ rate.
      some (record {
        continuous = true;
        byte_rate = rate;
        frame_align = or_one (get_uint64 lib line (codes "frame_align"));
      })
  rate_of line (some false) = some (record { continuous = false; byte_rate = 0; frame_align = 0 })
  rate_of line none = some (record { continuous = false; byte_rate = 0; frame_align = 0 })

  -- `sm_reader_parse_line`
  unfoldable pub parse_line : Bytes → Option MetaRecord
  unfolding rate_of
  parse_line line = do
    kind ← get_string lib line (codes "kind") kind_size
    seq ← get_uint64 lib line (codes "sequence")
    offset ← get_uint64 lib line (codes "offset")
    size ← get_uint64 lib line (codes "length")
    ts_ms ← get_int64 lib line (codes "ts_ms")
    rate ← rate_of line (get_bool lib line (codes "continuous"))
    events ← parse_events line empty
    some (record {
      kind = kind;
      seq = seq;
      offset = offset;
      length = size;
      ts_ms = ts_ms;
      continuous = rate.continuous;
      byte_rate = rate.byte_rate;
      frame_align = rate.frame_align;
      events = events;
      valid = true;
    })

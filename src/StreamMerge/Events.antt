-- ===== src/StreamMerge/Events.antt =====
-- applets/stream_merge/sm_events.c and sm_events.h: the set of event tags of a chunk or a clip.
pub mod Membership
pub mod Text
use ws_pipeline_dispatcher.Prelude.{
  ℕ, ◌+◌, Bool, true, false, ◌||◌, List, [], ◌∷◌, ◌++◌, leb, if◌then◌else◌, length, Bytes, equal,
}

-- SM_EVENT_MAX_ITEMS and SM_EVENT_MAX_LEN
abbrev pub max_items : ℕ
max_items = 16

abbrev pub max_len : ℕ
max_len = 64

-- `sm_event_set_t`: the tags `items[0 .. count)`, so `count` is the length of the list.
abbrev pub EventSet : Type 0
EventSet = List Bytes

abbrev pub empty : EventSet
empty = []

-- The scan `strcmp(set->items[i], tag) == 0`.
unfoldable pub contains : EventSet → Bytes → Bool
contains [] tag = false
contains (t ∷ set) tag = if equal t tag then true else contains set tag

-- `sm_event_set_reset`
unfoldable pub event_set_reset : EventSet → EventSet
event_set_reset set = empty

-- `sm_event_set_add_tag`; `true` stands for the return value 0 and `false` for -1.
unfoldable pub event_set_add_tag : EventSet → Bytes → EventSet × Bool
event_set_add_tag set [] = (set, false)
event_set_add_tag set (c ∷ cs) =
    if leb max_len (length (c ∷ cs))
    then (set, false)
    else if contains set (c ∷ cs)
    then (set, true)
    else if leb max_items (length set)
    then (set, false)
    else (set ++ (c ∷ cs) ∷ [], true)

-- `sm_event_set_add_all`: the tags before the first refused one stay added.
unfoldable pub event_set_add_all : EventSet → List Bytes → EventSet × Bool
event_set_add_all dst [] = (dst, true)
event_set_add_all dst (tag ∷ src) =
    let (dst', done) = event_set_add_tag dst tag in
    let rest = event_set_add_all dst' src in if done then rest else (dst', false)

-- ===== src/StreamMerge/Reader/Bounds.antt =====
-- applets/stream_merge/sm_reader.c: what the record of a line holds.
use ws_pipeline_dispatcher.Prelude.{
  ℕ, ◌≤◌, ◌<◌, Bool, true, false, ◌≡◌, refl, sym, ◌∙◌, Option, none, some, arith, ◌>>=◌,
  bind-eq-some, length, Bytes, codes, some_inj,
}
use ws_pipeline_dispatcher.Prelude.Int.{pos}
use ws_pipeline_dispatcher.Json.{
  Value, null, boolean, number, string, array, object, Items, nil, cons, Cjson, max_safe_integer,
  get_item, get_string, get_int64, get_uint64, get_bool, string_of,
}
use ws_pipeline_dispatcher.Json.Numbers.{SafeInteger-small}
use ws_pipeline_dispatcher.Json.Getters.{HasInteger, get_integers_lem, get_texts_lem}
use ws_pipeline_dispatcher.StreamMerge.Events.{EventSet, empty, event_set_add_tag}
use ws_pipeline_dispatcher.StreamMerge.Events.Membership.{IsEventSet, add_tag-IsEventSet}
use ws_pipeline_dispatcher.StreamMerge.Records.{MetaRecord}
use ws_pipeline_dispatcher.StreamMerge.Fsm.Window.{Fits}
use ws_pipeline_dispatcher.StreamMerge.Session.Ascending.{IsCounted}
use ws_pipeline_dispatcher.StreamMerge.Reader.{
  kind_size, added_set, add_items, events_of, Rate, nonzero, parse_events, rate_of, parse_line,
  parse_object,
}

-- The record says what the line says, within bounds.
pub record IsRead (lib : Cjson) (line : Bytes) (rec : MetaRecord) : Type 0 where
  pub kind : get_item lib line (codes "kind") ≡ some (string (some rec.kind))
  pub kind_fits : length rec.kind < kind_size
  pub seq : HasInteger lib line (codes "sequence") (pos rec.seq)
  pub offset : HasInteger lib line (codes "offset") (pos rec.offset)
  pub size : HasInteger lib line (codes "length") (pos rec.length)
  pub ts_ms : HasInteger lib line (codes "ts_ms") rec.ts_ms
  pub byte_rate :
      rec.continuous ≡ true
      → HasInteger lib line (codes "byte_rate") (pos rec.byte_rate) × (0 < rec.byte_rate)
  pub events : IsEventSet rec.events
  pub valid : rec.valid ≡ true

added_set-IsEventSet :
    (r : EventSet × Bool) (set' : EventSet)
    → added_set r ≡ some set'
    → IsEventSet r.0
    → IsEventSet set'
added_set-IsEventSet (set, true) set' e h = let same : set ≡ set' = cc in rw (sym same) h
added_set-IsEventSet (set, false) set' e h = absurd (cc)

add_items-IsEventSet :
    (set : EventSet) (items : Items) (set' : EventSet)
    → add_items set items ≡ some set'
    → IsEventSet set
    → IsEventSet set'
unfolding add_items
add_items-IsEventSet set nil set' e h = let same : set ≡ set' = cc in rw (sym same) h
add_items-IsEventSet set (cons item items) set' e h =
    let (tag, _, e₁) = bind-eq-some (string_of item) _ e in
    let (next, added, e₂) = bind-eq-some (added_set (event_set_add_tag set tag)) _ e₁ in
    add_items-IsEventSet next items set' e₂
      (added_set-IsEventSet _ next added (add_tag-IsEventSet set tag h))

events_of-IsEventSet :
    (set : EventSet) (o : Option Value) (set' : EventSet)
    → events_of set o ≡ some set'
    → IsEventSet set
    → IsEventSet set'
unfolding events_of
events_of-IsEventSet set none set' e h = let same : set ≡ set' = cc in rw (sym same) h
events_of-IsEventSet set (some (array items)) set' e h = add_items-IsEventSet set items set' e h
events_of-IsEventSet set (some null) set' e h = absurd (cc)
events_of-IsEventSet set (some (boolean b)) set' e h = absurd (cc)
events_of-IsEventSet set (some (number x)) set' e h = absurd (cc)
events_of-IsEventSet set (some (string s)) set' e h = absurd (cc)
events_of-IsEventSet set (some (object fs)) set' e h = absurd (cc)

empty-IsEventSet : IsEventSet empty
empty-IsEventSet = record { few = omega arith; tags = tt; distinct = tt }

module _ (lib : Cjson) (line : Bytes) where
  abbrev IsRate : Rate → Type 0
  IsRate rate =
      rate.continuous ≡ true
      → HasInteger lib line (codes "byte_rate") (pos rate.byte_rate) × (0 < rate.byte_rate)

  nonzero_lem : (n k : ℕ) → nonzero n ≡ some k → (n ≡ k) × (0 < n)
  nonzero_lem n k e = ground arith

  rate_of-IsRate : (o : Option Bool) (rate : Rate) → rate_of lib line o ≡ some rate → IsRate rate
  unfolding rate_of
  rate_of-IsRate (some true) rate e _ =
      let (n, more, made) =
        bind-eq-some (get_uint64 lib line (codes "byte_rate") >>= nonzero) _ e in
      let (k, got, non) = bind-eq-some (get_uint64 lib line (codes "byte_rate")) nonzero more in
      let (same, positive) = nonzero_lem k n non in
      let rate_is : n ≡ rate.byte_rate = cc in
      let read = ((get_integers_lem lib line (codes "byte_rate")).1 k).0 got in
      let eq : k ≡ rate.byte_rate = same ∙ rate_is in rw (sym eq) (read, positive)
  rate_of-IsRate (some false) rate e c = absurd (cc)
  rate_of-IsRate none rate e c = absurd (cc)

  -- A line that is read as a record has an object with the record's kind, sequence number,
  -- offset, length and time under their keys, numbers exact and within 2^53 - 1 of 0; a
  -- continuous one has a positive byte rate, and the events are a well-formed set.
  pub parse_line-IsRead : (rec : MetaRecord) → parse_line lib line ≡ some rec → IsRead lib line rec
  unfolding parse_line parse_events
  parse_line-IsRead rec e =
      let (kind, e_kind, e₁) = bind-eq-some (get_string lib line (codes "kind") kind_size) _ e in
      let (seq, e_seq, e₂) = bind-eq-some (get_uint64 lib line (codes "sequence")) _ e₁ in
      let (offset, e_offset, e₃) = bind-eq-some (get_uint64 lib line (codes "offset")) _ e₂ in
      let (size, e_size, e₄) = bind-eq-some (get_uint64 lib line (codes "length")) _ e₃ in
      let (ts_ms, e_ts, e₅) = bind-eq-some (get_int64 lib line (codes "ts_ms")) _ e₄ in
      let (rate, e_rate, e₆) =
        bind-eq-some (rate_of lib line (get_bool lib line (codes "continuous"))) _ e₅ in
      let (events, e_events, e₇) = bind-eq-some (parse_events lib line empty) _ e₆ in
      let (root, _, e₈) = bind-eq-some (parse_object lib line) _ e_events in
      let same = some_inj e₇ in
      rw (sym same) (
        let (kind_item, kind_small) =
          (get_texts_lem lib line (codes "kind") kind_size kind).0.0 e_kind in
        record {
          kind = kind_item;
          kind_fits = kind_small;
          seq = ((get_integers_lem lib line (codes "sequence")).1 seq).0 e_seq;
          offset = ((get_integers_lem lib line (codes "offset")).1 offset).0 e_offset;
          size = ((get_integers_lem lib line (codes "length")).1 size).0 e_size;
          ts_ms = ((get_integers_lem lib line (codes "ts_ms")).0 ts_ms).0 e_ts;
          byte_rate = rate_of-IsRate (get_bool lib line (codes "continuous")) rate e_rate;
          events = events_of-IsEventSet empty _ events e₈ empty-IsEventSet;
          valid = refl;
        })

  small_of-HasInteger :
      (key : Bytes) (n : ℕ) → HasInteger lib line key (pos n) → n ≤ max_safe_integer
  small_of-HasInteger key n (item, found, h) =
      let small = SafeInteger-small item (pos n) h in omega arith

  -- So a record that is read meets what the state machine asks of one.
  pub IsRead-Fits : (rec : MetaRecord) → IsRead lib line rec → Fits rec
  IsRead-Fits rec h =
      let offset_le = small_of-HasInteger (codes "offset") rec.offset h.offset in
      let size_le = small_of-HasInteger (codes "length") rec.length h.size in
      record { offset = omega arith; length = omega arith }

  pub IsRead-IsCounted : (rec : MetaRecord) → IsRead lib line rec → IsCounted rec
  IsRead-IsCounted rec h =
      let seq_le = small_of-HasInteger (codes "sequence") rec.seq h.seq in
      record { valid = h.valid; bounded = omega arith }

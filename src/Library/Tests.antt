-- ===== src/Library/Tests.antt =====
-- Tests for lib/libpipeline.c.
use ws_pipeline_dispatcher.Prelude.{
  Bool, true, false, List, [], ◌∷◌, ◌≡◌, refl, some, map, codes, replicate, arith, equal,
}
use ws_pipeline_dispatcher.ClipStore.Format.{c_string}
use ws_pipeline_dispatcher.Dispatcher.Applet.{base_name, behind_slash}
use ws_pipeline_dispatcher.Library.{is_completed_session, strndup, monotonic_time_ms}
use ws_pipeline_dispatcher.Library.Inotify.{would_block, stop_status, consume_inotify_events, walk}
use ws_pipeline_dispatcher.Library.Inotify.Events.{
  Event, encode_all, any_batch, either, consume_lem,
}

-- A file and the sentinel appear.
abbrev batch : List Event
batch =
    record { head = replicate 12 1; name = codes "s.bin"; nuls = 11 }
    ∷ record { head = replicate 12 2; name = codes ".pipeline_end"; nuls = 3 }
    ∷ []

sees_the_sentinel :
    consume_inotify_events (encode_all batch ∷ []) would_block false ≡ some (true, true)
unfolding consume_inotify_events walk is_completed_session base_name behind_slash c_string equal
sees_the_sentinel = refl

copies_a_prefix : strndup true (codes "hello") 2 ≡ some (codes "he")
unfolding strndup
copies_a_prefix = refl

counts_milliseconds : monotonic_time_ms (some (3, 14_999_999)) ≡ 3014
unfolding monotonic_time_ms
counts_milliseconds = refl

consume_lem_example :
    ((seen' : Bool) × (consume_inotify_events (codes "torn" ∷ []) would_block false
        ≡ some (stop_status would_block, seen')))
    × (consume_inotify_events (map encode_all (batch ∷ [])) would_block false
        ≡ some (stop_status would_block, either (any_batch (batch ∷ [])) false))
consume_lem_example = consume_lem (codes "torn" ∷ []) (batch ∷ []) would_block false (
  (
    record {
      head_size = refl;
      name_bytes = ground arith;
      ended = λ h. omega arith;
      fits = omega arith;
    },
    (
      record {
        head_size = refl;
        name_bytes = ground arith;
        ended = λ h. omega arith;
        fits = omega arith;
      },
      tt,
    ),
  ),
  tt,
)

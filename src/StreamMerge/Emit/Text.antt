-- ===== src/StreamMerge/Emit/Text.antt =====
-- applets/stream_merge/stream_merge.c, `emit_clip`: a call that returns 0 has printed whole records.
use mathlib.Core.Path.{subst}
use mathlib.Core.List.{append_assoc, append-nil}
use ws_pipeline_dispatcher.Prelude.{
  Bool, true, false, not, List, [], ◌∷◌, ◌++◌, ◌≡◌, refl, ap, inl, inr, Option, none, some,
  if◌then◌else◌, Bool-cases, Bytes, codes, ℕ,
}
use ws_pipeline_dispatcher.DynamicBuffer.{DynamicBuffer}
use ws_pipeline_dispatcher.DynamicBuffer.Reserve.{unallocated}
use ws_pipeline_dispatcher.DynamicBuffer.Chain.{Writes, written, broken, joined}
use ws_pipeline_dispatcher.Json.{Cjson}
use ws_pipeline_dispatcher.StreamMerge.Events.{EventSet}
use ws_pipeline_dispatcher.StreamMerge.Events.Text.{append_json-Writes, array_text}
use ws_pipeline_dispatcher.StreamMerge.Records.{
  Clip, Action, nothing, reject_late, emit_complete, emit_partial,
}
use ws_pipeline_dispatcher.StreamMerge.Session.{Emission}
use ws_pipeline_dispatcher.StreamMerge.Session
use ws_pipeline_dispatcher.StreamMerge.Emit.{
  Env, Printed, cut_print, printf, then_print, clip_fields, fresh_buffer, print_array, print_events,
  bin_path, print_clip, emit_clip, handle_action,
}

-- With success the text is there and was printed whole.
pub data Prints (out : Bytes) (o : Option Bytes) : Printed → Type 0 where
  whole : (text : Bytes) → o ≡ some text → Prints out o (out ++ text, true)
  cut_off : (out' : Bytes) → Prints out o (out', false)

pub cut_print-Prints :
    (out text : Bytes) (o : Option ℕ) → Prints out (some text) (cut_print out text o)
cut_print-Prints out text none = whole text refl
cut_print-Prints out text (some k) = cut_off _

printf-Prints : (env : Env) (text out : Bytes) → Prints out (some text) (printf env text out)
unfolding printf
printf-Prints env text out = cut_print-Prints out text (env.cut out text)

pub then_print-Prints :
    (out : Bytes) (o o' : Option Bytes) (r : Printed) (next : Bytes → Printed)
    → Prints out o r
    → ((out' : Bytes) → Prints out' o' (next out'))
    → Prints out (joined o o') (then_print r next)
then_print-Prints out o o' r next (cut_off out') h = cut_off out'
then_print-Prints out o o' r next (whole text e) h = more (next (out ++ text)) (h (out ++ text))
  where
    more : (r' : Printed) → Prints (out ++ text) o' r' → Prints out (joined o o') r'
    more r' (cut_off last) = cut_off last
    more r' (whole text' e') =
        rw (append_assoc out text text') (whole (text ++ text') (rw (e, e') refl))

-- The events field, if there are events.
abbrev pub events_field : Cjson → EventSet → Option Bytes
events_field lib [] = some []
events_field lib (tag ∷ events) =
    joined (some (codes ",\"events\":")) (array_text lib (tag ∷ events))

print_array-Prints :
    (env : Env) (out : Bytes) (o : Option Bytes) (r : DynamicBuffer × Bool)
    → Writes fresh_buffer o r
    → Prints out (joined (some (codes ",\"events\":")) o) (print_array env out r)
print_array-Prints env out o r (broken buf b) = cut_off out
print_array-Prints env out o r (written buf text e b c) =
    rw (e, c) (printf-Prints env (codes ",\"events\":" ++ text) out)

nothing-Prints : (out : Bytes) → Prints out (some []) (out, true)
nothing-Prints out = subst (λ t. Prints out (some []) (t, true)) (append-nil out) (whole [] refl)

print_events-Prints :
    (env : Env) (events : EventSet) (out : Bytes)
    → Prints out (events_field env.lib events) (print_events env events out)
unfolding print_events
print_events-Prints env [] out = nothing-Prints out
print_events-Prints env (tag ∷ events) out =
    print_array-Prints env out _ _
      (append_json-Writes env.lib env.heap (tag ∷ events) fresh_buffer (unallocated refl refl refl))

module _ (env : Env) where
  -- The record of an emission, if its path fits and its events have a text.
  abbrev pub record_text : Emission → Option Bytes → Option Bytes
  record_text e none = none
  record_text e (some path) =
      joined
        (joined (some (clip_fields env.session path e.clip e.complete))
          (events_field env.lib e.clip.events))
        (some (codes "}\n"))

  abbrev pub texts : List Emission → Option Bytes
  texts [] = some []
  texts (e ∷ es) = joined (record_text e (bin_path env)) (texts es)

  print_clip-Prints :
      (e : Emission) (o : Option Bytes) (out : Bytes)
      → Prints out (record_text e o) (print_clip env e.clip e.complete o out)
  print_clip-Prints e none out = cut_off out
  print_clip-Prints e (some path) out =
      let fields = clip_fields env.session path e.clip e.complete in
      let body =
        then_print-Prints out _ _ _ (print_events env e.clip.events) (printf-Prints env fields out)
          (print_events-Prints env e.clip.events) in
      let line =
        then_print-Prints out _ _ _ (printf env (codes "}\n")) body
          (printf-Prints env (codes "}\n")) in
      flushed line
    where
      flushed :
          {o' : Option Bytes} {r : Printed}
          → Prints out o' r
          → Prints out o' (then_print r (λ done_out. (done_out, env.flushes done_out)))
      flushed (cut_off out') = cut_off out'
      flushed (whole text eq) = elim (Bool-cases (env.flushes (out ++ text))) [
        | inl ok ↦ rw ok (whole text eq)
        | inr bad ↦ rw bad (cut_off _)
      ]

  single :
      (e : Emission) (out : Bytes) (r : Printed)
      → Prints out (record_text e (bin_path env)) r
      → Prints out (texts (e ∷ [])) r
  single e out r (cut_off out') = cut_off out'
  single e out r (whole text eq) = whole text (rw eq (ap some (append-nil text)))

  emit_if-Prints :
      (closed : Bool) (e : Emission) (out : Bytes)
      → Prints out
          (texts (if closed then [] else e ∷ []))
          (if closed then (out, true) else print_clip env e.clip e.complete (bin_path env) out)
  emit_if-Prints true e out = nothing-Prints out
  emit_if-Prints false e out = single e out _ (print_clip-Prints e (bin_path env) out)

  emit_clip-Prints :
      (clip : Clip) (complete : Bool) (out : Bytes)
      → Prints out (texts (Session.emit_clip clip complete)) (emit_clip env clip complete out)
  unfolding emit_clip Session.emit_clip
  emit_clip-Prints clip complete out =
      emit_if-Prints (not clip.active) (record { clip = clip; complete = complete }) out

  -- A call for an action that returns 0 has printed the record of its clip whole, if the action
  -- prints one, and nothing otherwise.
  pub handle_action-Prints :
      (action : Action) (clip : Clip) (out : Bytes)
      → Prints out (texts (Session.handle_action action clip)) (handle_action env action clip out)
  unfolding handle_action Session.handle_action
  handle_action-Prints emit_complete clip out = emit_clip-Prints clip true out
  handle_action-Prints emit_partial clip out = emit_clip-Prints clip false out
  handle_action-Prints reject_late clip out = nothing-Prints out
  handle_action-Prints nothing clip out = nothing-Prints out

-- ===== src/ClipStore/Commands/Clips.antt =====
-- applets/clip_store/clip_store.c: the default mode, which stores the clips that come as JSON lines on
-- stdin under their session and time.
use ws_pipeline_dispatcher.Prelude.{
  ℕ, Bool, true, false, ◌||◌, List, [], ◌∷◌, ◌++◌, ◌≡◌, refl, ◌∙◌, Option, none, some, ◌>>=◌, ◌==◌,
  if◌then◌else◌, bind-eq-some, Bytes, codes,
}
use ws_pipeline_dispatcher.Prelude.Int.{ℤ}
use ws_pipeline_dispatcher.DynamicBuffer.{DynamicBuffer, Heap}
use ws_pipeline_dispatcher.DynamicBuffer.Reserve.{content, unallocated}
use ws_pipeline_dispatcher.DynamicBuffer.Chain.{
  put_char, put_str, and_then, Writes, written, broken, Writes-IsBuffer, and_then-Writes,
  put_char-Writes, put_str-Writes,
}
use ws_pipeline_dispatcher.Json.{Cjson, get_string, get_int64}
use ws_pipeline_dispatcher.ClipStore.Row.{Row}
use ws_pipeline_dispatcher.ClipStore.Number.{print_long}
use ws_pipeline_dispatcher.ClipStore.Format.{Zlib, System, c_string, append_db_row}
use ws_pipeline_dispatcher.ClipStore.Format.File.{append_rows}
use ws_pipeline_dispatcher.ClipStore.Commands.{expiry}
use ws_pipeline_dispatcher.StreamMerge.Emit.{fresh_buffer}

-- The size of `session`.
abbrev pub session_size : ℕ
session_size = 128

abbrev pub put_kept : ℕ → Bytes → Bytes
put_kept c [] = if c == 10 || c == 13 then [] else c ∷ []
put_kept c (d ∷ s) = c ∷ d ∷ s

-- The loop that cuts the ends of lines off a line.
unfoldable pub chomp : Bytes → Bytes
chomp [] = []
chomp (c ∷ s) = put_kept c (chomp s)

-- The session and the time of a clip; a line without them is skipped.
unfoldable pub session_and_time : Cjson → Bytes → Option (Bytes × ℤ)
session_and_time lib line = do
  session ← get_string lib line (codes "session_id") session_size
  ts ← get_int64 lib line (codes "ts")
  some (session, ts)

-- The key in a buffer.
unfoldable pub put_key : Heap → Bytes → ℤ → DynamicBuffer × Bool
put_key heap session ts =
    let name = put_str heap fresh_buffer session in
    let colon = put_char heap name.0 b':' in
    let time = put_str heap colon.0 (print_long ts) in and_then name (and_then colon time)

-- The row is appended if the key was made; `none` stands for `rc` 1 and the end of the loop.
abbrev pub append_keyed : Zlib → System → Bytes → Bytes → ℤ → DynamicBuffer × Bool → Option Bytes
append_keyed zlib sys file line expire_at (key, true) =
    append_db_row zlib sys file (content key) line expire_at
append_keyed zlib sys file line expire_at (key, false) = none

module _ (lib : Cjson) (heap : Heap) (zlib : Zlib) (sys : System) (ttl : ℤ) where
  abbrev pub store_fields : Bytes → ℤ → Bytes → Option (Bytes × ℤ) → Option Bytes
  store_fields line now file none = some file
  store_fields line now file (some (session, ts)) =
      append_keyed zlib sys file line (expiry ttl now) (put_key heap session ts)

  -- A line of the input, with the time that `time` gives behind it.
  unfoldable pub store_clip : Bytes → ℤ → Bytes → Option Bytes
  unfolding chomp session_and_time put_key
  store_clip text now file =
      let line = chomp (c_string text) in store_fields line now file (session_and_time lib line)

  -- The loop over the lines: the file behind it.
  unfoldable pub store_clips : List (Bytes × ℤ) → Bytes → Option Bytes
  unfolding store_clip
  store_clips [] file = some file
  store_clips ((text, now) ∷ lines) file = store_clip text now file >>= store_clips lines

module _ (lib : Cjson) (ttl : ℤ) where
  -- The row of a clip: its key is the session and the time with a colon between them.
  abbrev pub clip_row : Bytes → ℤ → Bytes × ℤ → Row
  clip_row line now (session, ts) = record {
    key = session ++ b':' ∷ print_long ts;
    value = line;
    expire_at = expiry ttl now;
  }

  abbrev pub put_row : Bytes → ℤ → Option (Bytes × ℤ) → List Row → List Row
  put_row line now none rows = rows
  put_row line now (some fields) rows = clip_row line now fields ∷ rows

  -- The rows of the lines that have a session and a time, in order.
  abbrev pub clip_rows : List (Bytes × ℤ) → List Row
  clip_rows [] = []
  clip_rows ((text, now) ∷ lines) =
      let line = chomp (c_string text) in
      put_row line now (session_and_time lib line) (clip_rows lines)

pub put_key-Writes :
    (heap : Heap) (session : Bytes) (ts : ℤ)
    → Writes fresh_buffer (some (session ++ b':' ∷ print_long ts)) (put_key heap session ts)
unfolding put_key
put_key-Writes heap session ts =
    let name = put_str-Writes heap fresh_buffer session (unallocated refl refl refl) in
    let colon = put_char-Writes heap _ b':' (Writes-IsBuffer _ _ _ name) in
    let time = put_str-Writes heap _ (print_long ts) (Writes-IsBuffer _ _ _ colon) in
    and_then-Writes _ _ _ _ _ name (and_then-Writes _ _ _ _ _ colon time)

append_keyed-row :
    (zlib : Zlib) (sys : System) (file line key : Bytes) (expire_at : ℤ) (r : DynamicBuffer × Bool)
    (file' : Bytes)
    → Writes fresh_buffer (some key) r
    → append_keyed zlib sys file line expire_at r ≡ some file'
    → append_db_row zlib sys file key line expire_at ≡ some file'
append_keyed-row zlib sys file line key expire_at r file' (broken buf b) e = absurd (cc)
append_keyed-row zlib sys file line key expire_at r file' (written buf text same b c) e =
    let text_is : content buf ≡ key = c ∙ cc in rw (← text_is) e

module _ (lib : Cjson) (heap : Heap) (zlib : Zlib) (sys : System) (ttl : ℤ) where
  store_fields-rows :
      (line : Bytes) (now : ℤ) (o : Option (Bytes × ℤ)) (rows : List Row) (file file₁ file' : Bytes)
      → store_fields lib heap zlib sys ttl line now file o ≡ some file₁
      → append_rows zlib sys file₁ rows ≡ some file'
      → append_rows zlib sys file (put_row lib ttl line now o rows) ≡ some file'
  unfolding append_rows
  store_fields-rows line now none rows file file₁ file' e e' =
      let same : file ≡ file₁ = cc in rw same e'
  store_fields-rows line now (some (session, ts)) rows file file₁ file' e e' =
      let row =
        append_keyed-row zlib sys file line _ (expiry ttl now) _ file₁
          (put_key-Writes heap session ts) e in
      rw row e'

  -- A run that returns 0 appends the rows of the clips.
  pub store_clips-append_rows :
      (lines : List (Bytes × ℤ)) (file file' : Bytes)
      → store_clips lib heap zlib sys ttl lines file ≡ some file'
      → append_rows zlib sys file (clip_rows lib ttl lines) ≡ some file'
  unfolding store_clips store_clip append_rows
  store_clips-append_rows [] file file' e = e
  store_clips-append_rows ((text, now) ∷ lines) file file' e =
      let line = chomp (c_string text) in
      let (file₁, stored, more) =
        bind-eq-some (store_fields lib heap zlib sys ttl line now file (session_and_time lib line))
          _ e in
      store_fields-rows line now (session_and_time lib line) (clip_rows lib ttl lines) file file₁
        file' stored (store_clips-append_rows lines file₁ file' more)

-- ===== src/ClipStore/Commands/Stored.antt =====
-- applets/clip_store/clip_store.c: the default mode stores the clips that it reads.
use ws_pipeline_dispatcher.Prelude.{
  ℕ, zero, suc, ◌+◌, ◌/◌, ◌%◌, ◌==◌, ◌≤◌, ◌<◌, Bool, true, List, [], ◌∷◌, ◌++◌, ◌≡◌, refl, sym, ap,
  ◌∙◌, inl, inr, Option, none, some, bind-eq-some, Bool-cases, Bytes, codes, map, length, arith,
}
use ws_pipeline_dispatcher.Prelude.Int.{ℤ, pos, negsuc, pos_part, neg_part}
use ws_pipeline_dispatcher.DynamicBuffer.{DynamicBuffer, Heap}
use ws_pipeline_dispatcher.DynamicBuffer.Reserve.{content, unallocated}
use ws_pipeline_dispatcher.DynamicBuffer.Chain.{
  put_char, put_str, Writes, written, broken, put_str-Grows, put_char-Grows,
}
use ws_pipeline_dispatcher.Json.{Cjson, get_string, get_int64, max_safe_integer}
use ws_pipeline_dispatcher.Json.Numbers.{SafeInteger-small}
use ws_pipeline_dispatcher.Json.Getters.{get_integers_lem, get_texts_lem}
use ws_pipeline_dispatcher.ClipStore.Row.{Row}
use ws_pipeline_dispatcher.ClipStore.Number.{print_long, digits}
use ws_pipeline_dispatcher.ClipStore.Format.{Zlib, System, c_string, append_db_row, read_rows}
use ws_pipeline_dispatcher.ClipStore.Format.Text.{IsFile}
use ws_pipeline_dispatcher.ClipStore.Format.Packed.{IsZlib, IsReady}
use ws_pipeline_dispatcher.ClipStore.Format.File.{
  AllStorable, IsStorable, append_rows-read_rows, append-total,
}
use ws_pipeline_dispatcher.ClipStore.Commands.Clips.{
  session_size, chomp, session_and_time, put_key, append_keyed, store_fields, store_clips,
  store_clip, clip_row, put_row, clip_rows, put_key-Writes, store_clips-append_rows,
}
use ws_pipeline_dispatcher.StreamMerge.Emit.{fresh_buffer}

length-digits : (rounds n : ℕ) (out : Bytes) → length (digits rounds n out) ≤ rounds + length out
unfolding digits
length-digits zero n out = omega arith
length-digits (suc rounds) n out = elim (Bool-cases (n / 10 == 0)) [
  | inl e ↦ rw e (omega arith)
  | inr e ↦ rw e (omega (arith, length-digits rounds (n / 10) ((b'0' + n % 10) ∷ out)))
]

-- A rough bound on the print of a number.
length-print_long : (z : ℤ) → length (print_long z) ≤ pos_part z + neg_part z + 3
unfolding print_long
length-print_long (pos n) = omega (arith, length-digits (suc n) n [])
length-print_long (negsuc n) = omega (arith, length-digits (suc (suc n)) (suc n) [])

module _ (lib : Cjson) (line : Bytes) where
  -- What is read for the key is short.
  session_and_time_bounds :
      (session : Bytes) (ts : ℤ)
      → session_and_time lib line ≡ some (session, ts)
      → (length session < session_size) × (length (print_long ts) ≤ max_safe_integer + 3)
  unfolding session_and_time
  session_and_time_bounds session ts e =
      let (s, e_s, e₁) = bind-eq-some (get_string lib line (codes "session_id") session_size) _ e in
      let (t, e_t, e₂) = bind-eq-some (get_int64 lib line (codes "ts")) _ e₁ in
      let short = ((get_texts_lem lib line (codes "session_id") session_size s).0.0 e_s).1 in
      let (item, _, exact) = ((get_integers_lem lib line (codes "ts")).0 t).0 e_t in
      let small = SafeInteger-small item t exact in
      let same : s ≡ session = cc in
      let same' : t ≡ ts = cc in
      rw (sym same, sym same') (short, omega (arith, length-print_long t, small))

module _ (heap : Heap) (grants : (n : ℕ) → heap.grants n ≡ true) where
  put_key_ends :
      (session : Bytes) (ts : ℤ)
      → length session < session_size
      → length (print_long ts) ≤ max_safe_integer + 3
      → (put_key heap session ts).1 ≡ true
  unfolding put_key
  put_key_ends session ts short small =
      let name = put_str heap fresh_buffer session in
      let n =
        put_str-Grows heap fresh_buffer (unallocated refl refl refl) refl grants session
          (omega arith) in
      let colon = put_char heap name.0 b':' in
      let size = n.size in
      let c = put_char-Grows heap name.0 n.buffer n.live grants b':' (omega arith) in
      let size' = c.size in
      let t = put_str-Grows heap colon.0 c.buffer c.live grants (print_long ts) (omega arith) in
      rw (n.ends, c.ends) t.ends

  append_keyed-total :
      {zlib : Zlib} (z : IsZlib zlib) (sys : System) (file : Bytes) (row : Row)
      (r : DynamicBuffer × Bool)
      → IsReady sys
      → IsStorable row
      → Writes fresh_buffer (some row.key) r
      → r.1 ≡ true
      → (file' : Bytes) × (append_keyed zlib sys file row.value row.expire_at r ≡ some file')
  append_keyed-total {zlib} z sys file row r ready h (broken buf b) e = absurd (cc)
  append_keyed-total {zlib} z sys file row r ready h (written buf text same b c) e =
      let key : content buf ≡ row.key = c ∙ cc in
      (
        _,
        ap (λ k. append_db_row zlib sys file k row.value row.expire_at) key
            ∙ append-total z sys file row ready h,
      )

module _ (lib : Cjson) (heap : Heap) (grants : (n : ℕ) → heap.grants n ≡ true) {zlib : Zlib}
    (z : IsZlib zlib) (sys : System) (ready : IsReady sys) (ttl : ℤ) where
  store_fields-total :
      (line : Bytes) (now : ℤ) (o : Option (Bytes × ℤ)) (rows : List Row) (file : Bytes)
      → session_and_time lib line ≡ o
      → AllStorable (put_row lib ttl line now o rows)
      → ((file' : Bytes) × (store_fields lib heap zlib sys ttl line now file o ≡ some file'))
        × AllStorable rows
  store_fields-total line now none rows file e h = ((file, refl), h)
  store_fields-total line now (some (session, ts)) rows file e (s, h) =
      let (short, small) = session_and_time_bounds lib line session ts e in
      (
        append_keyed-total heap grants z sys file (clip_row lib ttl line now (session, ts)) _ ready
            s (put_key-Writes heap session ts) (put_key_ends heap grants session ts short small),
        h,
      )

  store_clips-total :
      (lines : List (Bytes × ℤ)) (file : Bytes)
      → AllStorable (clip_rows lib ttl lines)
      → (file' : Bytes) × (store_clips lib heap zlib sys ttl lines file ≡ some file')
  unfolding store_clips store_clip
  store_clips-total [] file h = (file, refl)
  store_clips-total ((text, now) ∷ lines) file h =
      let line = chomp (c_string text) in
      let ((file₁, e), h') =
        store_fields-total line now (session_and_time lib line) (clip_rows lib ttl lines) file refl
          h in
      let (file', e') = store_clips-total lines file₁ h' in (file', rw e e')

-- With every call granted, a run of the default mode on a file of whole lines returns 0 if the
-- rows of its clips are storable, and reading the file then gives the old rows and those of the
-- lines that have a session and a time, in order: the key is the session and the time, and the
-- value is the line.
pub store_clips_lem :
    {zlib : Zlib} (z : IsZlib zlib) (lib : Cjson) (heap : Heap) (writer reader : System) (ttl : ℤ)
    (lines : List (Bytes × ℤ)) (file : Bytes)
    → ((n : ℕ) → heap.grants n ≡ true)
    → IsReady writer
    → IsReady reader
    → IsFile file
    → AllStorable (clip_rows lib ttl lines)
    → (file' : Bytes) × (store_clips lib heap zlib writer ttl lines file ≡ some file')
      × (read_rows zlib reader file'
          ≡ read_rows zlib reader file ++ map some (clip_rows lib ttl lines))
store_clips_lem {zlib} z lib heap writer reader ttl lines file grants ready ready' f h =
    let (file', e) = store_clips-total lib heap grants z writer ready ttl lines file h in
    (
      file',
      e,
      append_rows-read_rows z (clip_rows lib ttl lines) writer reader file h ready' f
          (store_clips-append_rows lib heap zlib writer ttl lines file file' e),
    )

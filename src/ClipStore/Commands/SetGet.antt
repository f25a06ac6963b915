-- ===== src/ClipStore/Commands/SetGet.antt =====
-- What `--get` prints after `--set` and `--delete`.
use ws_pipeline_dispatcher.Prelude.{
  true, [], ◌∷◌, ◌≡◌, refl, sym, ap, ◌∙◌, Option, none, some, if◌then◌else◌, Bytes, equal,
  equal_iff,
}
use ws_pipeline_dispatcher.Prelude.Int.{ℤ, pos}
use ws_pipeline_dispatcher.ClipStore.Answer.{Settles, given, Settles-bind}
use ws_pipeline_dispatcher.ClipStore.Row.{Row, row_is_live, row_is_tombstone}
use ws_pipeline_dispatcher.ClipStore.Index.{Allocator, load_latest_row}
use ws_pipeline_dispatcher.ClipStore.Index.Load.{Loads}
use ws_pipeline_dispatcher.ClipStore.Index.Latest.{latest}
use ws_pipeline_dispatcher.ClipStore.Format.{Zlib, System, append_db_row, read_rows}
use ws_pipeline_dispatcher.ClipStore.Format.Text.{IsFile}
use ws_pipeline_dispatcher.ClipStore.Format.Packed.{IsZlib, IsReady}
use ws_pipeline_dispatcher.ClipStore.Format.File.{IsStorable, append_then_get}
use ws_pipeline_dispatcher.ClipStore.Commands.{
  parse_set_expr, expiry, append_value, set_command, delete_command, shown, get_command,
}

-- The row that `--set` writes.
abbrev pub set_row : ℤ → ℤ → Bytes → Bytes → Row
set_row ttl now key value = record { key = key; value = value; expire_at = expiry ttl now }

-- The row that `--delete` writes.
abbrev pub tombstone : Bytes → Row
tombstone key = record { key = key; value = []; expire_at = pos 0 }

get_lookup :
    (alloc : Allocator) (zlib : Zlib) (sys : System) (now : ℤ) (file key : Bytes) (o : Option Row)
    → Settles
        (Loads alloc sys.reads (read_rows zlib sys file))
        (λ out. out ≡ o)
        (load_latest_row alloc sys.reads (read_rows zlib sys file) key)
    → Settles
        (Loads alloc sys.reads (read_rows zlib sys file))
        (λ out. out ≡ shown now o)
        (get_command alloc zlib sys now file key)
unfolding get_command
get_lookup alloc zlib sys now file key o s =
    Settles-bind s (λ row e. given (shown now row) (ap (shown now) e))

append_value-row :
    (zlib : Zlib) (sys : System) (file : Bytes) (expire_at : ℤ) (key value : Bytes) {file' : Bytes}
    → append_value zlib sys file expire_at (some (key, value)) ≡ some file'
    → append_db_row zlib sys file key value expire_at ≡ some file'
unfolding append_value
append_value-row zlib sys file expire_at key [] e = cc
append_value-row zlib sys file expire_at key (c ∷ value) e = e

-- After a --set of a storable row on a file of whole lines succeeded, --get of its key prints
-- its value at the times at which the row is live and nothing at others, and --get of another
-- key prints what the old file says; it ends, and fails only if memory runs out for the lookup,
-- a read fails, or 2^58 lines or more are read.
pub set_then_get :
    {zlib : Zlib} (z : IsZlib zlib) (alloc : Allocator) (writer reader : System) (ttl now later : ℤ)
    (file arg key value : Bytes) {file' : Bytes} (k : Bytes)
    → IsReady reader
    → IsFile file
    → parse_set_expr arg ≡ some (key, value)
    → IsStorable (set_row ttl now key value)
    → set_command zlib writer ttl now file arg ≡ some file'
    → Settles
        (Loads alloc reader.reads (read_rows zlib reader file'))
        (λ out.
          out
          ≡ shown later (
              if equal key k
              then some (set_row ttl now key value)
              else latest k (read_rows zlib reader file) none))
        (get_command alloc zlib reader later file' k)
unfolding set_command
set_then_get {zlib} z alloc writer reader ttl now later file arg key value {file'} k ready f parsed
      h e =
    let run = sym (ap (append_value zlib writer file (expiry ttl now)) parsed) ∙ e in
    let row = set_row ttl now key value in
    get_lookup alloc zlib reader later file' k _ (
      append_then_get z row h alloc writer reader file k ready f
        (append_value-row zlib writer file (expiry ttl now) key value run))

-- A tombstone shows nothing.
dead : (now : ℤ) (key : Bytes) → shown now (some (tombstone key)) ≡ none
unfolding shown row_is_live row_is_tombstone
dead now key = refl

-- After a --delete of a key that the format can store, with no NUL, tab or end of line,
-- succeeded on a file of whole lines, --get of the key prints nothing at any time; it ends, and
-- fails only if memory runs out for the lookup, a read fails, or 2^58 lines or more are read.
pub delete_then_get :
    {zlib : Zlib} (z : IsZlib zlib) (alloc : Allocator) (writer reader : System) (later : ℤ)
    (file key : Bytes) {file' : Bytes}
    → IsReady reader
    → IsFile file
    → IsStorable (tombstone key)
    → delete_command zlib writer file key ≡ some file'
    → Settles
        (Loads alloc reader.reads (read_rows zlib reader file'))
        (λ out. out ≡ none)
        (get_command alloc zlib reader later file' key)
delete_then_get {zlib} z alloc writer reader later file key {file'} ready f h e =
    let same : equal key key ≡ true = (equal_iff key key).1 refl in
    let looked =
      append_then_get z (tombstone key) h alloc writer reader file key ready f
        (delete-row zlib writer file key e) in
    rw (dead later key) at
      (get_lookup alloc zlib reader later file' key (some (tombstone key)) (rw same at looked))
  where
    delete-row :
        (zlib : Zlib) (sys : System) (file key : Bytes) {file' : Bytes}
        → delete_command zlib sys file key ≡ some file'
        → append_db_row zlib sys file key [] (pos 0) ≡ some file'
    delete-row zlib sys file [] e = unfold delete_command in cc
    delete-row zlib sys file (c ∷ key) e = unfold delete_command in e

-- ===== src/ClipStore/Compact.antt =====
-- applets/clip_store/db_compact.c: the database is rewritten with its live latest rows. Also
-- `print_rows` of clip_store.c, which walks the same rows.
pub mod Live
pub mod Keeps
use ws_pipeline_dispatcher.Prelude.{
  Bool, true, false, ◌&&◌, List, [], ◌∷◌, ◌++◌, Option, none, some, ◌==◌, if◌then◌else◌, Bytes,
}
use ws_pipeline_dispatcher.Prelude.Int.{ℤ}
use ws_pipeline_dispatcher.ClipStore.Answer.{Answer, ok, fails, stuck}
use ws_pipeline_dispatcher.ClipStore.Row.{Row, row_is_live}
use ws_pipeline_dispatcher.ClipStore.Index.{Buckets, RowIndex, Allocator, load_latest_rows}
use ws_pipeline_dispatcher.ClipStore.Format.{Zlib, System, read_rows}
use ws_pipeline_dispatcher.ClipStore.Format.File.{append_rows}

-- The rows that the loop over the buckets does not skip.
unfoldable pub live_rows : ℤ → Buckets → List Row
live_rows now [] = []
live_rows now (none ∷ bs) = live_rows now bs
live_rows now (some row ∷ bs) =
    let rest = live_rows now bs in if row_is_live row now then row ∷ rest else rest

-- Which calls on the temporary file succeed: the print of its path into a `PATH_MAX` buffer, `open`
-- and `fdopen`, `fflush` and `fsync`, and `rename`.
pub record Disk : Type 0 where
  pub path_fits : Bool
  pub opens : Bool
  pub syncs : Bool
  pub renames : Bool

-- The calls behind the rewriting: on success the temporary file takes the database's place.
unfoldable pub replace_db : Disk → Bytes → Option Bytes → Bool × Bytes
replace_db disk file none = (false, file)
replace_db disk file (some tmp) = if disk.syncs && disk.renames then (true, tmp) else (false, file)

-- `db_rewrite_compact`, on the loaded index: whether it returns 0, and the file at `db_path` then.
unfoldable pub rewrite_index : Zlib → System → Disk → Bytes → ℤ → Answer RowIndex → Bool × Bytes
rewrite_index zlib sys disk file now (ok index) =
    if disk.path_fits && disk.opens
    then replace_db disk file (append_rows zlib sys [] (live_rows now index.buckets))
    else (false, file)
rewrite_index zlib sys disk file now fails = (false, file)
rewrite_index zlib sys disk file now stuck = (false, file)

-- `db_rewrite_compact`. The reads and the writes have their own `System`.
unfoldable pub db_rewrite_compact :
    Allocator → Zlib → System → System → Disk → Bytes → ℤ → Bool × Bytes
db_rewrite_compact alloc zlib reader writer disk file now =
    rewrite_index zlib writer disk file now
      (load_latest_rows alloc reader.reads (read_rows zlib reader file))

-- `strncmp(key, prefix, strlen(prefix)) == 0`
unfoldable pub has_prefix : Bytes → Bytes → Bool
has_prefix [] key = true
has_prefix (c ∷ prefix) [] = false
has_prefix (c ∷ prefix) (d ∷ key) = d == c && has_prefix prefix key

-- `"%s\t%s\n"`
unfoldable pub print_row : Row → Bytes
print_row row = row.key ++ 9 ∷ (row.value ++ 10 ∷ [])

-- The loop of `print_rows`: what it writes to stdout.
unfoldable pub print_live : Bytes → List Row → Bytes
print_live prefix [] = []
print_live prefix (row ∷ rows) =
    let rest = print_live prefix rows in
    if has_prefix prefix row.key then print_row row ++ rest else rest

-- `print_rows` without a prefix has the prefix `[]` here. `none` stands for -1.
unfoldable pub print_rows : Allocator → Zlib → System → Bytes → Bytes → ℤ → Option Bytes
print_rows alloc zlib sys prefix file now =
    elim (load_latest_rows alloc sys.reads (read_rows zlib sys file)) [
      | ok index ↦ some (print_live prefix (live_rows now index.buckets))
      | fails ↦ none
      | stuck ↦ none
    ]

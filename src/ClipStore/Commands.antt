-- ===== src/ClipStore/Commands.antt =====
-- applets/clip_store/clip_store.c: the commands `--set`, `--get` and `--delete`, behind the open and
-- locked file.
pub mod SetGet
pub mod Clips
pub mod Stored
pub mod Tests
use ws_pipeline_dispatcher.Prelude.{
  Bool, true, false, List, [], ◌∷◌, Option, none, some, ℕ, zero, if◌then◌else◌, Bytes,
}
use ws_pipeline_dispatcher.Prelude.Int.{ℤ, pos, negsuc, ◌+ℤ◌}
use ws_pipeline_dispatcher.ClipStore.Answer.{Answer, ok, ◌>>=◌}
use ws_pipeline_dispatcher.ClipStore.Row.{Row, row_is_live}
use ws_pipeline_dispatcher.ClipStore.Index.{Allocator, load_latest_row}
use ws_pipeline_dispatcher.ClipStore.Format.{Zlib, System, split_at, append_db_row, read_rows}

-- The text at the first `=` is cut, and may not start there.
unfoldable pub non_empty_key : Option (Bytes × Bytes) → Option (Bytes × Bytes)
non_empty_key none = none
non_empty_key (some ([], value)) = none
non_empty_key (some (c ∷ key, value)) = some (c ∷ key, value)

-- `parse_set_expr`; `none` stands for -1.
unfoldable pub parse_set_expr : Bytes → Option (Bytes × Bytes)
parse_set_expr arg = non_empty_key (split_at b'=' arg)

-- `ttl == 0 ? 0 : now + ttl`
unfoldable pub expiry : ℤ → ℤ → ℤ
expiry (pos zero) now = pos 0
expiry ttl now = now +ℤ ttl

-- The row is appended, unless the expression is wrong or the value is empty.
unfoldable pub append_value : Zlib → System → Bytes → ℤ → Option (Bytes × Bytes) → Option Bytes
append_value zlib sys file expire_at none = none
append_value zlib sys file expire_at (some (key, [])) = none
append_value zlib sys file expire_at (some (key, c ∷ value)) =
    append_db_row zlib sys file key (c ∷ value) expire_at

-- `--set`: the file behind the command; `none` stands for a return code that is not 0.
unfoldable pub set_command : Zlib → System → ℤ → ℤ → Bytes → Bytes → Option Bytes
set_command zlib sys ttl now file arg =
    append_value zlib sys file (expiry ttl now) (parse_set_expr arg)

-- `--delete`
unfoldable pub delete_command : Zlib → System → Bytes → Bytes → Option Bytes
delete_command zlib sys file [] = none
delete_command zlib sys file (c ∷ key) = append_db_row zlib sys file (c ∷ key) [] (pos 0)

-- The value that is printed for a row.
unfoldable pub shown : ℤ → Option Row → Option Bytes
shown now none = none
shown now (some row) = if row_is_live row now then some row.value else none

-- `--get`: what is printed. The call fails where the loading does.
unfoldable pub get_command : Allocator → Zlib → System → ℤ → Bytes → Bytes → Answer (Option Bytes)
get_command alloc zlib sys now file key =
    load_latest_row alloc sys.reads (read_rows zlib sys file) key >>= λ row. ok (shown now row)

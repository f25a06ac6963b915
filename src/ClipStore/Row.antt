-- ===== src/ClipStore/Row.antt =====
-- applets/clip_store/clip_store.h, and the tests of db_format.c and db_query.c on one row.
use ws_pipeline_dispatcher.Prelude.{Bool, true, false, not, ◌&&◌, [], ◌∷◌, if◌then◌else◌, Bytes}
use ws_pipeline_dispatcher.Prelude.Int.{ℤ, pos, ltb_ℤ}

-- `row_t`; the owner of the value's memory is not modelled.
pub record Row : Type 0 where
  pub key : Bytes
  pub value : Bytes
  pub expire_at : ℤ

abbrev is_zero : ℤ → Bool
is_zero a = if ltb_ℤ a (pos 0) then false else not (ltb_ℤ (pos 0) a)

-- `clip_row_is_expired`
unfoldable pub row_is_expired : Row → ℤ → Bool
row_is_expired row now = not (is_zero row.expire_at) && not (ltb_ℤ now row.expire_at)

is_empty : Bytes → Bool
is_empty [] = true
is_empty (c ∷ cs) = false

-- `clip_row_is_tombstone`
unfoldable pub row_is_tombstone : Row → Bool
unfolding is_empty
row_is_tombstone row = is_empty row.value

-- `row_is_live`
unfoldable pub row_is_live : Row → ℤ → Bool
unfolding row_is_expired row_is_tombstone
row_is_live row now = if row_is_tombstone row then false else not (row_is_expired row now)

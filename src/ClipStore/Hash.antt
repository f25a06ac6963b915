-- ===== src/ClipStore/Hash.antt =====
-- applets/clip_store/db_query.c: the FNV-1a hash of a key, and the masks of the probe sequence.
pub mod Mask
use Prim.Native.Nat.{bit_and, bit_xor}
use ws_pipeline_dispatcher.Prelude.{ℕ, ◌+◌, ◌-◌, ◌*◌, ◌%◌, ◌^◌, [], ◌∷◌, Bytes}

abbrev fnv_offset_basis : ℕ
fnv_offset_basis = 14695981039346656037

abbrev fnv_prime : ℕ
fnv_prime = 1099511628211

-- The loop over the bytes of the key.
unfoldable pub hash_bytes : ℕ → Bytes → ℕ
hash_bytes h [] = h
hash_bytes h (c ∷ key) = hash_bytes (bit_xor h c * fnv_prime % 2 ^ 64) key

-- `hash_key`
unfoldable pub hash_key : Bytes → ℕ
unfolding hash_bytes
hash_key key = hash_bytes fnv_offset_basis key

-- The first bucket that `find_slot` looks at, and the one after a bucket.
unfoldable pub home_bucket : Bytes → ℕ → ℕ
home_bucket key cap = bit_and (hash_key key) (cap - 1)

unfoldable pub next_bucket : ℕ → ℕ → ℕ
next_bucket idx cap = bit_and (idx + 1) (cap - 1)

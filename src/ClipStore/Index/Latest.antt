-- ===== src/ClipStore/Index/Latest.antt =====
-- What a list of rows says of a key: the last row with it wins. The rows of a table, which has a
-- key once, say what the table holds.
use ws_pipeline_dispatcher.Prelude.{
  ℕ, suc, false, List, [], ◌∷◌, ◌≡◌, ◌≢◌, refl, sym, ◌∙◌, inl, inr, Option, none, some, arith,
  Bool-cases, Bytes, equal, equal_iff, if◌then◌else◌,
}
use ws_pipeline_dispatcher.ClipStore.Row.{Row}
use ws_pipeline_dispatcher.ClipStore.Index.{Buckets, slot}
use ws_pipeline_dispatcher.ClipStore.Index.Table.{contents, IsTable}

-- The last row with the key, or else what was known before; `none` is a line that is no row.
unfoldable pub latest : Bytes → List (Option Row) → Option Row → Option Row
latest key [] known = known
latest key (none ∷ rows) known = latest key rows known
latest key (some row ∷ rows) known = latest key rows (if equal row.key key then some row else known)

pub latest-absent :
    (key : Bytes) (bs : Buckets) (known : Option Row)
    → ((i : ℕ) (row : Row) → slot bs i ≡ some row → row.key ≢ key)
    → latest key bs known ≡ known
unfolding latest
latest-absent key [] known h = refl
latest-absent key (none ∷ bs) known h = latest-absent key bs known (λ i. h (suc i))
latest-absent key (some row ∷ bs) known h =
    let other : equal row.key key ≡ false = ground (arith, equal_iff row.key key, h 0 row refl) in
    rw other (latest-absent key bs known (λ i. h (suc i)))

abbrev pub Unique : Buckets → Type 0
Unique bs =
    (i j : ℕ) (row row' : Row)
    → slot bs i ≡ some row
    → slot bs j ≡ some row'
    → row.key ≡ row'.key
    → i ≡ j

pub suc-inj : (i j : ℕ) → suc i ≡ suc j → i ≡ j
suc-inj i j h = omega arith

latest-Unique : (key : Bytes) (bs : Buckets) → Unique bs → latest key bs none ≡ contents key bs
unfolding latest contents
latest-Unique key [] u = refl
latest-Unique key (none ∷ bs) u =
    latest-Unique key bs (λ i j r r' s s' e. suc-inj i j (u (suc i) (suc j) r r' s s' e))
latest-Unique key (some row ∷ bs) u = elim (Bool-cases (equal row.key key)) [
  | inl e ↦ rw e (
      latest-absent key bs (some row) (λ i r s same.
        ground (arith, u 0 (suc i) row r refl s ((equal_iff row.key key).0 e ∙ sym same))))
  | inr e ↦
      rw e (latest-Unique key bs (λ i j r r' s s' e. suc-inj i j (u (suc i) (suc j) r r' s s' e)))
]

pub latest-contents :
    (k : ℕ) (key : Bytes) (bs : Buckets) → IsTable k bs → latest key bs none ≡ contents key bs
latest-contents k key bs t = latest-Unique key bs t.unique

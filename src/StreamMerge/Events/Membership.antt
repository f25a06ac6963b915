-- ===== src/StreamMerge/Events/Membership.antt =====
-- Event sets stay small and free of duplicates, and hold what was added.
use ws_pipeline_dispatcher.Prelude.{
  ◌≤◌, ◌<◌, true, false, ◌&&◌, ◌||◌, [], ◌∷◌, ◌++◌, ◌≡◌, ◌↔◌, ◌⊎◌, inl, inr, refl, Bool-cases,
  arith, length, length-append, Bytes, equal, equal_iff,
}
use ws_pipeline_dispatcher.StreamMerge.Events.{
  max_items, max_len, EventSet, contains, event_set_add_tag, event_set_add_all,
}

-- A tag that fits its slot: not empty, and with room for the final NUL.
abbrev pub IsTag : Bytes → Type 0
IsTag tag = (0 < length tag) × (length tag < max_len)

abbrev pub AllTags : EventSet → Type 0
AllTags [] = Unit
AllTags (t ∷ set) = IsTag t × AllTags set

-- No tag occurs twice.
abbrev pub AllDistinct : EventSet → Type 0
AllDistinct [] = Unit
AllDistinct (t ∷ set) = (contains set t ≡ false) × AllDistinct set

pub record IsEventSet (set : EventSet) : Type 0 where
  pub few : length set ≤ max_items
  pub tags : AllTags set
  pub distinct : AllDistinct set

equal_comm : (a b : Bytes) → equal a b ≡ equal b a
equal_comm a b = ground (arith, equal_iff a b, equal_iff b a)

contains-concat :
    (set : EventSet) (tag t : Bytes)
    → contains (set ++ tag ∷ []) t ≡ (contains set t || equal tag t)
unfolding contains
contains-concat [] tag t = ground arith
contains-concat (s ∷ set) tag t = ground (arith, contains-concat set tag t)

AllTags-concat :
    (set : EventSet) (tag : Bytes) → AllTags set → IsTag tag → AllTags (set ++ tag ∷ [])
AllTags-concat [] tag h t = (t, tt)
AllTags-concat (s ∷ set) tag h t = (h.0, AllTags-concat set tag h.1 t)

AllDistinct-concat :
    (set : EventSet) (tag : Bytes)
    → AllDistinct set
    → contains set tag ≡ false
    → AllDistinct (set ++ tag ∷ [])
unfolding contains
AllDistinct-concat [] tag h n = (refl, tt)
AllDistinct-concat (s ∷ set) tag h n = (
  ground (arith, contains-concat set tag s, equal_comm s tag),
  AllDistinct-concat set tag h.1 (ground arith),
)

concat-IsEventSet :
    (set : EventSet) (tag : Bytes)
    → IsEventSet set
    → IsTag tag
    → contains set tag ≡ false
    → length set < max_items
    → IsEventSet (set ++ tag ∷ [])
concat-IsEventSet set tag h t n l = record {
  few = omega (arith, length-append set (tag ∷ []));
  tags = AllTags-concat set tag h.tags t;
  distinct = AllDistinct-concat set tag h.distinct n;
}

-- A call keeps the set well formed, whether it succeeds or not.
pub add_tag-IsEventSet :
    (set : EventSet) (tag : Bytes) → IsEventSet set → IsEventSet (event_set_add_tag set tag).0
unfolding event_set_add_tag
add_tag-IsEventSet set [] h = h
add_tag-IsEventSet set (c ∷ cs) h = ground (arith, concat-IsEventSet set (c ∷ cs) h)

-- Adding a tag succeeds exactly for a tag that fits where the set has it or has room; then the
-- set has its old tags and, on success, the new one, and no others.
pub add_tag_lem :
    (set : EventSet) (tag : Bytes)
    → let (set', done) = event_set_add_tag set tag in
      ((done ≡ true) ↔ (IsTag tag × ((contains set tag ≡ true) ⊎ (length set < max_items))))
      × ((t : Bytes) → contains set' t ≡ (contains set t || (done && equal tag t)))
unfolding event_set_add_tag
add_tag_lem set [] = (ground arith, λ t. ground arith)
add_tag_lem set (c ∷ cs) =
    (ground arith, λ t. ground (arith, contains-concat set (c ∷ cs) t, equal_iff (c ∷ cs) t))

-- Uniting a set into a well-formed one keeps that well formed and keeps its tags, and on success
-- the result has exactly the tags of both.
pub add_all_lem :
    (dst src : EventSet)
    → IsEventSet dst
    → let (dst', done) = event_set_add_all dst src in
      IsEventSet dst'
      × ((t : Bytes) → contains dst t ≡ true → contains dst' t ≡ true)
      × (done ≡ true → (t : Bytes) → contains dst' t ≡ (contains dst t || contains src t))
unfolding event_set_add_all contains
add_all_lem dst [] h = (h, (λ t c. c), λ e t. ground arith)
add_all_lem dst (tag ∷ src) h =
    let a = event_set_add_tag dst tag in
    let (_, has) = add_tag_lem dst tag in
    let (ih, keeps, both) = add_all_lem a.0 src (add_tag-IsEventSet dst tag h) in
    elim (Bool-cases a.1) [
      | inl ok ↦
          rw ok
            (ih, (λ t c. keeps t (ground (arith, has t))), λ e t. ground (arith, has t, both e t))
      | inr refused ↦
          rw refused (add_tag-IsEventSet dst tag h, (λ t c. ground (arith, has t)), λ e. cc)
    ]

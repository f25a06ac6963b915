-- ===== src/ClipStore/Index/Capacity.antt =====
-- The doubling loop of `row_index_grow`.
use native.Mathlib.Nat.{two-pow-succ}
use ws_pipeline_dispatcher.Prelude.{
  ℕ, zero, suc, ◌+◌, ◌*◌, ◌^◌, ◌≤◌, ◌<◌, true, false, ◌≡◌, refl, ◌∙◌, ap, inl, inr, arith,
  Bool-cases, leb, ◌%◌, ◌⊎◌,
}
use ws_pipeline_dispatcher.ClipStore.Answer.{ok}
use ws_pipeline_dispatcher.ClipStore.Hash.Mask.{pow_pos}
use ws_pipeline_dispatcher.ClipStore.Index.{u64, next_capacity}

next_capacity_on :
    (rounds n c : ℕ)
    → leb (c * 3 % u64) (n * 4 % u64) ≡ true
    → next_capacity (suc rounds) n c ≡ next_capacity rounds n (c * 2 % u64)
unfolding next_capacity
next_capacity_on rounds n c h = rw h refl

-- The doubling loop ends at a power of two with room for `n` rows, without a wrap of its products:
-- where it starts, or at one that is not over what `n` rows need.
pub next_capacity_lem :
    (rounds n k : ℕ)
    → n < 2 ^ 60
    → 2 ^ k < 2 ^ 62
    → n * 4 < 2 ^ k * 3 + rounds * 3
    → (k' : ℕ) × (next_capacity (suc rounds) n (2 ^ k) ≡ ok (2 ^ k'))
      × (n * 4 < 2 ^ k' * 3)
      × ((k' ≡ k) ⊎ (2 ^ k' * 3 ≤ n * 8))
unfolding next_capacity
next_capacity_lem zero n k few small h =
    let len_fits : n * 4 % u64 ≡ n * 4 = omega arith in
    let cap_fits : 2 ^ k * 3 % u64 ≡ 2 ^ k * 3 = omega arith in
    let room : leb (2 ^ k * 3) (n * 4) ≡ false = ground arith in
    (k, rw (len_fits, cap_fits, room) refl, omega arith, inl refl)
next_capacity_lem (suc rounds) n k few small h =
    let len_fits : n * 4 % u64 ≡ n * 4 = omega arith in
    let cap_fits : 2 ^ k * 3 % u64 ≡ 2 ^ k * 3 = omega arith in
    elim (Bool-cases (leb (2 ^ k * 3) (n * 4))) [
      | inr e ↦ (k, rw (len_fits, cap_fits, e) refl, ground arith, inl refl)
      | inl e ↦
          let full : 2 ^ k * 3 ≤ n * 4 = ground arith in
          let twice : 2 ^ k * 2 % u64 ≡ 2 ^ suc k = omega (arith, two-pow-succ k) in
          let (k', runs, room, least) =
            next_capacity_lem rounds n (suc k) few (omega (arith, two-pow-succ k))
              (omega (arith, two-pow-succ k, pow_pos k)) in
          let on : leb (2 ^ k * 3 % u64) (n * 4 % u64) ≡ true = rw (len_fits, cap_fits) e in
          (
            k',
            next_capacity_on (suc rounds) n (2 ^ k) on
                ∙ ap (λ c. next_capacity (suc rounds) n c) twice
                ∙ runs,
            room,
            inr (needed k' full least),
          )
    ]
  where
    needed :
        (k' : ℕ) → 2 ^ k * 3 ≤ n * 4 → ((k' ≡ suc k) ⊎ (2 ^ k' * 3 ≤ n * 8)) → 2 ^ k' * 3 ≤ n * 8
    needed k' full (inl same) = rw same (omega (arith, two-pow-succ k))
    needed k' full (inr le) = le

-- ===== src/LogParse/Aggregate/Exact.antt =====
-- applets/log_parse/log_parse.c: on integers, the aggregates are the sum, the least and the greatest.
use mathlib.Core.Path.{subst}
use mathlib.Core.List.{append_assoc, append-nil}
use ws_pipeline_dispatcher.Prelude.{
  ◌<◌, Bool, true, false, List, [], ◌∷◌, ◌++◌, ◌≡◌, ◌⊎◌, refl, sym, ap, ◌∙◌, inl, inr, arith, ◌==◌,
  if◌then◌else◌, if_ind, length, length-append, map,
}
use ws_pipeline_dispatcher.Prelude.Int.{ℤ, pos, ◌+ℤ◌, ◌≤ℤ◌, ltb_ℤ, ltb_ℤ→lt, ltb_ℤ→le}
use ws_pipeline_dispatcher.LogParse.Aggregate.{
  Doubles, Agg, no_values, add_value, add_values, IsSafe, IsExact,
}

-- The sum from a number on.
abbrev pub total_from : ℤ → List ℤ → ℤ
total_from acc [] = acc
total_from acc (z ∷ zs) = total_from (acc +ℤ z) zs

-- All numbers, and all sums on the way, are exact.
abbrev pub SafeSums : ℤ → List ℤ → Type 0
SafeSums acc [] = Unit
SafeSums acc (z ∷ zs) = IsSafe z × IsSafe (acc +ℤ z) × SafeSums (acc +ℤ z) zs

abbrev pub Has : ℤ → List ℤ → Type 0
Has m [] = ⊥
Has m (z ∷ zs) = (m ≡ z) ⊎ Has m zs

abbrev pub Between : ℤ → ℤ → List ℤ → Type 0
Between m M [] = Unit
Between m M (z ∷ zs) = (m ≤ℤ z) × (z ≤ℤ M) × Between m M zs

Has-concat : (m z : ℤ) (zs : List ℤ) → Has m zs → Has m (zs ++ z ∷ [])
Has-concat m z [] h = absurd h
Has-concat m z (y ∷ zs) (inl e) = inl e
Has-concat m z (y ∷ zs) (inr h) = inr (Has-concat m z zs h)

Has-last : (z : ℤ) (zs : List ℤ) → Has z (zs ++ z ∷ [])
Has-last z [] = inl refl
Has-last z (y ∷ zs) = inr (Has-last z zs)

-- Wider bounds, and one more number within them.
Between-concat :
    (m M m' M' z : ℤ) (zs : List ℤ)
    → Between m M zs
    → m' ≤ℤ m
    → M ≤ℤ M'
    → m' ≤ℤ z
    → z ≤ℤ M'
    → Between m' M' (zs ++ z ∷ [])
Between-concat m M m' M' z [] h a b c e = (c, e, tt)
Between-concat m M m' M' z (y ∷ zs) (l, r, h) a b c e =
    (omega arith, omega arith, Between-concat m M m' M' z zs h a b c e)

-- The smaller and the greater of two.
abbrev smaller : ℤ → ℤ → ℤ
smaller z m = if ltb_ℤ z m then z else m

abbrev greater : ℤ → ℤ → ℤ
greater z M = if ltb_ℤ M z then z else M

smaller_lem : (z m : ℤ) → (smaller z m ≤ℤ m) × (smaller z m ≤ℤ z)
smaller_lem z m =
    if_ind (λ r. (r ≤ℤ m) × (r ≤ℤ z)) (ltb_ℤ z m)
      (λ e. let lt = ltb_ℤ→lt z m e in (omega arith, omega arith))
      (λ e. let le = ltb_ℤ→le z m e in (omega arith, omega arith))

greater_lem : (z M : ℤ) → (M ≤ℤ greater z M) × (z ≤ℤ greater z M)
greater_lem z M =
    if_ind (λ r. (M ≤ℤ r) × (z ≤ℤ r)) (ltb_ℤ M z)
      (λ e. let lt = ltb_ℤ→lt M z e in (omega arith, omega arith))
      (λ e. let le = ltb_ℤ→le M z e in (omega arith, omega arith))

if_apply {ℓ} :
    {A B : Type ℓ} (f : A → B) (b : Bool) (x y : A)
    → (if b then f x else f y) ≡ f (if b then x else y)
if_apply f true x y = refl
if_apply f false x y = refl

module _ {W : Type 0} (d : Doubles W) (exact : IsExact d) where
  -- The aggregates of at least one number: the least and the greatest are numbers of the list and
  -- bound all others, and the sum and the count are right.
  pub record Aggregates (zs : List ℤ) (sum : ℤ) (agg : Agg W) : Type 0 where
    pub m : ℤ
    pub M : ℤ
    pub least : agg.least ≡ d.of_int m
    pub most : agg.most ≡ d.of_int M
    pub has_least : Has m zs
    pub has_most : Has M zs
    pub between : Between m M zs
    pub safe : IsSafe m × IsSafe M
    pub sum_is : agg.sum ≡ d.of_int sum
    pub count : agg.count ≡ length zs
    pub some_value : 0 < length zs

  add_value-Aggregates :
      (zs : List ℤ) (sum z : ℤ) (agg : Agg W)
      → Aggregates zs sum agg
      → IsSafe sum
      → IsSafe z
      → IsSafe (sum +ℤ z)
      → Aggregates (zs ++ z ∷ []) (sum +ℤ z) (add_value d agg (d.of_int z))
  unfolding add_value
  add_value-Aggregates zs sum z agg t s₁ s₂ s₃ =
      let later : (agg.count == 0) ≡ false = ground (arith, t.count, t.some_value) in
      let first_least = if agg.count == 0 then d.of_int z else agg.least in
      let first_most = if agg.count == 0 then d.of_int z else agg.most in
      let old_least : first_least ≡ d.of_int t.m =
        ap (λ b. if b then d.of_int z else agg.least) later ∙ t.least in
      let old_most : first_most ≡ d.of_int t.M =
        ap (λ b. if b then d.of_int z else agg.most) later ∙ t.most in
      let less_least : d.less (d.of_int z) first_least ≡ ltb_ℤ z t.m =
        ap (d.less (d.of_int z)) old_least ∙ exact.less z t.m s₂ t.safe.0 in
      let less_most : d.less first_most (d.of_int z) ≡ ltb_ℤ t.M z =
        ap (λ w. d.less w (d.of_int z)) old_most ∙ exact.less t.M z t.safe.1 s₂ in
      record {
        m = smaller z t.m;
        M = greater z t.M;
        least =
            ap (λ b. if b then d.of_int z else first_least) less_least
            ∙ ap (λ w. if ltb_ℤ z t.m then d.of_int z else w) old_least
            ∙ if_apply d.of_int (ltb_ℤ z t.m) z t.m;
        most =
            ap (λ b. if b then d.of_int z else first_most) less_most
            ∙ ap (λ w. if ltb_ℤ t.M z then d.of_int z else w) old_most
            ∙ if_apply d.of_int (ltb_ℤ t.M z) z t.M;
        has_least =
            if_ind (λ r. Has r (zs ++ z ∷ [])) (ltb_ℤ z t.m) (λ e. Has-last z zs)
              (λ e. Has-concat t.m z zs t.has_least);
        has_most =
            if_ind (λ r. Has r (zs ++ z ∷ [])) (ltb_ℤ t.M z) (λ e. Has-last z zs)
              (λ e. Has-concat t.M z zs t.has_most);
        between =
            Between-concat t.m t.M (smaller z t.m) (greater z t.M) z zs t.between
              (smaller_lem z t.m).0 (greater_lem z t.M).0 (smaller_lem z t.m).1
              (greater_lem z t.M).1;
        safe = (
          if_ind IsSafe (ltb_ℤ z t.m) (λ e. s₂) (λ e. t.safe.0),
          if_ind IsSafe (ltb_ℤ t.M z) (λ e. s₂) (λ e. t.safe.1),
        );
        sum_is = ap (λ w. d.plus w (d.of_int z)) t.sum_is ∙ exact.plus sum z s₁ s₂ s₃;
        count = omega (arith, t.count, length-append zs (z ∷ []));
        some_value = omega (arith, length-append zs (z ∷ []));
      }

  first-Aggregates :
      (z : ℤ)
      → IsSafe z
      → IsSafe (pos 0 +ℤ z)
      → Aggregates (z ∷ []) (pos 0 +ℤ z) (add_value d (no_values d) (d.of_int z))
  unfolding add_value
  first-Aggregates z s s' =
      let self : (b : Bool) → (if b then d.of_int z else d.of_int z) ≡ d.of_int z =
        λ b. if_ind (λ w. w ≡ d.of_int z) b (λ e. refl) (λ e. refl) in
      record {
        m = z;
        M = z;
        least = self _;
        most = self _;
        has_least = inl refl;
        has_most = inl refl;
        between = (omega arith, omega arith, tt);
        safe = (s, s);
        sum_is =
            ap (λ w. d.plus w (d.of_int z)) exact.nought ∙ exact.plus (pos 0) z (omega arith) s s';
        count = omega arith;
        some_value = omega arith;
      }

  more-Aggregates :
      (zs before : List ℤ) (sum : ℤ) (agg : Agg W)
      → Aggregates before sum agg
      → IsSafe sum
      → SafeSums sum zs
      → Aggregates (before ++ zs) (total_from sum zs) (add_values d (map d.of_int zs) agg)
  unfolding add_values
  more-Aggregates [] before sum agg t s h =
      subst (λ l. Aggregates l sum agg) (sym (append-nil before)) t
  more-Aggregates (z ∷ zs) before sum agg t s (s₁, s₂, h) =
      subst
        (λ l. Aggregates l (total_from (sum +ℤ z) zs) (add_values d (map d.of_int (z ∷ zs)) agg))
        (append_assoc before (z ∷ []) zs)
        (more-Aggregates zs (before ++ z ∷ []) (sum +ℤ z) (add_value d agg (d.of_int z))
          (add_value-Aggregates before sum z agg t s s₁ s₂) s₂ h)

  -- Over a list of integers that is not empty, where all numbers and all sums on the way are
  -- within 2^53 - 1 of 0, the least and the greatest value are numbers of the list that bound
  -- all others, and the sum and the count are exact.
  pub add_values-Aggregates :
      (z : ℤ) (zs : List ℤ)
      → SafeSums (pos 0) (z ∷ zs)
      → Aggregates
          (z ∷ zs)
          (total_from (pos 0) (z ∷ zs))
          (add_values d (map d.of_int (z ∷ zs)) (no_values d))
  unfolding add_values
  add_values-Aggregates z zs (s, s', h) =
      more-Aggregates zs (z ∷ []) (pos 0 +ℤ z) _ (first-Aggregates z s s') s' h

-- ===== src/ClipStore/Answer.antt =====
-- Calls of clip_store that may fail, for want of memory or at a read error. `stuck` stands for a
-- loop that outlives its rounds, which the proofs exclude.

pub data Answer {ℓ} (A : Type ℓ) : Type ℓ where
  ok : A → Answer A
  fails : Answer A
  stuck : Answer A

infixl 5 ◌>>=◌
abbrev pub ◌>>=◌ {ℓ κ} : {A : Type ℓ} {B : Type κ} → Answer A → (A → Answer B) → Answer B
ok a >>= f = f a
fails >>= f = fails
stuck >>= f = stuck

-- The call ends: it gives a result with the property, or it fails, which it cannot under the
-- condition `G`.
pub data Settles {ℓ κ} (G : Type 0) {A : Type ℓ} (P : A → Type κ) : Answer A → Type (ℓ ⊔ κ) where
  refused : ¬ G → Settles G P fails
  given : (a : A) → P a → Settles G P (ok a)

pub Settles-bind {ℓ κ} :
    {G : Type 0} {A : Type ℓ} {B : Type ℓ} {P : A → Type κ} {Q : B → Type κ} {m : Answer A}
    {f : A → Answer B}
    → Settles G P m
    → ((a : A) → P a → Settles G Q (f a))
    → Settles G Q (m >>= f)
Settles-bind (refused n) h = refused n
Settles-bind (given a p) h = h a p

-- A call that does not fail under a condition does not under a stronger one.
pub Settles-under {ℓ κ} :
    {G H : Type 0} {A : Type ℓ} {P : A → Type κ} {m : Answer A}
    → (H → G)
    → Settles G P m
    → Settles H P m
Settles-under k (refused n) = refused (λ h. n (k h))
Settles-under k (given a p) = given a p

pub Settles-map {ℓ κ μ} :
    {G : Type 0} {A : Type ℓ} {P : A → Type κ} {Q : A → Type μ} {m : Answer A}
    → ((a : A) → P a → Q a)
    → Settles G P m
    → Settles G Q m
Settles-map k (refused n) = refused n
Settles-map k (given a p) = given a (k a p)

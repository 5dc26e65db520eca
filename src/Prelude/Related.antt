-- ===== src/Prelude/Related.antt =====
-- Two chains of fallible steps that fail together, with related results.
use mathlib.Core.Path.{◌≡◌, refl, subst}
use mathlib.Core.Bool.{Bool, true, false}
use mathlib.Core.Option.{Option, none, some}
use hdiff_patch.Prelude.Tests.{◌>>=◌, ◌>>◌, check}

abbrev pub Related {ℓ κ} :
    {A : Type ℓ} {B : Type κ} → (A → B → Type 0) → Option A → Option B → Type 0
Related R none none = Unit
Related R (some a) (some b) = R a b
Related R none (some b) = ⊥
Related R (some a) none = ⊥

pub Related->>= {ℓ κ ℓ' κ'} :
    {A : Type ℓ} {B : Type κ} (R : A → B → Type 0) {A' : Type ℓ'} {B' : Type κ'}
    (R' : A' → B' → Type 0) (m : Option A) (n : Option B) (f : A → Option A') (g : B → Option B')
    → Related R m n
    → ((a : A) (b : B) → R a b → Related R' (f a) (g b))
    → Related R' (m >>= f) (n >>= g)
Related->>= R R' none none f g h k = tt
Related->>= R R' (some a) (some b) f g h k = k a b h
Related->>= R R' none (some b) f g h k = absurd h
Related->>= R R' (some a) none f g h k = absurd h

pub Related-check {ℓ κ} :
    {A : Type ℓ} {B : Type κ} (R : A → B → Type 0) (b : Bool) (m : Option A) (n : Option B)
    → (b ≡ true → Related R m n)
    → Related R (check b >> m) (check b >> n)
Related-check R true m n h = h refl
Related-check R false m n h = tt

-- Changing the results on the right.
pub Related-right {ℓ κ κ'} :
    {A : Type ℓ} {B : Type κ} (R : A → B → Type 0) {B' : Type κ'} (R' : A → B' → Type 0)
    (m : Option A) (n : Option B) (g : B → Option B')
    → Related R m n
    → ((a : A) (b : B) → R a b → Related R' (some a) (g b))
    → Related R' m (n >>= g)
Related-right R R' none none g h k = tt
Related-right R R' (some a) (some b) g h k = k a b h
Related-right R R' none (some b) g h k = absurd h
Related-right R R' (some a) none g h k = absurd h

pub Related-some {ℓ κ} :
    {A : Type ℓ} {B : Type κ} (R : A → B → Type 0) (m : Option A) (n : Option B) (b : B)
    → Related R m n
    → n ≡ some b
    → (a : A) × (m ≡ some a) × R a b
Related-some R (some a) (some b') b h e = (a, refl, subst (λ x. R a x) (cc) h)
Related-some R none (some b') b h e = absurd h
Related-some R m none b h e = cc

pub Related-none {ℓ κ} :
    {A : Type ℓ} {B : Type κ} (R : A → B → Type 0) (m : Option A) (n : Option B)
    → Related R m n
    → n ≡ none
    → m ≡ none
Related-none R none n h e = refl
Related-none R (some a) none h e = absurd h
Related-none R (some a) (some b) h e = cc

-- ===== src/Base/Errors.antt =====
-- A computation that may raise, for any type of exceptions.
use mathlib.Core.Path.{◌≡◌, refl, subst}
use mathlib.Core.Bool.{Bool, true, false}
use curator_skill_registry.Base.Tests.{if◌then◌else◌}

pub data Outcome {ℓ κ} (E : Type κ) (A : Type ℓ) : Type (ℓ ⊔ κ) where
  ok : A → Outcome E A
  err : E → Outcome E A

infixl 5 ◌>>=◌ ◌>>◌
abbrev pub ◌>>=◌ {ℓ ι κ} :
    {E : Type κ} {A : Type ℓ} {B : Type ι} → Outcome E A → (A → Outcome E B) → Outcome E B
ok a >>= f = f a
err e >>= f = err e

abbrev pub ◌>>◌ {ι κ} : {E : Type κ} {B : Type ι} → Outcome E (Unit {0}) → Outcome E B → Outcome E B
m >> k = m >>= λ _. k

-- `if not test: raise e`
abbrev pub ensure {κ} : {E : Type κ} → Bool → E → Outcome E (Unit {0})
ensure true e = ok tt
ensure false e = err e

pub ok-injective {ℓ κ} :
    {E : Type κ} {A : Type ℓ} {a b : A} → ◌≡◌ {A = Outcome E A} (ok a) (ok b) → a ≡ b
ok-injective h = cc

pub bind-eq-ok {ℓ ι κ} :
    {E : Type κ} {A : Type ℓ} {B : Type ι} (m : Outcome E A) (f : A → Outcome E B) {b : B}
    → (m >>= f) ≡ ok b
    → (a : A) × (m ≡ ok a) × (f a ≡ ok b)
bind-eq-ok (ok a) f h = (a, refl, h)
bind-eq-ok (err e) f h = cc

pub ensure-eq-ok {κ} : {E : Type κ} (b : Bool) (e : E) → ensure b e ≡ ok tt → b ≡ true
ensure-eq-ok true e h = refl
ensure-eq-ok false e h = cc

pub ensure-true {κ} : {E : Type κ} (b : Bool) (e : E) → b ≡ true → ensure b e ≡ ok tt
ensure-true true e h = refl
ensure-true false e h = cc

pub then-eq-ok {ι κ} :
    {E : Type κ} {B : Type ι} (m : Outcome E (Unit {0})) (k : Outcome E B) {b : B}
    → (m >> k) ≡ ok b
    → (m ≡ ok tt) × (k ≡ ok b)
then-eq-ok (ok tt) k h = (refl, h)
then-eq-ok (err e) k h = cc

pub then-ok {ι κ} :
    {E : Type κ} {B : Type ι} (m : Outcome E (Unit {0})) (k : Outcome E B) {b : B}
    → m ≡ ok tt
    → k ≡ ok b
    → (m >> k) ≡ ok b
then-ok (ok tt) k h h' = h'
then-ok (err e) k h h' = cc

-- What holds of every result: the rules for the parts of a `do` block.
pub record Ensures {ℓ ι κ} {E : Type κ} {A : Type ℓ} (P : A → Type ι) (o : Outcome E A)
    : Type (ℓ ⊔ ι ⊔ κ) where
  pub at : (a : A) → o ≡ ok a → P a

module _ {ℓ κ ι} {E : Type κ} {A B : Type ℓ} {P : B → Type ι} where
  pub Ensures-bind :
      (m : Outcome E A) (f : A → Outcome E B)
      → ((a : A) → m ≡ ok a → Ensures P (f a))
      → Ensures P (m >>= f)
  Ensures-bind (ok a) f h = h a refl
  Ensures-bind (err e) f h = record { at = λ b k. cc }

module _ {ℓ κ ι} {E : Type κ} {B : Type ℓ} {P : B → Type ι} where
  pub Ensures-then :
      (m : Outcome E (Unit {0})) (k : Outcome E B) → (m ≡ ok tt → Ensures P k) → Ensures P (m >> k)
  Ensures-then (ok tt) k h = h refl
  Ensures-then (err e) k h = record { at = λ b q. cc }

  pub Ensures-ok : (b : B) → P b → Ensures {E = E} P (ok b)
  Ensures-ok b h = record { at = λ a k. subst P (ok-injective k) h }

  pub Ensures-err : (e : E) → Ensures {A = B} P (err e)
  Ensures-err e = record { at = λ a k. cc }

pub Ensures-if {ℓ κ ι} :
    {E : Type κ} {A : Type ℓ} {P : A → Type ι} (b : Bool) {m n : Outcome E A}
    → (b ≡ true → Ensures P m)
    → (b ≡ false → Ensures P n)
    → Ensures P (if b then m else n)
Ensures-if true h h' = h refl
Ensures-if false h h' = h' refl

pub Ensures-weaken {ℓ κ ι ν} :
    {E : Type κ} {A : Type ℓ} {P : A → Type ι} {Q : A → Type ν} {m : Outcome E A}
    → Ensures P m
    → ((a : A) → P a → Q a)
    → Ensures Q m
Ensures-weaken h f = record { at = λ a k. f a (h.at a k) }

pub ruleset ensures_rules = (Ensures-bind, Ensures-then, Ensures-ok, Ensures-err)

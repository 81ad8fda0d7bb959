-- ===== src/Prelude/Results.antt =====
-- Fallible operations: an exception is a value of `E`.
use mathlib.Core.Path.{◌≡◌, refl}
use mathlib.Core.Bool.{Bool, true, false}
use k8s_stack_tooling.Prelude.Tests.{if◌then◌else◌}

pub data Result {ℓ κ} (E : Type ℓ) (A : Type κ) : Type (ℓ ⊔ κ) where
  ok : A → Result E A
  err : E → Result E A

infixl 5 ◌>>=◌
abbrev pub ◌>>=◌ {ℓ κ μ} :
    {E : Type ℓ} {A : Type κ} {B : Type μ} → Result E A → (A → Result E B) → Result E B
ok a >>= f = f a
err e >>= f = err e

abbrev pub is_ok {ℓ κ} : {E : Type ℓ} {A : Type κ} → Result E A → Bool
is_ok (ok a) = true
is_ok (err e) = false

-- Inversion of a bind that succeeded.
pub >>=-eq_ok {ℓ κ μ} :
    {E : Type ℓ} {A : Type κ} {B : Type μ} (m : Result E A) (f : A → Result E B) {b : B}
    → (m >>= f) ≡ ok b
    → (a : A) × (m ≡ ok a) × (f a ≡ ok b)
>>=-eq_ok (ok a) f h = (a, refl, h)
>>=-eq_ok (err e) f h = cc

pub ok_injective {ℓ κ} :
    {E : Type ℓ} {A : Type κ} {a b : A} → ◌≡◌ {A = Result E A} (ok a) (ok b) → a ≡ b
ok_injective h = cc h

-- Inversion of a guard that has not raised.
pub guard-eq_ok {ℓ κ} :
    {E : Type ℓ} {A : Type κ} (b : Bool) (e : E) (r : Result E A) {a : A}
    → ◌≡◌ {A = Result E A} (if b then err e else r) (ok a)
    → (b ≡ false) × (r ≡ ok a)
guard-eq_ok true e r h = cc
guard-eq_ok false e r h = (refl, h)

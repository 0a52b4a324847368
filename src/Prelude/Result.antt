-- ===== src/Prelude/Result.antt =====
-- Results of code that throws: a value, or what was thrown.
use ventus_gpgpu_sbt_simulat.Prelude.{◌≡◌, refl}

pub data Result {ℓ κ} (E : Type ℓ) (A : Type κ) : Type (ℓ ⊔ κ) where
  ok : A → Result E A
  err : E → Result E A

infixl 5 ◌>>=◌
abbrev pub ◌>>=◌ {ℓ κ μ} :
    {E : Type ℓ} {A : Type κ} {B : Type μ} → Result E A → (A → Result E B) → Result E B
ok a >>= f = f a
err e >>= f = err e

-- Inversion of a successful bind, for proofs where the parts stay shut.
pub >>=-eq-ok {ℓ κ μ} :
    {E : Type ℓ} {A : Type κ} {B : Type μ} {v : B} (r : Result E A) (k : A → Result E B)
    → r >>= k ≡ ok v
    → (u : A) × (r ≡ ok u) × (k u ≡ ok v)
>>=-eq-ok (err e) k thrown = cc
>>=-eq-ok (ok u) k returned = (u, refl, returned)

-- ===== src/Prelude/Result.antt =====
-- The result of code that returns a value or an error.
use mathlib.Core.Path.{◌≡◌, refl}
use mathlib.Core.Logic.{◌⊎◌, inl, inr}
use mathlib.Core.Bool.{Bool, true, false}

pub data Result {ℓ} (E A : Type ℓ) : Type ℓ where
  ok : A → Result E A
  err : E → Result E A

infixl 5 ◌>>=◌ ◌>>◌
abbrev pub ◌>>=◌ {ℓ} : {E A B : Type ℓ} → Result E A → (A → Result E B) → Result E B
ok a >>= f = f a
err e >>= f = err e

abbrev pub ◌>>◌ {ℓ} : {E A B : Type ℓ} → Result E A → Result E B → Result E B
m >> k = m >>= λ _. k

-- `if failed { return err }`
abbrev pub refuse_if : {E : Type 0} → Bool → E → Result E (Unit {0})
refuse_if true e = err e
refuse_if false e = ok tt

-- A chain that succeeds has a first step that succeeds.
pub >>=-eq_ok {ℓ} :
    {E A B : Type ℓ} (m : Result E A) (f : A → Result E B) {b : B}
    → (m >>= f) ≡ ok b
    → (a : A) × (m ≡ ok a) × (f a ≡ ok b)
>>=-eq_ok (ok a) f h = (a, refl, h)
>>=-eq_ok (err e) f h = cc

pub refuse_if-eq_ok : {E : Type 0} (b : Bool) (e : E) → refuse_if b e ≡ ok tt → b ≡ false
refuse_if-eq_ok true e h = cc
refuse_if-eq_ok false e h = refl

pub ok-injective {ℓ} :
    {E A : Type ℓ} {a b : A} → let left : Result E A = ok a in left ≡ ok b → a ≡ b
ok-injective h = cc

pub Result-cases :
    {E A : Type 0} (r : Result E A) → ((a : A) × (r ≡ ok a)) ⊎ ((e : E) × (r ≡ err e))
Result-cases (ok a) = inl (a, refl)
Result-cases (err e) = inr (e, refl)

-- P of the value, where there is one.
pub data Ensures {E A : Type 0} (P : A → Type 0) : Result E A → Type 0 where
  of_ok : {a : A} → P a → Ensures P (ok a)
  of_err : {e : E} → Ensures P (err e)

pub >>=-Ensures :
    {E A B : Type 0} {P : B → Type 0} (m : Result E A) (f : A → Result E B)
    → ((a : A) → m ≡ ok a → Ensures P (f a))
    → Ensures P (m >>= f)
>>=-Ensures (ok a) f h = h a refl
>>=-Ensures (err e) f h = of_err

pub >>-Ensures :
    {E A B : Type 0} {P : B → Type 0} (m : Result E A) (k : Result E B)
    → ((a : A) → m ≡ ok a → Ensures P k)
    → Ensures P (m >> k)
>>-Ensures (ok a) k h = h a refl
>>-Ensures (err e) k h = of_err

pub Ensures_ok :
    {E A : Type 0} (P : A → Type 0) {m : Result E A} {a : A} → Ensures P m → m ≡ ok a → P a
Ensures_ok P (of_ok {a = b} p) e = rw⁻¹ (ok-injective e) p
Ensures_ok P of_err e = cc

pub ruleset ensures = (>>-Ensures, >>=-Ensures, of_ok)

-- ===== src/Base/Result.antt =====
-- Go's pair of a value and an error: a call gives a value or the error that it returns.
use mathlib.Core.Bool.{Bool, true, false}
use urbino.Base.Tests.{if◌then◌else◌}
use mathlib.Core.Path.{◌≡◌, refl}
use mathlib.Core.Option.{Option, none, some}
use mathlib.Core.Logic.{◌⊎◌, inl, inr}

pub data Result {ℓ κ} (E : Type ℓ) (A : Type κ) : Type (ℓ ⊔ κ) where
  ok : A → Result E A
  err : E → Result E A

infixl 5 ◌>>=◌ ◌>>◌
abbrev pub ◌>>=◌ {ℓ κ μ} :
    {E : Type ℓ} {A : Type κ} {B : Type μ} → Result E A → (A → Result E B) → Result E B
ok a >>= f = f a
err e >>= f = err e

abbrev pub ◌>>◌ {ℓ κ} : {E : Type ℓ} {B : Type κ} → Result E (Unit {0}) → Result E B → Result E B
m >> k = m >>= λ _. k

-- The value that is there, or an error.
abbrev pub of_option {ℓ κ} : {E : Type ℓ} {A : Type κ} → E → Option A → Result E A
of_option e none = err e
of_option e (some a) = ok a

-- To split on the result of a call and keep the equation.
pub Result-cases {ℓ κ} :
    {E : Type ℓ} {A : Type κ} (r : Result E A) → ((a : A) × (r ≡ ok a)) ⊎ ((e : E) × (r ≡ err e))
Result-cases (ok a) = inl (a, refl)
Result-cases (err e) = inr (e, refl)

-- Both parts of a sequence without values succeed if it does.
pub >>-ok {ℓ} :
    {E : Type ℓ} (m k : Result E (Unit {0})) → (m >> k) ≡ ok tt → (m ≡ ok tt) × (k ≡ ok tt)
>>-ok (ok t) k h = (refl, h)
>>-ok (err e) k h = cc

-- The value of a step of a chain that succeeds.
pub >>=-ok {ℓ κ μ} :
    {E : Type ℓ} {A : Type κ} {B : Type μ} (m : Result E A) (f : A → Result E B) {b : B}
    → (m >>= f) ≡ ok b
    → (a : A) × (m ≡ ok a) × (f a ≡ ok b)
>>=-ok (ok a) f h = (a, refl, h)
>>=-ok (err e) f h = cc

-- A guard that a success has passed.
pub guard-ok {ℓ κ} :
    {E : Type ℓ} {A : Type κ} (c : Bool) (e : E) (r : Result E A) {a : A}
    → (if c then err e else r) ≡ ok a
    → (c ≡ false) × (r ≡ ok a)
guard-ok true e r h = cc
guard-ok false e r h = (refl, h)

pub of_option-ok {ℓ κ} :
    {E : Type ℓ} {A : Type κ} (e : E) (o : Option A) {a : A} → of_option e o ≡ ok a → o ≡ some a
of_option-ok e none h = cc
of_option-ok e (some b) h = cc

pub ok-injective {ℓ κ} :
    {E : Type ℓ} {A : Type κ} {a b : A} → Path (Result E A) (ok a) (ok b) → a ≡ b
ok-injective h = cc

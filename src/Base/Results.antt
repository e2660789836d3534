-- ===== src/Base/Results.antt =====
-- Go's `(value, error)` pair: a value or an error of a type that the module chooses.
use mathlib.Core.Path.{◌≡◌, refl}
use mathlib.Core.Bool.{Bool, true, false, not}
use gosh.Base.Tests.{if◌then◌else◌}
use mathlib.Core.Logic.{◌⊎◌, inl, inr}

pub data Result {ℓ κ} (E : Type κ) (A : Type ℓ) : Type (ℓ ⊔ κ) where
  ok : A → Result E A
  err : E → Result E A

infixl 5 ◌>>=◌ ◌>>◌
abbrev pub ◌>>=◌ {ℓ κ μ} :
    {E : Type μ} {A : Type ℓ} {B : Type κ} → Result E A → (A → Result E B) → Result E B
ok a >>= f = f a
err e >>= f = err e

abbrev pub ◌>>◌ {ℓ μ} : {E : Type μ} {B : Type ℓ} → Result E (Unit {0}) → Result E B → Result E B
m >> k = m >>= λ _. k

pub >>=-eq-ok {ℓ κ μ} :
    {E : Type μ} {A : Type ℓ} {B : Type κ} (r : Result E A) (next : A → Result E B) {value : B}
    → (r >>= next) ≡ ok value
    → (first : A) × (r ≡ ok first) × (next first ≡ ok value)
>>=-eq-ok (ok first) next e = (first, refl, e)
>>=-eq-ok (err x) next e = cc

pub Result-cases {ℓ μ} :
    {E : Type μ} {A : Type ℓ} (r : Result E A) → ((a : A) × (r ≡ ok a)) ⊎ ((e : E) × (r ≡ err e))
Result-cases (ok a) = inl (a, refl)
Result-cases (err e) = inr (e, refl)

-- Two binds agree where their first steps and what follows a success agree.
pub >>=-cong {ℓ κ μ} :
    {E : Type μ} {A : Type ℓ} {B : Type κ} (m : Result E A) (f g : A → Result E B)
    → ((a : A) → m ≡ ok a → f a ≡ g a)
    → (m >>= f) ≡ (m >>= g)
>>=-cong (ok a) f g h = h a refl
>>=-cong (err e) f g h = refl

pub >>=-eq-err {ℓ κ μ} :
    {E : Type μ} {A : Type ℓ} {B : Type κ} (m : Result E A) (f : A → Result E B) {e : E}
    → (m >>= f) ≡ err e
    → (m ≡ err e) ⊎ ((a : A) × (m ≡ ok a) × (f a ≡ err e))
>>=-eq-err (ok a) f h = inr (a, refl, h)
>>=-eq-err (err e) f h = inl cc

pub >>=-ok {ℓ μ} : {E : Type μ} {A : Type ℓ} (m : Result E A) → (m >>= ok) ≡ m
>>=-ok (ok a) = refl
>>=-ok (err e) = refl

pub ok_inj {ℓ μ} : {E : Type μ} {A : Type ℓ} {a b : A} → Path (Result E A) (ok a) (ok b) → a ≡ b
ok_inj e = cc

-- A result behind a test that refuses.
pub passed {ℓ μ} :
    {E : Type μ} {A : Type ℓ} {a : A} (e : E) {r : Result E A} (t : Bool)
    → (if not t then err e else r) ≡ ok a
    → (t ≡ true) × (r ≡ ok a)
passed e true h = (refl, h)
passed e false h = absurd cc

pub not_short {ℓ μ} :
    {E : Type μ} {A : Type ℓ} {a : A} (e : E) {r : Result E A} (t : Bool)
    → (if t then err e else r) ≡ ok a
    → (t ≡ false) × (r ≡ ok a)
not_short e false h = (refl, h)
not_short e true h = absurd cc

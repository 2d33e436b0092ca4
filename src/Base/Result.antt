-- ===== src/Base/Result.antt =====
-- A value or an error: what a Go function that returns `(T, error)` gives its caller.
use mathlib.Core.Path.{◌≡◌, refl}
use mathlib.Core.Logic.{◌⊎◌, inl, inr}

pub data Result {ℓ κ} (E : Type ℓ) (A : Type κ) : Type (ℓ ⊔ κ) where
  err : E → Result E A
  ok : A → Result E A

infixl 5 ◌>>=◌
abbrev pub ◌>>=◌ {ℓ κ ι} :
    {E : Type ℓ} {A : Type κ} {B : Type ι} → Result E A → (A → Result E B) → Result E B
err failure >>= next = err failure
ok value >>= next = next value

pub Result-cases :
    {E A : Type 0} (r : Result E A) → ((x : A) × (r ≡ ok x)) ⊎ ((f : E) × (r ≡ err f))
Result-cases (ok x) = inl (x, refl)
Result-cases (err f) = inr (f, refl)

-- A call that is followed by another one and succeeds with it has succeeded itself.
pub >>=-eq-ok {ℓ κ ι} :
    {E : Type ℓ} {A : Type κ} {B : Type ι} (first : Result E A) (next : A → Result E B) {y : B}
    → (first >>= next) ≡ ok y
    → (x : A) × (first ≡ ok x) × (next x ≡ ok y)
>>=-eq-ok (err failure) next q = cc
>>=-eq-ok (ok value) next q = (value, refl, q)

pub ok_inj : {E A : Type 0} {x y : A} → ◌≡◌ {A = Result E A} (ok x) (ok y) → x ≡ y
ok_inj q = cc

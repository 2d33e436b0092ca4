-- ===== src/Base/Optional.antt =====
-- Optional values as the results of computations that may not return.
use mathlib.Core.Path.{◌≡◌, refl}
use mathlib.Core.Bool.{Bool, true, false}
use mathlib.Core.Option.{Option, none, some}

infixl 5 ◌>>=◌
abbrev pub ◌>>=◌ {ℓ κ} : {A : Type ℓ} {B : Type κ} → Option A → (A → Option B) → Option B
none >>= next = none
some a >>= next = next a

abbrev pub returns {ℓ} : {A : Type ℓ} → Option A → Bool
returns none = false
returns (some a) = true

-- A value that the computation which returned gave.
pub returns-value {ℓ} : {A : Type ℓ} (o : Option A) → returns o ≡ true → (a : A) × (o ≡ some a)
returns-value none h = cc
returns-value (some a) h = (a, refl)

pub >>=-eq-some {ℓ κ} :
    {A : Type ℓ} {B : Type κ} (first : Option A) (next : A → Option B) {b : B}
    → (first >>= next) ≡ some b
    → (a : A) × (first ≡ some a) × (next a ≡ some b)
>>=-eq-some none next q = cc
>>=-eq-some (some a) next q = (a, refl, q)

-- What the value satisfies, if there is one.
abbrev pub OnValue {ℓ} : {A : Type ℓ} → (A → Type 0) → Option A → Type 0
OnValue P none = Unit
OnValue P (some a) = P a

pub OnValue-bind {ℓ κ} :
    {A : Type ℓ} {B : Type κ} (P : A → Type 0) (Q : B → Type 0) (first : Option A)
    (next : A → Option B)
    → OnValue P first
    → ((a : A) → P a → OnValue Q (next a))
    → OnValue Q (first >>= next)
OnValue-bind P Q none next h k = tt
OnValue-bind P Q (some a) next h k = k a h

pub returns-bind {ℓ κ} :
    {A : Type ℓ} {B : Type κ} (first : Option A) (next : A → Option B)
    → returns first ≡ true
    → ((a : A) → returns (next a) ≡ true)
    → returns (first >>= next) ≡ true
returns-bind none next h k = h
returns-bind (some a) next h k = k a

pub OnValue-Unit {ℓ} : {A : Type ℓ} (o : Option A) → OnValue (λ a. Unit) o
OnValue-Unit none = tt
OnValue-Unit (some a) = tt

pub OnValue-weaken {ℓ} :
    {A : Type ℓ} (P Q : A → Type 0) (o : Option A)
    → OnValue P o
    → ((a : A) → P a → Q a)
    → OnValue Q o
OnValue-weaken P Q none h f = tt
OnValue-weaken P Q (some a) h f = f a h

pub OnValue-both {ℓ} :
    {A : Type ℓ} (P Q : A → Type 0) (o : Option A)
    → OnValue P o
    → OnValue Q o
    → OnValue (λ a. P a × Q a) o
OnValue-both P Q none h k = tt
OnValue-both P Q (some a) h k = (h, k)

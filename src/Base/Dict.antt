-- ===== src/Base/Dict.antt =====
-- A Go map with string keys, as an association list whose keys are all different.
use mathlib.Core.Path.{◌≡◌, refl}
use mathlib.Core.Option.{Option, none, some}
use mathlib.Core.List.{List, [], ◌∷◌}
use native.Mathlib.Omega.{arith}
use elgon.Base.Tests.{if◌then◌else◌}
use elgon.Base.Text.{Str, str_eq, str_eq_iff, str_eq_refl}

module _ {ℓ} {V : Type ℓ} where
  -- `m[key]`
  unfoldable pub lookup : Str → List (Str × V) → Option V
  lookup key [] = none
  lookup key ((k, v) ∷ m) = if str_eq k key then some v else lookup key m

  -- `m[key] = v`
  unfoldable pub insert : Str → V → List (Str × V) → List (Str × V)
  insert key v [] = (key, v) ∷ []
  insert key v ((k, w) ∷ m) = if str_eq k key then (key, v) ∷ m else (k, w) ∷ insert key v m

  pub lookup-insert :
      (key j : Str) (v : V) (m : List (Str × V))
      → lookup j (insert key v m) ≡ (if str_eq key j then some v else lookup j m)
  unfolding lookup insert
  lookup-insert key j v [] = refl
  lookup-insert key j v ((k, w) ∷ m) =
      ground (arith, str_eq_iff k key, str_eq_iff k j, str_eq_iff key j, lookup-insert key j v m)

  pub lookup-insert_self :
      (key : Str) (v : V) (m : List (Str × V)) → lookup key (insert key v m) ≡ some v
  lookup-insert_self key v m = simp (lookup-insert, str_eq_refl)

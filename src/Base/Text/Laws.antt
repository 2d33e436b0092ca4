-- ===== src/Base/Text/Laws.antt =====
-- Trimming a text on both sides, and which texts a trim leaves alone.
use Prim.Native.Nat.{ℕ}
use mathlib.Core.Path.{◌≡◌, ◌∙◌, ap}
use mathlib.Core.Logic.{inl, inr}
use mathlib.Core.Bool.{Bool, true}
use mathlib.Core.List.{[], ◌∷◌, ◌++◌, reverse, reverse-append}
use elgon.Base.Tests.{Bool-cases}
use elgon.Base.Text.{Str, trim_left, trim_right, trim}

module _ (p : ℕ → Bool) where
  -- What is dropped in front is dropped whatever follows it.
  pub trim_left-cons : (c : ℕ) (s : Str) → p c ≡ true → trim_left p (c ∷ s) ≡ trim_left p s
  unfolding trim_left
  trim_left-cons c s h = rw h

  pub trim_right-append :
      (s : Str) (c : ℕ) → p c ≡ true → trim_right p (s ++ c ∷ []) ≡ trim_right p s
  unfolding trim_right
  trim_right-append s c h =
      ap (λ t. reverse (trim_left p t)) (reverse-append s (c ∷ []))
      ∙ ap reverse (trim_left-cons c (reverse s) h)

  trim_left-append :
      (s : Str) (c : ℕ)
      → p c ≡ true
      → trim_right p (trim_left p (s ++ c ∷ [])) ≡ trim_right p (trim_left p s)
  unfolding trim_left
  trim_left-append [] c h = rw h
  trim_left-append (d ∷ s) c h = elim (Bool-cases (p d)) [
    | inl e ↦ rw e (trim_left-append s c h)
    | inr e ↦ rw e (trim_right-append (d ∷ s) c h)
  ]

  -- A code point that is trimmed changes nothing at either end.
  pub trim-cons : (c : ℕ) (s : Str) → p c ≡ true → trim p (c ∷ s) ≡ trim p s
  unfolding trim
  trim-cons c s h = ap (trim_right p) (trim_left-cons c s h)

  pub trim-append : (s : Str) (c : ℕ) → p c ≡ true → trim p (s ++ c ∷ []) ≡ trim p s
  unfolding trim
  trim-append s c h = trim_left-append s c h

-- ===== src/Config/Numbers.antt =====
-- The numbers that the environment gives.
use native.Mathlib.Nat.{two-pow-succ, mod-eq_of_lt}
use elgon.Base.{ℕ, suc, ◌+◌, ◌-◌, ◌^◌, ◌<◌, ◌≡◌, refl, ap, ◌∙◌, true, Option, some, arith, ltb}
use elgon.Base.Int.{ℤ, pos, two_63}
use elgon.Base.Text.{Str, decimal}
use elgon.Base.Text.Numbers.{atoi-decimal}
use elgon.Config.{int, signed, of_bits, wrap_int, set_value, as_signed}

wrap_int-fits : (bits n : ℕ) → n < 2 ^ bits → wrap_int (suc bits) (pos n) ≡ pos n
wrap_int-fits bits n fits =
    let double : 2 ^ suc bits ≡ 2 ^ bits + 2 ^ bits = two-pow-succ bits in
    let less : n < 2 ^ suc bits = omega (arith, fits, double) in
    let half : suc bits - 1 ≡ bits = omega arith in
    let below : ltb n (2 ^ bits) ≡ true = ground (arith, fits) in
    ap (of_bits (suc bits)) (mod-eq_of_lt less) ∙ rw (half, below) refl

module _ {F : Type 0} (parse_float : Str → Option F) (parse_duration : Str → Option ℤ) where
  -- A number that the environment gives in decimal digits for a field of signed integers is stored as
  -- it is, if it is below half of the range of the field's bits and of 64 bits.
  pub set_value-decimal :
      (bits n : ℕ)
      → n < 2 ^ bits
      → n < two_63
      → set_value parse_float parse_duration (int (suc bits)) (decimal n) ≡ some (signed (pos n))
  unfolding set_value
  set_value-decimal bits n fits small =
      ap (as_signed parse_float parse_duration (suc bits)) (atoi-decimal n small)
      ∙ ap (λ v. some (signed v)) (wrap_int-fits bits n fits)

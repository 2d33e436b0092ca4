-- ===== src/Base/Text/Numbers.antt =====
-- Reading a number that was printed.
use elgon.Base.{
  ℕ, ◌+◌, ◌-◌, ◌*◌, ◌<◌, ◌≡◌, ◌≢◌, refl, true, false, some, [], ◌∷◌, All, arith, ltb, ◌==◌,
}
use elgon.Base.Int.{pos, two_63}
use elgon.Base.Text.{Str, decimal, is_decimal}
use elgon.Base.Text.Atoi.{atoi, digits_from}
use elgon.Base.Text.Decimal.{value_from, value_from-decimal, decimal-digits, decimal-ne-nil}

digits_from-decimals :
    (n : ℕ) (s : Str) → All (λ c. is_decimal c ≡ true) s → digits_from n s ≡ some (value_from n s)
unfolding digits_from value_from
digits_from-decimals n [] h = refl
digits_from-decimals n (c ∷ s) h = rw (h.0, digits_from-decimals (n * 10 + (c - 48)) s h.1) refl

atoi-digits :
    (s : Str) (n : ℕ)
    → All (λ c. is_decimal c ≡ true) s
    → value_from 0 s ≡ n
    → s ≢ []
    → n < two_63
    → atoi s ≡ some (pos n)
unfolding atoi
atoi-digits [] n h v ne small = absurd (ne refl)
atoi-digits (c ∷ s) n h v ne small =
    let no_minus : (c == b'-') ≡ false = unfold is_decimal in ground (arith, h.0) in
    let no_plus : (c == b'+') ≡ false = unfold is_decimal in ground (arith, h.0) in
    let fits : ltb n two_63 ≡ true = ground arith in
    rw (no_minus, no_plus, digits_from-decimals 0 (c ∷ s) h, v, fits) refl

pub atoi-decimal : (n : ℕ) → n < two_63 → atoi (decimal n) ≡ some (pos n)
atoi-decimal n small =
    atoi-digits (decimal n) n (decimal-digits n) (value_from-decimal n) (decimal-ne-nil n) small

-- ===== src/Base/Text/Decimal.antt =====
-- Printing a number has fuel enough: reading the digits gives the number.
use elgon.Base.{
  ℕ, zero, suc, ◌+◌, ◌-◌, ◌*◌, ◌/◌, ◌%◌, ◌<◌, ◌≡◌, ◌≢◌, ap, ◌∙◌, true, All, [], ◌∷◌, arith, ltb,
  inl, inr, Bool-cases,
}
use elgon.Base.Text.{Str, digits, decimal, is_decimal}

-- The number whose digits follow those of `n`.
unfoldable pub value_from : ℕ → Str → ℕ
value_from n [] = n
value_from n (c ∷ s) = value_from (n * 10 + (c - 48)) s

value_from-digits :
    (fuel n : ℕ) (out : Str) → n < fuel → value_from 0 (digits fuel n out) ≡ value_from n out
unfolding value_from digits
value_from-digits zero n out h = omega (arith, h)
value_from-digits (suc fuel) n out h = elim (Bool-cases (ltb n 10)) [
  | inl short ↦
      let small : n < 10 = ground arith in
      rw short (ap (λ k. value_from k out) (omega (arith, small)))
  | inr long ↦
      let less : n / 10 < fuel = ground (arith, h) in
      rw long (
        value_from-digits fuel (n / 10) ((b'0' + n % 10) ∷ out) less
        ∙ ap (λ k. value_from k out) (omega arith))
]

-- Reading the digits that are printed for a number gives the number.
pub value_from-decimal : (n : ℕ) → value_from 0 (decimal n) ≡ n
unfolding decimal value_from
value_from-decimal n = value_from-digits (suc n) n [] (omega arith)

digits-decimal :
    (fuel n : ℕ) (out : Str)
    → All (λ c. is_decimal c ≡ true) out
    → All (λ c. is_decimal c ≡ true) (digits fuel n out)
unfolding digits is_decimal
digits-decimal zero n out h = h
digits-decimal (suc fuel) n out h =
    let digit : is_decimal (b'0' + n % 10) ≡ true = ground arith in
    elim (Bool-cases (ltb n 10)) [
      | inl short ↦ rw short (digit, h)
      | inr long ↦ rw long (digits-decimal fuel (n / 10) _ (digit, h))
    ]

-- What is printed for a number are digits.
pub decimal-digits : (n : ℕ) → All (λ c. is_decimal c ≡ true) (decimal n)
unfolding decimal
decimal-digits n = digits-decimal (suc n) n [] tt

digits-ne-nil : (fuel n : ℕ) (out : Str) → out ≢ [] → digits fuel n out ≢ []
unfolding digits
digits-ne-nil zero n out h = h
digits-ne-nil (suc fuel) n out h = elim (Bool-cases (ltb n 10)) [
  | inl short ↦ rw short (λ q. cc)
  | inr long ↦ rw long (digits-ne-nil fuel (n / 10) _ (λ q. cc))
]

pub decimal-ne-nil : (n : ℕ) → decimal n ≢ []
unfolding decimal digits
decimal-ne-nil n = elim (Bool-cases (ltb n 10)) [
  | inl short ↦ rw short (λ q. cc)
  | inr long ↦ rw long (digits-ne-nil n (n / 10) _ (λ q. cc))
]

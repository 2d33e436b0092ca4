-- ===== src/Migrate/Models/Tables.antt =====
-- The two copies of `toSnakeCase`, in orm/schema.go and migrate/generate.go.
use elgon.Base.{ℕ, ◌+◌, ◌<◌, ◌≡◌, refl, true, some, [], ◌∷◌, All, Bool-cases, inl, inr}
use elgon.Base.Text.{Str}
use elgon.Orm.Schema.Sql
use elgon.Orm.Schema.Sql.{Unicode}
use elgon.Migrate.Models
use elgon.Migrate.Models.{is_upper, is_lower}

-- What package `unicode` says of ASCII.
pub record KnowsAscii (u : Unicode) : Type 0 where
  pub upper : (c : ℕ) → c < 128 → u.is_upper c ≡ is_upper c
  pub lower : (c : ℕ) → c < 128 → u.is_lower c ≡ is_lower c
  pub folded : (c : ℕ) → is_upper c ≡ true → u.to_lower_rune c ≡ c + 32

abbrev IsAscii : Str → Type 0
IsAscii = All (λ c. c < 128)

module _ (u : Unicode) (h : KnowsAscii u) where
  next_is_lower-eq : (s : Str) → IsAscii s → Sql.next_is_lower u s ≡ Models.next_is_lower s
  next_is_lower-eq [] k = refl
  next_is_lower-eq (c ∷ s) k = h.lower c k.0

  snake_some-eq :
      (b : ℕ) (s : Str)
      → b < 128
      → IsAscii s
      → Sql.snake_from u (some b) s ≡ Models.snake_from (some b) s
  unfolding Sql.snake_from Models.snake_from
  snake_some-eq b [] kb k = refl
  snake_some-eq b (c ∷ s) kb k =
      let rest = snake_some-eq c s k.0 k.1 in
      elim (Bool-cases (is_upper c)) [
        | inr small ↦ rw (h.upper c k.0, small, rest) refl
        | inl big ↦
            rw (h.upper c k.0, big, h.lower b kb, next_is_lower-eq s k.1, h.folded c big, rest) refl
      ]

  -- The ORM and the generator of migrations write an ASCII name in snake case in the same way.
  pub to_snake_case-eq : (s : Str) → IsAscii s → Sql.to_snake_case u s ≡ Models.to_snake_case s
  unfolding Sql.to_snake_case Models.to_snake_case Sql.snake_from Models.snake_from
  to_snake_case-eq [] k = refl
  to_snake_case-eq (c ∷ s) k =
      let rest = snake_some-eq c s k.0 k.1 in
      elim (Bool-cases (is_upper c)) [
        | inr small ↦ rw (h.upper c k.0, small, rest) refl
        | inl big ↦ rw (h.upper c k.0, big, h.folded c big, rest) refl
      ]

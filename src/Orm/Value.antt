-- ===== src/Orm/Value.antt =====
-- orm/table.go: the values of type `any` that clauses and rows hold, the errors, identifiers and
-- the order of keys.
use elgon.Base.{
  ℕ, ◌≡◌, refl, Bool, true, false, ◌&&◌, ◌||◌, Option, none, some, List, [], ◌∷◌, arith, ltb, leb,
  ◌==◌, if◌then◌else◌, All, Bool-cases, inl, inr,
}
use elgon.Base.Text.{Str, trim_space}
use elgon.Base.Result.{Result, ok, err}

-- `any`: nil, a bool, a string, a slice or an array, a `Where` or a `map[string]any`, an int
-- that is not negative, and a value of any other type, which the code only passes on.
mutual
  pub data Value : Type 0 where
    null : Value
    bool : Bool → Value
    text : Str → Value
    int : ℕ → Value
    opaque : ℕ → Value
    list : Items → Value
    object : Fields → Value

  pub data Items : Type 0 where
    nil : Items
    cons : Value → Items → Items

  pub data Fields : Type 0 where
    end : Fields
    field : Str → Value → Fields → Fields

-- The errors of errors.go, without their messages, and those of the database.
pub data Error : Type 0 where
  not_found invalid_input non_unique unsupported_operator no_columns : Error
  database : ℕ → Error

abbrev pub items_of : Items → List Value
items_of nil = []
items_of (cons x xs) = x ∷ items_of xs

-- `toAnySlice`
unfoldable pub to_any_slice : Value → Option (List Value)
to_any_slice (list xs) = some (items_of xs)
to_any_slice null = none
to_any_slice _ = none

unfoldable pub is_letter : ℕ → Bool
is_letter c = leb b'A' c && leb c b'Z' || leb b'a' c && leb c b'z' || c == b'_'

unfoldable pub is_ident_char : ℕ → Bool
unfolding is_letter
is_ident_char c = is_letter c || leb b'0' c && leb c b'9'

abbrev pub all : (ℕ → Bool) → Str → Bool
all p [] = true
all p (c ∷ s) = p c && all p s

-- `identRegex.MatchString`: `^[A-Za-z_][A-Za-z0-9_]*$`
unfoldable pub is_identifier : Str → Bool
unfolding is_ident_char
is_identifier [] = false
is_identifier (c ∷ s) = is_letter c && all is_ident_char s

-- `validIdentifier`
unfoldable pub valid_identifier : Str → Result Error Str
unfolding is_identifier trim_space
valid_identifier name =
    let trimmed = trim_space name in if is_identifier trimmed then ok trimmed else err invalid_input

-- `<=` on strings, in the order of `sort.Strings`.
unfoldable pub str_leb : Str → Str → Bool
str_leb [] t = true
str_leb (c ∷ s) [] = false
str_leb (c ∷ s) (d ∷ t) = ltb c d || (c == d) && str_leb s t

module _ {ℓ} {A : Type ℓ} where
  -- The entries of a Go map in the order of their sorted keys, which are all different.
  unfoldable pub insert_key : Str × A → List (Str × A) → List (Str × A)
  unfolding str_leb
  insert_key (k, a) [] = (k, a) ∷ []
  insert_key (k, a) ((j, b) ∷ rest) =
      if str_leb k j then (k, a) ∷ (j, b) ∷ rest else (j, b) ∷ insert_key (k, a) rest

  unfoldable pub sort_keys : List (Str × A) → List (Str × A)
  unfolding insert_key
  sort_keys [] = []
  sort_keys (e ∷ es) = insert_key e (sort_keys es)

module _ {ℓ κ} {A : Type ℓ} (P : A → Type κ) where
  pub All-insert_key :
      (e : Str × A) (es : List (Str × A))
      → P e.1
      → All (λ x. P x.1) es
      → All (λ x. P x.1) (insert_key e es)
  unfolding insert_key
  All-insert_key (k, a) [] h hs = (h, tt)
  All-insert_key (k, a) ((j, b) ∷ rest) h hs = elim (Bool-cases (str_leb k j)) [
    | inl le ↦ rw le (h, hs)
    | inr gt ↦ rw gt (hs.0, All-insert_key (k, a) rest h hs.1)
  ]

  pub All-sort_keys : (es : List (Str × A)) → All (λ x. P x.1) es → All (λ x. P x.1) (sort_keys es)
  unfolding sort_keys
  All-sort_keys [] hs = tt
  All-sort_keys (e ∷ es) hs = All-insert_key e (sort_keys es) hs.0 (All-sort_keys es hs.1)

is_identifier-all : (s : Str) → is_identifier s ≡ true → all is_ident_char s ≡ true
unfolding is_identifier is_ident_char
is_identifier-all [] h = refl
is_identifier-all (c ∷ s) h = ground arith

-- An identifier that passes holds letters, digits and underscores only.
pub valid_identifier-all :
    (name s : Str) → valid_identifier name ≡ ok s → all is_ident_char s ≡ true
unfolding valid_identifier
valid_identifier-all name s h = elim (Bool-cases (is_identifier (trim_space name))) [
  | inl e ↦
      let q : ok (trim_space name) ≡ ok s = rw e at h in
      let same : trim_space name ≡ s = cc in rw (← same) (is_identifier-all (trim_space name) e)
  | inr e ↦ let q : err invalid_input ≡ ok s = rw e at h in cc
]

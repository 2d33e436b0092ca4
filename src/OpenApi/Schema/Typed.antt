-- ===== src/OpenApi/Schema/Typed.antt =====
-- openapi/schema.go: the types of the examples that `typedExample` makes of a text.
use elgon.Base.{ℕ, ◌≡◌, false, ◌||◌, Option, none, some}
use elgon.Base.Text.{Str, str, str_eq}
use elgon.Base.Text.Atoi.{atoi}
use elgon.Config.{parse_bool}
use elgon.OpenApi.Schema.{Json, flag, string, int, real}

-- The example that a reading of the text gives: its value where there is one, and else the text.
abbrev pub Reads : {A : Type 0} → Str → Option A → (A → Json) → Json → Type 0
Reads raw none value v = v ≡ string raw
Reads raw (some x) value v = v ≡ value x

module _ (parse_float : Str → Option ℕ) (parse_json : Str → Option Json) where
  -- What the example of a kind is: that kind's reading of the text, where the kind has one.
  pub data Fits (raw : Str) : Str → Json → Type 0 where
    as_integer : {v : Json} → Reads raw (atoi raw) int v → Fits raw (str "integer") v
    as_number : {v : Json} → Reads raw (parse_float raw) real v → Fits raw (str "number") v
    as_boolean : {v : Json} → Reads raw (parse_bool raw) flag v → Fits raw (str "boolean") v
    as_array : {v : Json} → Reads raw (parse_json raw) (λ w. w) v → Fits raw (str "array") v
    as_object : {v : Json} → Reads raw (parse_json raw) (λ w. w) v → Fits raw (str "object") v
    as_text :
        {kind : Str}
        → str_eq kind (str "integer") ≡ false
        → str_eq kind (str "number") ≡ false
        → str_eq kind (str "boolean") ≡ false
        → (str_eq kind (str "array") || str_eq kind (str "object")) ≡ false
        → Fits raw kind (string raw)

-- ===== src/Http/Bind.antt =====
-- ctx.go and validator.go: `BindJSON` and `Validate`. A stream decoder of JSON is a parameter: what it
-- reads first of a text, and the text behind that.
use elgon.Base.{◌≡◌, ◌↔◌, refl, ap, Option, none, some}
use elgon.Base.Text.{Str, str}
use elgon.Base.Result.{Result, ok, err}
use elgon.Http.{text, Error, err_bad_request}

-- What `Decode` gives: a value, the end of the text (`io.EOF`), or another error.
pub data Decoded (A : Type 0) : Type 0 where
  value : A → Str → Decoded A
  eof : Decoded A
  malformed : Str → Decoded A

module _ {A : Type 0} (decode : Str → Decoded A) (decode_empty : Str → Decoded Unit) where
  abbrev bad_body : Str → Result Error A
  bad_body details = err (err_bad_request (str "invalid JSON body") (some (text details)))

  -- The second `Decode`, into an empty struct, must come to the end.
  abbrev single : A → Decoded Unit → Result Error A
  single a eof = ok a
  single a (value u rest) = bad_body (str "multiple JSON values are not allowed")
  single a (malformed e) = bad_body (str "multiple JSON values are not allowed")

  abbrev bound : Decoded A → Result Error A
  bound eof = bad_body (str "EOF")
  bound (malformed e) = bad_body e
  bound (value a rest) = single a (decode_empty rest)

  -- `BindJSON`
  unfoldable pub bind_json : Str → Result Error A
  bind_json body = bound (decode body)

  single-ok : (a b : A) (d : Decoded Unit) → single a d ≡ ok b → (a ≡ b) × (d ≡ eof)
  single-ok a b eof q = (cc, refl)
  single-ok a b (value u rest) q = cc
  single-ok a b (malformed e) q = cc

  bound-ok :
      (a : A) (d : Decoded A)
      → bound d ≡ ok a
      → (rest : Str) × (d ≡ value a rest) × (decode_empty rest ≡ eof)
  bound-ok a eof q = cc
  bound-ok a (malformed e) q = cc
  bound-ok a (value b rest) q =
      let (same, ended) = single-ok b a (decode_empty rest) q in
      (rest, ap (λ x. value x rest) same, ended)

  -- A body is bound to a value exactly when it holds that value and nothing but the end behind it.
  pub bind_json-ok_iff :
      (body : Str) (a : A)
      → (bind_json body ≡ ok a)
        ↔ ((rest : Str) × (decode body ≡ value a rest) × (decode_empty rest ≡ eof))
  unfolding bind_json
  bind_json-ok_iff body a =
      ((λ q. bound-ok a (decode body) q), (λ (rest, first, ended). rw (first, ended) refl))

-- `Validate`, with the validator of the application, if it has one, by the error that it gives.
unfoldable pub validate : {A : Type 0} → Option (A → Option Str) → A → Option Error
validate none a = none
validate (some check) a = elim (check a) [
  | none ↦ none
  | some e ↦ some (err_bad_request (str "validation failed") (some (text e)))
]

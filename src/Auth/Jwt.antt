-- ===== src/Auth/Jwt.antt =====
-- auth/auth.go: `Sign` and `Verify`. HMAC, base64 and JSON are parameters.
pub mod Laws
use elgon.Base.{
  ℕ, zero, ◌+◌, ◌≡◌, Bool, true, false, ◌&&◌, Option, none, some, List, [], ◌∷◌, ◌++◌, ltb, All,
  if◌then◌else◌,
}
use elgon.Base.Int.{ℤ, pos, negsuc, to_int64}
use elgon.Base.Text.{Str, str, str_eq, split, is_url_char}
use elgon.Base.Result.{Result, ok, err}

-- `Claims`
pub record Claims : Type 0 where
  pub sub : Str
  pub email : Str
  pub roles : List Str
  pub perms : List Str
  pub exp : ℤ
  pub iat : ℤ

-- `ErrInvalidToken`, `ErrExpiredToken`, and the errors of a missing secret, of another algorithm and
-- of the encoder.
pub data TokenError : Type 0 where
  invalid_token expired_token no_secret unsupported_alg not_encoded : TokenError

-- The functions of packages crypto, base64 and json that the code uses. `alg` is `header["alg"]` of
-- the decoded JSON: nothing if that is no object, and `some none` if it is no text.
pub record Codec : Type 0 where
  pub hmac : Str → Str → Str
  pub b64_encode : Str → Str
  pub b64_decode : Str → Option Str
  pub header_json : Str
  pub alg : Str → Option (Option Str)
  pub marshal : Claims → Option Str
  pub unmarshal : Str → Option Claims

-- What they are documented to do: base64 writes letters, digits, '-' and '_', and is read back, as
-- is JSON.
pub record IsDocumented (c : Codec) : Type 0 where
  pub url_chars : (s : Str) → All (λ x. is_url_char x ≡ true) (c.b64_encode s)
  pub decode-encode : (s : Str) → c.b64_decode (c.b64_encode s) ≡ some s
  pub header_read : c.alg c.header_json ≡ some (some (str "HS256"))
  pub unmarshal-marshal :
      (claims : Claims) (s : Str) → c.marshal claims ≡ some s → c.unmarshal s ≡ some claims

abbrev is_zero : ℤ → Bool
is_zero (pos zero) = true
is_zero _ = false

abbrev stamp_iat : ℕ → Claims → Claims
stamp_iat now claims = if is_zero claims.iat then record claims { iat = pos now } else claims

abbrev stamp_exp : ℕ → Option ℕ → Claims → Claims
stamp_exp now none claims = claims
stamp_exp now (some seconds) claims = record claims { exp = to_int64 (now + seconds) }

-- The claims that `Sign` writes. `ttl` is its whole seconds, if it is positive.
unfoldable pub stamped : ℕ → Option ℕ → Claims → Claims
unfolding to_int64
stamped now ttl claims = stamp_exp now ttl (stamp_iat now claims)

-- `claims.Exp > 0 && m.now().Unix() > claims.Exp`
abbrev pub expired : ℤ → ℕ → Bool
expired (pos e) now = ltb 0 e && ltb e now
expired (negsuc e) now = false

module _ (c : Codec) (secret : Str) where
  open c use {hmac, b64_encode, b64_decode, header_json, alg, marshal, unmarshal}

  -- `signHS256`
  unfoldable pub sign_hs256 : Str → Str
  sign_hs256 input = b64_encode (hmac input secret)

  -- `header + "." + payload`
  abbrev pub signing_input : Str → Str → Str
  signing_input header payload = header ++ b'.' ∷ payload

  abbrev signed : Option Str → Result TokenError Str
  signed none = err not_encoded
  signed (some json) =
      let input = signing_input (b64_encode header_json) (b64_encode json) in
      ok (input ++ b'.' ∷ sign_hs256 input)

  -- `Sign`, at the second `now`.
  unfoldable pub sign : Claims → Option ℕ → ℕ → Result TokenError Str
  unfolding stamped sign_hs256 str_eq
  sign claims ttl now =
      if str_eq secret (str "") then err no_secret else signed (marshal (stamped now ttl claims))

  abbrev check_exp : Option Claims → ℕ → Result TokenError Claims
  check_exp none now = err invalid_token
  check_exp (some claims) now = if expired claims.exp now then err expired_token else ok claims

  abbrev check_payload : Option Str → ℕ → Result TokenError Claims
  check_payload none now = err invalid_token
  check_payload (some json) now = check_exp (unmarshal json) now

  abbrev check_alg : Option (Option Str) → Option Str → ℕ → Result TokenError Claims
  check_alg none payload now = err invalid_token
  check_alg (some none) payload now = err unsupported_alg
  check_alg (some (some a)) payload now =
      if str_eq a (str "HS256") then check_payload payload now else err unsupported_alg

  abbrev check_header : Option Str → Option Str → ℕ → Result TokenError Claims
  check_header none payload now = err invalid_token
  check_header (some json) payload now = check_alg (alg json) payload now

  -- The checks on the three parts.
  unfoldable pub verify_parts : List Str → ℕ → Result TokenError Claims
  unfolding sign_hs256 str_eq
  verify_parts (header ∷ payload ∷ sig ∷ []) now =
      if str_eq sig (sign_hs256 (signing_input header payload))
      then check_header (b64_decode header) (b64_decode payload) now
      else err invalid_token
  verify_parts _ now = err invalid_token

  -- `Verify`, at the second `now`.
  unfoldable pub verify : Str → ℕ → Result TokenError Claims
  unfolding verify_parts str_eq split
  verify token now =
      if str_eq secret (str "") then err no_secret else verify_parts (split b'.' token) now

-- ===== src/Auth/Request.antt =====
-- auth/auth.go: `Auth` with a manager of tokens, from the signing of a token to the request that
-- bears it.
use elgon.Base.{
  ℕ, ◌≡◌, ◌≢◌, refl, ap, ◌∙◌, true, false, Option, [], ◌∷◌, ◌++◌, arith, All, All-append,
  All-weaken,
}
use elgon.Base.Text.{Str, str, trim_space, is_space, is_url_char, join}
use elgon.Base.Text.Splits.{Avoids, trim-join}
use elgon.Base.Result.{Result, ok, err}
use elgon.Http.{Principal, principal, Ctx, HandlerFunc, Middleware, header, set_value}
use elgon.Middleware.{auth, admit, user_context_key}
use elgon.Auth.Jwt.{
  Claims, TokenError, Codec, IsDocumented, stamped, expired, sign, sign_hs256, signing_input,
  verify,
}
use elgon.Auth.Jwt.Laws.{token_of, sign-ok, verify-sign}

abbrev pub principal_of : Claims → Principal
principal_of claims = record {
  id = claims.sub;
  email = claims.email;
  roles = claims.roles;
  perms = claims.perms;
}

abbrev principal_result : Result TokenError Claims → Result TokenError Principal
principal_result (err e) = err e
principal_result (ok claims) = ok (principal_of claims)

-- `Auth`, at the second `now`.
unfoldable pub auth_jwt : Codec → Str → ℕ → Middleware
unfolding auth verify
auth_jwt c secret now = auth (λ token. principal_result (verify c secret token now))

url-not_space : (x : ℕ) → is_url_char x ≡ true → is_space x ≡ false
unfolding is_url_char is_space
url-not_space x h = ground arith

trim_space-Avoids : (s : Str) → s ≢ [] → Avoids is_space s → trim_space s ≡ s
unfolding trim_space
trim_space-Avoids s some_char h = unfold join in trim-join is_space b'.' s [] ((some_char, h), tt)

token_of-ne-nil : (c : Codec) (secret h p : Str) → token_of c secret h p ≢ []
token_of-ne-nil c secret [] p q = cc
token_of-ne-nil c secret (x ∷ h) p q = cc

-- The characters of a signed token are those of base64, and dots.
token-Avoids :
    (c : Codec) (secret h p : Str)
    → All (λ x. is_url_char x ≡ true) h
    → All (λ x. is_url_char x ≡ true) p
    → All (λ x. is_url_char x ≡ true) (sign_hs256 c secret (signing_input c secret h p))
    → Avoids is_space (token_of c secret h p)
token-Avoids c secret h p hh hp hs =
    let plain = λ (s : Str). All-weaken (λ x. url-not_space x) s in
    All-append _ (signing_input c secret h p) _
      (All-append _ h _ (plain h hh) (unfold is_space in refl, plain p hp))
      (unfold is_space in refl, plain _ hs)

auth-bearer :
    {E : Type 0} (check : Str → Result E Principal) (next : HandlerFunc) (x : Ctx) (token : Str)
    (p : Principal)
    → header (str "Authorization") x ≡ str "Bearer " ++ token
    → trim_space token ≡ token
    → check token ≡ ok p
    → auth check next x ≡ next (set_value user_context_key (principal p) x)
unfolding auth
auth-bearer check next x token p sent clean good =
    rw sent (ap (λ t. admit (check t) next x) clean ∙ ap (λ r. admit r next x) good)

-- A request whose Authorization header bears a token that was signed for claims, and that has not
-- expired, reaches the handler with the principal of these claims.
pub auth_jwt-sign :
    (c : Codec) (secret : Str) (claims : Claims) (ttl : Option ℕ) (now later : ℕ) (token : Str)
    (next : HandlerFunc) (x : Ctx)
    → IsDocumented c
    → sign c secret claims ttl now ≡ ok token
    → expired (stamped now ttl claims).exp later ≡ false
    → header (str "Authorization") x ≡ str "Bearer " ++ token
    → auth_jwt c secret later next x
      ≡ next (set_value user_context_key (principal (principal_of (stamped now ttl claims))) x)
unfolding auth_jwt
auth_jwt-sign c secret claims ttl now later token next x documented signed fresh sent =
    let (json, made, full, spelled) = sign-ok c secret claims ttl now token signed in
    let clean : Avoids is_space token = rw spelled (
      token-Avoids c secret _ _ (documented.url_chars c.header_json) (documented.url_chars json)
        (unfold sign_hs256 in documented.url_chars _)) in
    let some_char : token ≢ [] = rw spelled (token_of-ne-nil c secret _ _) in
    let verified : verify c secret token later ≡ ok (stamped now ttl claims) =
      rw (verify-sign c secret claims ttl now later token documented signed, fresh) refl in
    auth-bearer (λ t. principal_result (verify c secret t later)) next x token _ sent
      (trim_space-Avoids token some_char clean) (ap principal_result verified)

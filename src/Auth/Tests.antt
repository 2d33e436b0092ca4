-- ===== src/Auth/Tests.antt =====
-- The theorems about tokens with a codec that runs: texts in unary, and claims with a subject only.
use elgon.Base.{
  ℕ, zero, suc, ◌+◌, ◌≡◌, refl, ap, ◌∙◌, true, false, Option, none, some, List, [], ◌∷◌, ◌++◌,
  arith, ◌==◌, All, if◌then◌else◌,
}
use elgon.Base.Int.{ℤ, pos, negsuc}
use elgon.Base.Text.{Str, str, str_eq, is_url_char, split}
use elgon.Base.Result.{ok, err}
use elgon.Http.{principal, Ctx, returned, HandlerFunc, header, set_value}
use elgon.Middleware.{user_context_key}
use elgon.Auth.Jwt.{Claims, expired_token, Codec, IsDocumented, stamped, sign, verify}
use elgon.Auth.Jwt.Laws.{token_of, Accepted, verify-sign, verify-Accepted}
use elgon.Auth.Oidc.{OAuthConfig}
use elgon.Auth.Oidc.Url.{Query, Only, StateOf, auth_query, auth_query-Only}
use elgon.Base.Dict
use elgon.Auth.Oidc.{
  Json, text, number, audience_contains, check_claims, parse_parts, parse_id_token_claims,
}
use elgon.Auth.Oidc.Laws.{Trusted, ReadFrom, parse_id_token_claims-Trusted}
use elgon.Auth.Request.{principal_of, auth_jwt, auth_jwt-sign}

unary : ℕ → Str → Str
unary zero rest = b'b' ∷ rest
unary (suc n) rest = b'a' ∷ unary n rest

encode : Str → Str
unfolding unary
encode [] = []
encode (n ∷ s) = unary n (encode s)

decode_from : ℕ → Str → Str
decode_from n [] = []
decode_from n (c ∷ s) = elim (c == b'a') [
  | true ↦ decode_from (n + 1) s
  | false ↦ n ∷ decode_from 0 s
]

decode_from-unary :
    (n k : ℕ) (rest : Str) → decode_from k (unary n rest) ≡ (k + n) ∷ decode_from 0 rest
unfolding unary decode_from
decode_from-unary zero k rest = ap (λ m. m ∷ decode_from 0 rest) (omega arith)
decode_from-unary (suc n) k rest =
    decode_from-unary n (k + 1) rest ∙ ap (λ m. m ∷ decode_from 0 rest) (omega arith)

decode_from-encode : (s : Str) → decode_from 0 (encode s) ≡ s
unfolding encode
decode_from-encode [] = unfold decode_from in refl
decode_from-encode (n ∷ s) =
    decode_from-unary n 0 (encode s)
    ∙ ap (λ m. m ∷ decode_from 0 (encode s)) (omega arith)
    ∙ ap (λ t. n ∷ t) (decode_from-encode s)

unary-url :
    (n : ℕ) (rest : Str)
    → All (λ x. is_url_char x ≡ true) rest
    → All (λ x. is_url_char x ≡ true) (unary n rest)
unfolding unary is_url_char
unary-url zero rest h = (refl, h)
unary-url (suc n) rest h = (refl, unary-url n rest h)

encode-url : (s : Str) → All (λ x. is_url_char x ≡ true) (encode s)
unfolding encode
encode-url [] = tt
encode-url (n ∷ s) = unary-url n (encode s) (encode-url s)

abbrev marshal_fields : Str → Str → List Str → List Str → ℤ → ℤ → Option Str
marshal_fields sub [] [] [] (pos e) (pos i) = some (e ∷ i ∷ sub)
marshal_fields _ _ _ _ _ _ = none

abbrev unmarshal : Str → Option Claims
unmarshal (e ∷ i ∷ sub) =
    some (record { sub = sub; email = []; roles = []; perms = []; exp = pos e; iat = pos i })
unmarshal _ = none

unmarshal-marshal_fields :
    (sub email : Str) (roles perms : List Str) (exp iat : ℤ) (s : Str)
    → marshal_fields sub email roles perms exp iat ≡ some s
    → unmarshal s
      ≡ some
          (record { sub = sub; email = email; roles = roles; perms = perms; exp = exp; iat = iat })
unmarshal-marshal_fields sub [] [] [] (pos e) (pos i) s q =
    let same : e ∷ i ∷ sub ≡ s = cc in rw (← same) refl
unmarshal-marshal_fields sub (c ∷ cs) roles perms exp iat s q = cc
unmarshal-marshal_fields sub [] (r ∷ rs) perms exp iat s q = cc
unmarshal-marshal_fields sub [] [] (p ∷ ps) exp iat s q = cc
unmarshal-marshal_fields sub [] [] [] (negsuc e) iat s q = cc
unmarshal-marshal_fields sub [] [] [] (pos e) (negsuc i) s q = cc

abbrev alg_of : Str → Option (Option Str)
alg_of s = if str_eq s (str "H") then some (some (str "HS256")) else none

codec : Codec
unfolding encode decode_from
codec = record {
  hmac = λ input secret. secret;
  b64_encode = encode;
  b64_decode = λ s. some (decode_from 0 s);
  header_json = str "H";
  alg = alg_of;
  marshal = λ c. marshal_fields c.sub c.email c.roles c.perms c.exp c.iat;
  unmarshal = unmarshal;
}

alg_of-header : alg_of (str "H") ≡ some (some (str "HS256"))
unfolding str_eq
alg_of-header = refl

codec-IsDocumented : IsDocumented codec
unfolding codec
codec-IsDocumented = record {
  url_chars = encode-url;
  decode-encode = λ s. ap some (decode_from-encode s);
  header_read = alg_of-header;
  unmarshal-marshal =
      λ c s q. unmarshal-marshal_fields c.sub c.email c.roles c.perms c.exp c.iat s q;
}

abbrev ada : Claims
ada = record { sub = 7 ∷ []; email = []; roles = []; perms = []; exp = pos 0; iat = pos 0 }

abbrev secret : Str
secret = str "s"

-- The claims after a signature at second 100 for a minute.
abbrev ada_stamped : Claims
ada_stamped = record ada { exp = pos 160; iat = pos 100 }

abbrev token : Str
token = token_of codec secret (codec.b64_encode (str "H")) (codec.b64_encode (160 ∷ 100 ∷ 7 ∷ []))

ada_signed : sign codec secret ada (some 60) 100 ≡ ok token
unfolding sign codec
ada_signed = refl

verify-sign_example : verify codec secret token 161 ≡ err expired_token
unfolding stamped
verify-sign_example =
    verify-sign codec secret ada (some 60) 100 161 token codec-IsDocumented ada_signed

ada_verified : verify codec secret token 160 ≡ ok ada_stamped
unfolding stamped
ada_verified = verify-sign codec secret ada (some 60) 100 160 token codec-IsDocumented ada_signed

verify-Accepted_example : Accepted codec secret token ada_stamped 160
verify-Accepted_example = verify-Accepted codec secret token ada_stamped 160 ada_verified

abbrev get_me : Ctx
get_me = record {
  method = str "GET";
  path = str "/me";
  request_headers = (str "Authorization", str "Bearer " ++ token) ∷ [];
  params = [];
  values = [];
  route_pattern = str "";
  response = record { headers = []; status = none; body = [] };
}

abbrev handler : HandlerFunc
handler x = returned none x

auth_jwt-sign_example :
    auth_jwt codec secret 160 handler get_me
    ≡ returned none (set_value user_context_key (principal (principal_of ada_stamped)) get_me)
unfolding stamped header str_eq
auth_jwt-sign_example =
    auth_jwt-sign codec secret ada (some 60) 100 160 token handler get_me codec-IsDocumented
      ada_signed refl refl

-- An ID token whose payload stands for its claims.
abbrev id_claims : List (Str × Json)
id_claims =
    (str "iss", text (str "issuer"))
    ∷ (str "aud", text (str "client"))
    ∷ (str "exp", number (pos 10))
    ∷ []

abbrev parse_claims : Str → Option (List (Str × Json))
parse_claims s = some id_claims

id_token_accepted :
    parse_id_token_claims some parse_claims (str "issuer") (str "client") 9 (str "h.p.s")
    ≡ ok id_claims
unfolding parse_id_token_claims parse_parts check_claims Dict.lookup audience_contains str_eq split
id_token_accepted = refl

parse_id_token_claims-Trusted_example :
    ReadFrom some parse_claims (str "issuer") (str "client") 9 (split b'.' (str "h.p.s")) id_claims
    × Trusted some parse_claims (str "issuer") (str "client") 9 id_claims
parse_id_token_claims-Trusted_example =
    parse_id_token_claims-Trusted some parse_claims (str "issuer") (str "client") 9 (str "h.p.s")
      id_claims id_token_accepted

abbrev login : OAuthConfig
login = record {
  client_id = str "shop";
  client_secret = [];
  redirect_url = str "https://shop/cb";
  scopes = str "openid" ∷ str "email" ∷ [];
  auth_url = str "https://id/auth?state=evil";
  token_url = [];
  user_info_url = [];
}

-- The address of the endpoint has a state of its own.
abbrev evil : Query
evil = (str "state", str "evil" ∷ []) ∷ []

auth_query-Only_example :
    Only
      (str "response_type")
      (str "code")
      (auth_query login (str "s1") ((str "nonce", str "n1") ∷ []) evil)
    × Only
        (str "client_id")
        (str "shop")
        (auth_query login (str "s1") ((str "nonce", str "n1") ∷ []) evil)
    × Only
        (str "redirect_uri")
        (str "https://shop/cb")
        (auth_query login (str "s1") ((str "nonce", str "n1") ∷ []) evil)
    × StateOf (str "s1") evil (auth_query login (str "s1") ((str "nonce", str "n1") ∷ []) evil)
unfolding str_eq
auth_query-Only_example =
    auth_query-Only login (str "s1") ((str "nonce", str "n1") ∷ []) evil (refl, tt) (refl, tt)
      (refl, tt) (refl, tt)

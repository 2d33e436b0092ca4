-- ===== src/Auth/Oidc.antt =====
-- auth/oauth_oidc.go: the exchange of codes, discovery, and the claims of ID tokens. The HTTP client,
-- URL encoding, base64 and JSON are parameters.
pub mod Laws
pub mod Url
use elgon.Base.{
  ℕ, ◌≡◌, Bool, true, false, ◌&&◌, ◌||◌, not, Option, none, some, List, [], ◌∷◌, ◌++◌, ltb, leb,
  if◌then◌else◌,
}
use elgon.Base.Int.{ℤ, pos, negsuc}
use elgon.Base.Text.{Str, str, str_eq, split, trim_right}
use elgon.Base.Dict
use elgon.Base.Result.{Result, ok, err}

-- The values of a decoded object. A number is what `int64` makes of it.
pub data Json : Type 0 where
  text : Str → Json
  number : ℤ → Json
  array : List (Option Str) → Json
  other : Json

-- The errors of the package, and those of the functions that it calls.
pub data OidcError : Type 0 where
  invalid_token issuer_mismatch audience_mismatch expired_token : OidcError
  missing_url failed_status missing_access_token incomplete_discovery : OidcError
  call_failed : ℕ → OidcError

-- `OAuth2Token`
pub record OAuthToken : Type 0 where
  pub access_token : Str
  pub token_type : Str
  pub refresh_token : Str
  pub id_token : Str
  pub expires_in : ℤ
  pub scope : Str

-- `OIDCDiscoveryDoc`
pub record DiscoveryDoc : Type 0 where
  pub issuer : Str
  pub authorization : Str
  pub token : Str
  pub user_info : Str
  pub jwks_uri : Str
  pub algs : List Str

-- `OAuth2Config`
pub record OAuthConfig : Type 0 where
  pub client_id : Str
  pub client_secret : Str
  pub redirect_url : Str
  pub scopes : List Str
  pub auth_url : Str
  pub token_url : Str
  pub user_info_url : Str

-- `OIDCProvider`
pub record OidcProvider : Type 0 where
  pub issuer : Str
  pub oauth : OAuthConfig
  pub jwks : Str

-- `NewOIDCProvider`
abbrev pub new_oidc_provider : DiscoveryDoc → OAuthConfig → OidcProvider
new_oidc_provider doc cfg = record {
  issuer = doc.issuer;
  oauth = record cfg {
    auth_url = doc.authorization;
    token_url = doc.token;
    user_info_url = doc.user_info;
  };
  jwks = doc.jwks_uri;
}

-- The answer of a server: its status, and its body as JSON of the type that is wanted.
pub record Answer (A : Type 0) : Type 0 where
  pub status : ℕ
  pub body : Result OidcError A

-- `resp.StatusCode < 200 || resp.StatusCode >= 300`
abbrev pub is_failure : ℕ → Bool
is_failure status = ltb status 200 || leb 300 status

-- The checks that follow a call of the client.
abbrev body_of : {A : Type 0} → Result OidcError (Answer A) → Result OidcError A
body_of (err e) = err e
body_of (ok answer) = if is_failure answer.status then err failed_status else answer.body

-- The fields of the form that `ExchangeCode` posts.
abbrev pub exchange_form : OAuthConfig → Str → List (Str × Str)
exchange_form cfg code =
    (str "grant_type", str "authorization_code")
    ∷ (str "code", code)
    ∷ (str "redirect_uri", cfg.redirect_url)
    ∷ (str "client_id", cfg.client_id)
    ∷ (str "client_secret", cfg.client_secret)
    ∷ []

abbrev checked_token : Result OidcError OAuthToken → Result OidcError OAuthToken
checked_token (err e) = err e
checked_token (ok token) =
    if str_eq token.access_token (str "") then err missing_access_token else ok token

-- `ExchangeCode`; `post` sends a form to a URL.
unfoldable pub exchange_code :
    (Str → List (Str × Str) → Result OidcError (Answer OAuthToken))
    → OAuthConfig
    → Str
    → Result OidcError OAuthToken
unfolding str_eq
exchange_code post cfg code =
    if str_eq cfg.token_url (str "")
    then err missing_url
    else checked_token (body_of (post cfg.token_url (exchange_form cfg code)))

-- `FetchUserInfo`; `get` sends a request with an Authorization header.
unfoldable pub fetch_user_info :
    (Str → Str → Result OidcError (Answer (List (Str × Json))))
    → OAuthConfig
    → Str
    → Result OidcError (List (Str × Json))
unfolding str_eq
fetch_user_info get cfg access_token =
    if str_eq cfg.user_info_url (str "")
    then err missing_url
    else body_of (get cfg.user_info_url (str "Bearer " ++ access_token))

abbrev checked_doc : Result OidcError DiscoveryDoc → Result OidcError DiscoveryDoc
checked_doc (err e) = err e
checked_doc (ok doc) =
    if str_eq doc.issuer (str "") || str_eq doc.authorization (str "") || str_eq doc.token (str "")
    then err incomplete_discovery
    else ok doc

-- `DiscoverOIDC`
unfoldable pub discover_oidc :
    (Str → Result OidcError (Answer DiscoveryDoc)) → Str → Result OidcError DiscoveryDoc
unfolding str_eq trim_right
discover_oidc get issuer = checked_doc (
    body_of (
      get (
        trim_right (λ c. str_eq (c ∷ []) (str "/")) issuer
        ++ str "/.well-known/openid-configuration")))

abbrev has_text : List (Option Str) → Str → Bool
has_text [] audience = false
has_text (none ∷ vs) audience = has_text vs audience
has_text (some s ∷ vs) audience = str_eq s audience || has_text vs audience

-- `audienceContains`; the items of an array that are no texts are `none`.
unfoldable pub audience_contains : Option Json → Str → Bool
unfolding str_eq
audience_contains (some (text s)) audience = str_eq s audience
audience_contains (some (array vs)) audience = has_text vs audience
audience_contains (some (number n)) audience = false
audience_contains (some other) audience = false
audience_contains none audience = false

-- `iss, _ := claims["iss"].(string)`
abbrev pub text_of : Option Json → Str
text_of (some (text s)) = s
text_of (some (number n)) = str ""
text_of (some (array vs)) = str ""
text_of (some other) = str ""
text_of none = str ""

abbrev after_int64 : ℕ → ℤ → Bool
after_int64 now (pos e) = ltb e now
after_int64 now (negsuc e) = true

-- `exp, ok := toInt64(claims["exp"]); ok && time.Now().Unix() > exp`
abbrev pub id_token_expired : Option Json → ℕ → Bool
id_token_expired (some (number e)) now = after_int64 now e
id_token_expired (some (text s)) now = false
id_token_expired (some (array vs)) now = false
id_token_expired (some other) now = false
id_token_expired none now = false

module _ (decode : Str → Option Str) (parse : Str → Option (List (Str × Json)))
    (issuer audience : Str) (now : ℕ) where
  -- The checks on the claims.
  unfoldable pub check_claims : List (Str × Json) → Result OidcError (List (Str × Json))
  unfolding Dict.lookup audience_contains str_eq
  check_claims claims =
      if not (str_eq issuer (str ""))
        && not (str_eq (text_of (Dict.lookup (str "iss") claims)) issuer)
      then err issuer_mismatch
      else if not (str_eq audience (str ""))
          && not (audience_contains (Dict.lookup (str "aud") claims) audience)
      then err audience_mismatch
      else if id_token_expired (Dict.lookup (str "exp") claims) now
      then err expired_token
      else ok claims

  abbrev parsed_claims : Option (List (Str × Json)) → Result OidcError (List (Str × Json))
  parsed_claims none = err invalid_token
  parsed_claims (some claims) = check_claims claims

  abbrev decoded_claims : Option Str → Result OidcError (List (Str × Json))
  decoded_claims none = err invalid_token
  decoded_claims (some json) = parsed_claims (parse json)

  unfoldable pub parse_parts : List Str → Result OidcError (List (Str × Json))
  unfolding check_claims
  parse_parts (header ∷ payload ∷ sig ∷ []) = decoded_claims (decode payload)
  parse_parts _ = err invalid_token

  -- `ParseIDTokenClaims`, at the second `now`.
  unfoldable pub parse_id_token_claims : Str → Result OidcError (List (Str × Json))
  unfolding parse_parts split
  parse_id_token_claims id_token = parse_parts (split b'.' id_token)

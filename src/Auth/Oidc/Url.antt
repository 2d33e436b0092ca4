-- ===== src/Auth/Oidc/Url.antt =====
-- auth/oauth_oidc.go: the URLs that ask for an authorisation code. URLs and their queries are those of
-- package `net/url`, which is a parameter.
use elgon.Base.{
  ◌≡◌, ◌∙◌, refl, inl, inr, false, some, List, [], ◌∷◌, Bool-cases, if◌then◌else◌, All,
}
use elgon.Base.Text.{Str, str, str_eq, join, trim_space}
use elgon.Base.Dict
use elgon.Base.Result.{Result, ok, err}
use elgon.Auth.Oidc.{OAuthConfig, OidcProvider}

-- `url.Values`, where each name has the list of its values.
abbrev pub Query : Type 0
Query = List (Str × List Str)

-- `q.Set(name, v)`
abbrev pub set_query : Str → Str → Query → Query
set_query name v q = Dict.insert name (v ∷ []) q

abbrev set_some : Str → Str → Query → Query
set_some name [] q = q
set_some name (c ∷ v) q = set_query name (c ∷ v) q

-- The loop over the extra parameters.
unfoldable pub set_extra : List (Str × Str) → Query → Query
unfolding trim_space str_eq Dict.insert
set_extra [] q = q
set_extra ((k, v) ∷ extra) q =
    let skip = set_extra extra q in
    if str_eq (trim_space k) (str "") then skip else set_extra extra (set_query k v q)

abbrev set_scopes : List Str → Query → Query
set_scopes [] q = q
set_scopes (s ∷ scopes) q = set_query (str "scope") (join (str " ") (s ∷ scopes)) q

-- The query of `AuthCodeURL`.
unfoldable pub auth_query : OAuthConfig → Str → List (Str × Str) → Query → Query
unfolding set_extra Dict.insert join
auth_query cfg state extra q = set_extra extra (
    set_scopes cfg.scopes (
      set_some (str "state") state (
        set_query (str "redirect_uri") cfg.redirect_url (
          set_query (str "client_id") cfg.client_id
            (set_query (str "response_type") (str "code") q)))))

-- The errors of `AuthCodeURL`.
pub data UrlError : Type 0 where
  missing_auth_url : UrlError
  bad_url : Str → UrlError

-- `url.Parse`, the query of a URL, and the text of a URL with another query.
module _ {U : Type 0} (parse : Str → Result Str U) (query : U → Query)
    (with_query : U → Query → Str) where
  abbrev queried : OAuthConfig → Str → List (Str × Str) → Result Str U → Result UrlError Str
  queried cfg state extra (err e) = err (bad_url e)
  queried cfg state extra (ok u) = ok (with_query u (auth_query cfg state extra (query u)))

  -- `AuthCodeURL` of the OAuth provider.
  unfoldable pub auth_code_url : OAuthConfig → Str → List (Str × Str) → Result UrlError Str
  unfolding auth_query str_eq
  auth_code_url cfg state extra =
      if str_eq cfg.auth_url (str "")
      then err missing_auth_url
      else queried cfg state extra (parse cfg.auth_url)

  abbrev nonce_extra : Str → List (Str × Str)
  nonce_extra [] = []
  nonce_extra (c ∷ s) = (str "nonce", c ∷ s) ∷ []

  -- `AuthCodeURL` of the OIDC provider.
  unfoldable pub oidc_auth_code_url : OidcProvider → Str → Str → Result UrlError Str
  unfolding auth_code_url
  oidc_auth_code_url p state nonce = auth_code_url p.oauth state (nonce_extra nonce)

-- A name that no extra parameter has.
abbrev pub Unused : Str → List (Str × Str) → Type 0
Unused name = All (λ e. str_eq e.0 name ≡ false)

lookup-set_extra :
    (name : Str) (extra : List (Str × Str)) (q : Query)
    → Unused name extra
    → Dict.lookup name (set_extra extra q) ≡ Dict.lookup name q
unfolding set_extra
lookup-set_extra name [] q h = refl
lookup-set_extra name ((k, v) ∷ extra) q (hk, h) =
    elim (Bool-cases (str_eq (trim_space k) (str ""))) [
      | inl blank ↦ rw blank (lookup-set_extra name extra q h)
      | inr used ↦
          rw
            (
              used,
              lookup-set_extra name extra (set_query k v q) h,
              Dict.lookup-insert k name (v ∷ []) q,
              hk,
            )
            refl
    ]

-- A parameter has one value.
abbrev pub Only : Str → Str → Query → Type 0
Only name v q = Dict.lookup name q ≡ some (v ∷ [])

lookup-set_scopes :
    (name : Str) (scopes : List Str) (q : Query)
    → str_eq (str "scope") name ≡ false
    → Dict.lookup name (set_scopes scopes q) ≡ Dict.lookup name q
lookup-set_scopes name [] q h = refl
lookup-set_scopes name (s ∷ scopes) q h =
    rw (Dict.lookup-insert (str "scope") name (join (str " ") (s ∷ scopes) ∷ []) q, h) refl

-- A parameter that is set, and one that is set behind it.
Only-set : (name v : Str) (q : Query) → Only name v (set_query name v q)
Only-set name v q = Dict.lookup-insert_self name (v ∷ []) q

Only-behind :
    (name v k w : Str) (q : Query)
    → str_eq k name ≡ false
    → Only name v q
    → Only name v (set_query k w q)
Only-behind name v k w q other h = rw (Dict.lookup-insert k name (w ∷ []) q, other) h

-- The parameters that every URL gets, before the state.
abbrev base_query : OAuthConfig → Query → Query
base_query cfg q =
    set_query (str "redirect_uri") cfg.redirect_url
      (set_query (str "client_id") cfg.client_id (set_query (str "response_type") (str "code") q))

lookup-set_state :
    (name state : Str) (q : Query)
    → str_eq (str "state") name ≡ false
    → Dict.lookup name (set_some (str "state") state q) ≡ Dict.lookup name q
lookup-set_state name [] q h = refl
lookup-set_state name (c ∷ state) q h =
    rw (Dict.lookup-insert (str "state") name ((c ∷ state) ∷ []) q, h) refl

lookup-auth_query :
    (name : Str) (cfg : OAuthConfig) (state : Str) (extra : List (Str × Str)) (q : Query)
    → str_eq (str "scope") name ≡ false
    → Unused name extra
    → Dict.lookup name (auth_query cfg state extra q)
      ≡ Dict.lookup name (set_some (str "state") state (base_query cfg q))
unfolding auth_query
lookup-auth_query name cfg state extra q other unused =
    lookup-set_extra name extra _ unused ∙ lookup-set_scopes name cfg.scopes _ other

-- A parameter that is neither the state nor a scope has the value that every URL gets.
lookup-base_query :
    (name : Str) (cfg : OAuthConfig) (state : Str) (extra : List (Str × Str)) (q : Query)
    → str_eq (str "scope") name ≡ false
    → str_eq (str "state") name ≡ false
    → Unused name extra
    → Dict.lookup name (auth_query cfg state extra q) ≡ Dict.lookup name (base_query cfg q)
lookup-base_query name cfg state extra q other own unused =
    lookup-auth_query name cfg state extra q other unused
    ∙ lookup-set_state name state (base_query cfg q) own

-- The state of a query that is made from another one for a call with this state: the one of the call,
-- and where that is empty whatever the other query has.
abbrev pub StateOf : Str → Query → Query → Type 0
StateOf [] q made = Dict.lookup (str "state") made ≡ Dict.lookup (str "state") q
StateOf (c ∷ state) q made = Only (str "state") (c ∷ state) made

lookup-set_query :
    (name v k : Str) (q : Query)
    → str_eq name k ≡ false
    → Dict.lookup k (set_query name v q) ≡ Dict.lookup k q
lookup-set_query name v k q other = rw (Dict.lookup-insert name k (v ∷ []) q, other) refl

StateOf-base_query :
    (cfg : OAuthConfig) (state : Str) (q : Query)
    → StateOf state q (set_some (str "state") state (base_query cfg q))
unfolding str_eq
StateOf-base_query cfg [] q =
    lookup-set_query (str "redirect_uri") _ (str "state") _ refl
    ∙ lookup-set_query (str "client_id") _ (str "state") _ refl
    ∙ lookup-set_query (str "response_type") _ (str "state") _ refl
StateOf-base_query cfg (c ∷ state) q = Only-set (str "state") (c ∷ state) _

StateOf-auth_query :
    (cfg : OAuthConfig) (state : Str) (extra : List (Str × Str)) (q : Query)
    → Unused (str "state") extra
    → StateOf state q (auth_query cfg state extra q)
unfolding str_eq
StateOf-auth_query cfg [] extra q unused =
    lookup-auth_query (str "state") cfg [] extra q refl unused ∙ StateOf-base_query cfg [] q
StateOf-auth_query cfg (c ∷ state) extra q unused =
    lookup-auth_query (str "state") cfg (c ∷ state) extra q refl unused
    ∙ StateOf-base_query cfg (c ∷ state) q

-- Whatever the query of the URL of the authorisation endpoint holds, the URL that asks for a code has
-- one response type, one client and one redirect URL, those of the configuration, and the state of the
-- call alone; if that is empty, the state stays as the endpoint's URL has it. No extra parameter may
-- have one of these names.
pub auth_query-Only :
    (cfg : OAuthConfig) (state : Str) (extra : List (Str × Str)) (q : Query)
    → Unused (str "response_type") extra
    → Unused (str "client_id") extra
    → Unused (str "redirect_uri") extra
    → Unused (str "state") extra
    → Only (str "response_type") (str "code") (auth_query cfg state extra q)
      × Only (str "client_id") cfg.client_id (auth_query cfg state extra q)
      × Only (str "redirect_uri") cfg.redirect_url (auth_query cfg state extra q)
      × StateOf state q (auth_query cfg state extra q)
unfolding str_eq
auth_query-Only cfg state extra q type client redirect own =
    let id = str "client_id" in
    let target = str "redirect_uri" in
    (
      lookup-base_query (str "response_type") cfg state extra q refl refl type
          ∙ Only-behind _ _ target _ _ refl (Only-behind _ _ id _ _ refl (Only-set _ _ q)),
      lookup-base_query id cfg state extra q refl refl client
          ∙ Only-behind _ _ target _ _ refl (Only-set _ _ _),
      lookup-base_query target cfg state extra q refl refl redirect ∙ Only-set _ _ _,
      StateOf-auth_query cfg state extra q own,
    )

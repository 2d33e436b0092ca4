-- ===== src/Middleware/Laws.antt =====
-- What the middleware and the error responses guarantee.
use elgon.Base.{
  ℕ, ◌≡◌, refl, sym, ap, ◌∙◌, true, ◌⊎◌, ◌↔◌, Option, none, some, List, [], ◌∷◌, arith, inl, inr,
  Bool-cases, Option-cases,
}
use elgon.Base.Text.{Str, str, str_eq_iff, has_prefix, trim_space}
use elgon.Base.Dict
use elgon.Base.Result.{Result, ok, Result-cases}
use elgon.Http.{
  Principal, principal, HttpError, Error, http, wrapped, plain, as_http_error, error_status,
  new_http_error, err_internal, Ctx, Reply, returned, panicked, HandlerFunc, header, get_value,
  set_value, write_error, json, write_chunk, write_header, set_header,
}
use elgon.Middleware.{
  recovered, drop_prefix, recover, contains, from_ctx, require, require_role, auth, recorded_status,
  user_context_key,
}

-- Membership in a list of texts.
abbrev pub Held : Str → List Str → Type 0
Held x [] = ⊥
Held x (y ∷ ys) = (y ≡ x) ⊎ Held x ys

contains_iff : (x : Str) (xs : List Str) → (contains xs x ≡ true) ↔ Held x xs
unfolding contains
contains_iff x [] = ((λ h. cc), λ h. elim h [ ])
contains_iff x (y ∷ ys) = ground (arith, str_eq_iff y x, contains_iff x ys)

set_header-status : (k v : Str) (c : Ctx) → (set_header k v c).response.status ≡ c.response.status
unfolding set_header
set_header-status k v c = elim (Option-cases c.response.status) [
  | inl h ↦ rw (h, set_header) h
  | inr (s, h) ↦ rw (h, set_header) h
]

set_header-kept : (k v : Str) (c : Ctx) (s : ℕ) → c.response.status ≡ some s → set_header k v c ≡ c
unfolding set_header
set_header-kept k v c s h =
    ap
      (λ o. elim o [
        | none ↦ record c {
          response = record c.response { headers = Dict.insert k v c.response.headers };
        }
        | some t ↦ c
      ])
      h

write_header-kept : (n : ℕ) (c : Ctx) (s : ℕ) → c.response.status ≡ some s → write_header n c ≡ c
unfolding write_header
write_header-kept n c s h =
    ap
      (λ o. elim o [
        | none ↦ record c { response = record c.response { status = some n } }
        | some t ↦ c
      ])
      h

write_header-fresh :
    (n : ℕ) (c : Ctx) → c.response.status ≡ none → (write_header n c).response.status ≡ some n
unfolding write_header
write_header-fresh n c h = rw (h, write_header) refl

-- A response is written once: on a context whose response has a status, an error changes neither
-- the status nor the headers.
pub write_error-once :
    (e : Error) (c : Ctx) (s : ℕ)
    → c.response.status ≡ some s
    → ((write_error e c).response.status ≡ some s)
      × ((write_error e c).response.headers ≡ c.response.headers)
unfolding write_error json write_chunk
write_error-once e c s h =
    rw
      (
        set_header-kept (str "Content-Type") (str "application/json") c s h,
        write_header-kept (error_status (as_http_error e)) c s h,
        write_header-kept 200 c s h,
      )
      (h, refl)

-- On a response with no status yet, an error gives its status, or 500 if it holds no HTTP error.
pub write_error-status :
    (e : Error) (c : Ctx)
    → c.response.status ≡ none
    → (write_error e c).response.status ≡ some (error_status (as_http_error e))
unfolding write_error json write_chunk
write_error-status e c h =
    let c1 = set_header (str "Content-Type") (str "application/json") c in
    let c2 = write_header (error_status (as_http_error e)) c1 in
    let written =
      write_header-fresh (error_status (as_http_error e)) c1 (set_header-status _ _ c ∙ h) in
    ap (λ x. x.response.status) (write_header-kept 200 c2 _ written) ∙ written

-- Two errors that hold no HTTP error get the same response: their text does not leave the server.
pub write_error-hides :
    (e e' : Error) (c : Ctx)
    → as_http_error e ≡ none
    → as_http_error e' ≡ none
    → write_error e c ≡ write_error e' c
unfolding write_error
write_error-hides e e' c h h' = rw (h, h')

-- The answer of a guard that lets a request not pass: an HTTP error, and nothing is written.
abbrev pub Refused : Ctx → Reply → Type 0
Refused c reply =
    (e : HttpError) × (reply ≡ returned (some (http e)) c) × ((e.status ≡ 401) ⊎ (e.status ≡ 403))

refused :
    (code msg : Str) (n : ℕ) (c : Ctx) (reply : Reply)
    → (n ≡ 401) ⊎ (n ≡ 403)
    → reply ≡ returned (some (new_http_error code msg none n)) c
    → Refused c reply
refused code msg n c reply status q =
    (record { code = code; message = msg; details = none; status = n }, q, status)

-- The guard on one item of the principal's lists.
abbrev pub Allowed : (Principal → List Str) → Str → Ctx → Type 0
Allowed held item c = (p : Principal) × (from_ctx c ≡ some p) × Held item (held p)

require-guards :
    (held : Principal → List Str) (refusal item : Str) (next : HandlerFunc) (c : Ctx)
    → (Allowed held item c × (require held refusal item next c ≡ next c))
      ⊎ (¬ Allowed held item c × Refused c (require held refusal item next c))
unfolding require
require-guards held refusal item next c = elim (Option-cases (from_ctx c)) [
  | inl missing ↦ inr (
    (λ allowed. let q : none ≡ some allowed.0 = sym missing ∙ allowed.1 in cc),
    refused (str "UNAUTHORIZED") (str "authentication required") 401 c _ (inl refl)
        (rw (missing, require) refl),
  )
  | inr (p, got) ↦ elim (Bool-cases (contains (held p) item)) [
    | inl holds ↦ inl ((p, got, (contains_iff _ _).0 holds), rw (got, holds, require) refl)
    | inr lacks ↦ inr (
      (λ allowed.
          let same : p ≡ allowed.0 = let q = sym got ∙ allowed.1 in cc in
          let holds = (contains_iff item (held p)).1 (rw same allowed.2) in cc),
      refused (str "FORBIDDEN") refusal 403 c _ (inr refl) (rw (got, lacks, require) refl),
    )
  ]
]

-- A guard on a role runs the handler, on the context as it is, if the context has a principal that
-- holds the role, and otherwise it returns an HTTP error with status 401 or 403, with nothing
-- written and without the handler.
pub require_role-guards :
    (role : Str) (next : HandlerFunc) (c : Ctx)
    → (Allowed (λ p. p.roles) role c × (require_role role next c ≡ next c))
      ⊎ (¬ Allowed (λ p. p.roles) role c × Refused c (require_role role next c))
unfolding require_role
require_role-guards role next c =
    require-guards (λ p. p.roles) (str "required role missing") role next c

from_ctx-set_value :
    (p : Principal) (c : Ctx) → from_ctx (set_value user_context_key (principal p) c) ≡ some p
unfolding from_ctx set_value get_value
from_ctx-set_value p c = rw (Dict.lookup-insert_self user_context_key (principal p) c.values) refl

-- Behind the authentication and a guard on a role, the handler runs only for a token that the
-- verification accepts and whose principal holds the role, with that principal in its context;
-- every other request gets an HTTP error with status 401 or 403.
pub auth-require_role :
    {E : Type 0} (verify : Str → Result E Principal) (role : Str) (next : HandlerFunc) (c : Ctx)
    → ((token : Str) × (p : Principal) × (verify token ≡ ok p)
        × Held role p.roles
        × (auth verify (require_role role next) c
            ≡ next (set_value user_context_key (principal p) c)))
      ⊎ ((c' : Ctx) × (c'.response ≡ c.response)
          × Refused c' (auth verify (require_role role next) c))
unfolding auth
auth-require_role verify role next c =
    let auth_header = header (str "Authorization") c in
    let token = trim_space (drop_prefix auth_header (str "Bearer ")) in
    elim (Bool-cases (has_prefix auth_header (str "Bearer "))) [
      | inr bare ↦ inr (
        c,
        refl,
        refused (str "UNAUTHORIZED") (str "missing bearer token") 401 c _ (inl refl)
            (rw (bare, auth) refl),
      )
      | inl bearer ↦ elim (Result-cases (verify token)) [
        | inr (e, bad) ↦ inr (
          c,
          refl,
          refused (str "UNAUTHORIZED") (str "invalid token") 401 c _ (inl refl)
              (rw (bearer, bad, auth) refl),
        )
        | inl (p, good) ↦
            let c' = set_value user_context_key (principal p) c in
            let seen = from_ctx-set_value p c in
            elim (require_role-guards role next c') [
              | inl (allowed, runs) ↦
                  let same : allowed.0 ≡ p = let q = sym allowed.1 ∙ seen in cc in
                  inl (token, p, good, rw⁻¹ same allowed.2, rw (bearer, good, auth) runs)
              | inr (lacks, (e, returns, status)) ↦
                  inr (c', unfold set_value in refl, (e, rw (bearer, good, auth) returns, status))
            ]
      ]
    ]

recover-reply : (r : Reply) → (e : Option Error) × (c' : Ctx) × (recovered r ≡ returned e c')
recover-reply (returned e c) = (e, c, refl)
recover-reply (panicked v c) = (some (err_internal v), c, refl)

-- A panic of a handler becomes an internal error: whatever the handler does, the middleware
-- returns, with the context as the handler left it.
pub recover-returns :
    (next : HandlerFunc) (c : Ctx)
    → (e : Option Error) × (c' : Ctx) × (recover next c ≡ returned e c')
unfolding recover
recover-returns next c = recover-reply (next c)

-- The error does not wrap another one.
abbrev pub IsBare : Error → Type 0
IsBare (http e) = Unit
IsBare (wrapped msg e) = ⊥
IsBare (plain msg) = Unit

-- For an error that does not wrap another one, and on a response with no status yet, the metrics
-- record the status that the error response has.
pub recorded_status-answered :
    (e : Error) (written : ℕ) (c : Ctx)
    → IsBare e
    → c.response.status ≡ none
    → (write_error e c).response.status ≡ some (recorded_status (some e) written)
unfolding recorded_status as_http_error
recorded_status-answered (http e) written c bare h = write_error-status (http e) c h
recorded_status-answered (plain msg) written c bare h = write_error-status (plain msg) c h
recorded_status-answered (wrapped msg e) written c bare h = absurd bare

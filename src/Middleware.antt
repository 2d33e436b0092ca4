-- ===== src/Middleware.antt =====
-- middleware/, the guards of auth/auth.go and the recording middleware of observability/metrics.go.
pub mod Laws
pub mod Logger
mod Tests
use Prim.Native.Nat.{◌^◌}
use elgon.Base.{
  ℕ, suc, ◌+◌, ◌%◌, ◌≡◌, refl, Bool, true, false, ◌&&◌, ◌||◌, Option, none, some, List, [], ◌∷◌,
  ◌++◌, ◌==◌, if◌then◌else◌,
}
use elgon.Base.Text.{Str, str, str_eq, join, has_prefix, trim_space}
use elgon.Base.Result.{Result, ok, err}
use elgon.Base.Dict
use elgon.Http.{
  Principal, Any, text, principal, strings, other, HttpError, Error, http, wrapped, plain,
  err_unauthorized, err_forbidden, err_internal, Ctx, Reply, returned, panicked, HandlerFunc,
  Middleware, header, set_value, get_value, set_header, write_header,
}

-- The deferred function of `Recover`: the panic's value, printed, becomes the message of an
-- internal error.
abbrev pub recovered : Reply → Reply
recovered (returned e c) = returned e c
recovered (panicked v c) = returned (some (err_internal v)) c

-- `Recover`
unfoldable pub recover : Middleware
recover next c = recovered (next c)

-- `RequestID`, with the identifier that `newRequestID` would give.
unfoldable pub request_id : Str → Middleware
unfolding header set_value set_header str_eq
request_id fresh next c =
    let given = header (str "X-Request-Id") c in
    let id = if str_eq given (str "") then fresh else given in
    next (set_header (str "X-Request-Id") id (set_value (str "request_id") (text id) c))

-- `CORSConfig`
pub record CorsConfig : Type 0 where
  pub allowed_origins : List Str
  pub allowed_methods : List Str
  pub allowed_headers : List Str

-- `contains` of auth.go; also membership in the map of origins.
unfoldable pub contains : List Str → Str → Bool
unfolding str_eq
contains [] target = false
contains (x ∷ xs) target = str_eq x target || contains xs target

-- `joinCSV`, or the default if the list is empty.
abbrev csv_or : List Str → Str → Str
csv_or [] default = default
csv_or (x ∷ xs) default = join (str ",") (x ∷ xs)

unfoldable pub cors_headers : CorsConfig → Ctx → Ctx
unfolding contains header set_header join
cors_headers cfg c =
    let origin = header (str "Origin") c in
    if contains cfg.allowed_origins origin
    then set_header (str "Access-Control-Allow-Headers")
        (csv_or cfg.allowed_headers (str "Authorization,Content-Type,X-Request-Id"))
        (set_header (str "Access-Control-Allow-Methods")
          (csv_or cfg.allowed_methods (str "GET,POST,PUT,PATCH,DELETE,OPTIONS"))
          (set_header (str "Access-Control-Allow-Origin") origin c))
    else c

-- `CORS`
unfoldable pub cors : CorsConfig → Middleware
unfolding cors_headers write_header str_eq
cors cfg next c =
    let c' = cors_headers cfg c in
    if str_eq c.method (str "OPTIONS") then returned none (write_header 204 c') else next c'

-- `SecureHeaders`
unfoldable pub secure_headers : Middleware
unfolding set_header
secure_headers next c = next (
    set_header (str "Referrer-Policy") (str "no-referrer") (
      set_header (str "X-Frame-Options") (str "DENY")
        (set_header (str "X-Content-Type-Options") (str "nosniff") c)))

abbrev pub user_context_key : Str
user_context_key = str "auth.principal"

abbrev as_principal : Option Any → Option Principal
as_principal (some (principal p)) = some p
as_principal (some (text s)) = none
as_principal (some (other n)) = none
as_principal (some (strings m)) = none
as_principal none = none

-- `FromCtx`
unfoldable pub from_ctx : Ctx → Option Principal
unfolding get_value
from_ctx c = as_principal (get_value user_context_key c)

-- What `RequireRole` and `RequirePerm` share: the list that must contain the item, and the refusal.
unfoldable pub require : (Principal → List Str) → Str → Str → Middleware
unfolding from_ctx contains
require held refusal item next c = elim (from_ctx c) [
  | none ↦ returned (some (err_unauthorized (str "authentication required"))) c
  | some p ↦ if contains (held p) item then next c else returned (some (err_forbidden refusal)) c
]

-- `RequireRole`
unfoldable pub require_role : Str → Middleware
unfolding require
require_role = require (λ p. p.roles) (str "required role missing")

-- `RequirePerm`
unfoldable pub require_perm : Str → Middleware
unfolding require
require_perm = require (λ p. p.perms) (str "required permission missing")

abbrev pub drop_prefix : Str → Str → Str
drop_prefix s [] = s
drop_prefix [] (p ∷ ps) = []
drop_prefix (c ∷ s) (p ∷ ps) = drop_prefix s ps

-- What `Auth` does with the result of `Verify`.
abbrev pub admit : {E : Type 0} → Result E Principal → Middleware
admit (err e) next c = returned (some (err_unauthorized (str "invalid token"))) c
admit (ok p) next c = next (set_value user_context_key (principal p) c)

-- `Auth` with a manager, whose `Verify` is a parameter that gives the principal of the claims.
unfoldable pub auth : {E : Type 0} → (Str → Result E Principal) → Middleware
unfolding header has_prefix trim_space set_value
auth verify next c =
    let auth_header = header (str "Authorization") c in
    if has_prefix auth_header (str "Bearer ")
    then admit (verify (trim_space (drop_prefix auth_header (str "Bearer ")))) next c
    else returned (some (err_unauthorized (str "missing bearer token"))) c

-- `metricKey`
pub record MetricKey : Type 0 where
  pub method : Str
  pub route : Str
  pub status : ℕ

-- The status that `Metrics.Middleware` records: a type assertion does not look at wrapped errors.
-- `written` is the status that its `statusWriter` holds, the last one that was written.
unfoldable pub recorded_status : Option Error → ℕ → ℕ
recorded_status (some (http e)) written = e.status
recorded_status (some (wrapped msg e)) written = 500
recorded_status (some (plain msg)) written = 500
recorded_status none written = written

unfoldable pub recorded_key : Option Error → ℕ → Ctx → MetricKey
unfolding recorded_status str_eq
recorded_key e written c = record {
  method = c.method;
  route = if str_eq c.route_pattern (str "") then c.path else c.route_pattern;
  status = recorded_status e written;
}

abbrev pub key_eq : MetricKey → MetricKey → Bool
key_eq a b = str_eq a.method b.method && str_eq a.route b.route && a.status == b.status

-- `requestsTotal[k]++` of `record`, in uint64.
unfoldable pub record_request : MetricKey → List (MetricKey × ℕ) → List (MetricKey × ℕ)
unfolding str_eq
record_request k [] = (k, 1) ∷ []
record_request k ((j, n) ∷ m) =
    if key_eq j k then (j, (n + 1) % 2 ^ 64) ∷ m else (j, n) ∷ record_request k m

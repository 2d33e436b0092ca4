-- ===== src/Middleware/Tests.antt =====
-- Runs of the middleware, and the theorems about it at concrete requests.
use elgon.Base.{ℕ, ◌≡◌, ◌⊎◌, refl, none, some, List, [], ◌∷◌}
use elgon.Base.Text.{Str, str}
use elgon.Base.Result.{Result, ok, err}
use elgon.Http.{
  Principal, principal, err_conflict, Response, Ctx, panicked, HandlerFunc, set_value, write_error,
}
use elgon.Middleware.{require_role, auth, user_context_key, recorded_status}
use elgon.Middleware.Laws.{Held, Refused, auth-require_role, recorded_status-answered}

abbrev fresh_response : Response
fresh_response = record { headers = []; status = none; body = [] }

abbrev request : Str → Str → List (Str × Str) → Ctx
request method path headers = record {
  method = method;
  path = path;
  request_headers = headers;
  params = [];
  values = [];
  route_pattern = str "";
  response = fresh_response;
}

abbrev get_users : Ctx
get_users = request (str "GET") (str "/users") ((str "Authorization", str "Bearer ada-token") ∷ [])

abbrev sent : Ctx
sent = record get_users { response = record fresh_response { status = some 200 } }

abbrev ada : Principal
ada = record { id = str "7"; email = str "ada@x"; roles = str "admin" ∷ []; perms = [] }

-- A verification that knows no token but the empty one.
abbrev verify : Str → Result ℕ Principal
verify [] = err 0
verify (c ∷ s) = ok ada

abbrev handler : HandlerFunc
handler c = panicked (str "boom") c

auth_runs :
    auth verify (require_role (str "admin") handler) get_users
    ≡ panicked (str "boom") (set_value user_context_key (principal ada) get_users)
unfolding auth require_role set_value
auth_runs = refl

auth-require_role_example :
    ((token : Str) × (p : Principal) × (verify token ≡ ok p)
      × Held (str "admin") p.roles
      × (auth verify (require_role (str "admin") handler) get_users
          ≡ handler (set_value user_context_key (principal p) get_users)))
    ⊎ ((c' : Ctx) × (c'.response ≡ get_users.response)
        × Refused c' (auth verify (require_role (str "admin") handler) get_users))
auth-require_role_example = auth-require_role verify (str "admin") handler get_users

recorded_status-answered_example :
    (write_error (err_conflict (str "taken")) get_users).response.status
    ≡ some (recorded_status (some (err_conflict (str "taken"))) 200)
recorded_status-answered_example =
    recorded_status-answered (err_conflict (str "taken")) 200 get_users tt refl

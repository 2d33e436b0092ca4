-- ===== src/App/Setup/Laws.antt =====
-- app.go: what a new application serves.
use elgon.Base.{
  ◌≡◌, refl, ap, inl, inr, Bool, true, false, Option, none, some, [], ◌∷◌, map, Bool-cases,
}
use elgon.Base.Text.{Str, str}
use elgon.Base.Int.{pos}
use elgon.Path.{split_path, normalize_path, parse_segments}
use elgon.Router.{RouteEntry, entry, find, add}
use elgon.Router.View.{lit}
use elgon.Router.Register.{route_at}
use elgon.Router.Static.{find-literal}
use elgon.Http.{strings, json_value, Ctx, returned, HandlerFunc, json}
use elgon.App.{App, new_app, chain, route, dispatch, finish, serve_http}
use elgon.App.Setup.{Config, with_defaults, register_default_health_routes, app_verb, health, new}

-- What a handler gets of a request for a route without parameters.
abbrev matched : Str → Ctx → Ctx
matched pattern c = record c { params = []; values = []; route_pattern = pattern }

-- The application serves, to a GET request, a handler that is stored under a path without parameters.
serve_http-stored :
    (a : App) (path : Str) (h : HandlerFunc) (c : Ctx)
    → c.method ≡ str "GET"
    → split_path c.path ≡ split_path path
    → route_at (str "GET") (map lit (split_path path)) a.router ≡ some (entry (str "GET") path h)
    → serve_http a c ≡ finish (h (matched path c))
unfolding serve_http
serve_http-stored a path h c same_method same_parts stored =
    let e : RouteEntry HandlerFunc = entry (str "GET") path h in
    let found : find c.method c.path a.router ≡ (some e, []) =
      find-literal c.method c.path a.router e (rw (same_method, same_parts) stored) in
    ap (λ x. dispatch x c) found

abbrev or_new : Option App → App
or_new none = new_app
or_new (some a) = a

-- A new application with the health route, and with the metrics stub or not.
unfoldable default_app : Bool → App
unfolding new
default_app stub = or_new (
    new (record {
      addr = [];
      read_timeout = pos 0;
      write_timeout = pos 0;
      idle_timeout = pos 0;
      shutdown_timeout = pos 0;
      disable_healthz = false;
      enable_metrics_stub = stub;
    }))

-- A new application, unless health checks are disabled, answers GET requests for "/health" with status
-- 200 and the state, whether it has the metrics stub or not.
pub new-health :
    (cfg : Config) (c : Ctx)
    → cfg.disable_healthz ≡ false
    → c.method ≡ str "GET"
    → split_path c.path ≡ str "health" ∷ []
    → (a : App) × (new cfg ≡ some a)
      × (serve_http a c
          ≡ returned none (
              json 200
                (json_value (strings ((str "status", str "ok") ∷ [])))
                (matched (str "/health") c)))
unfolding new default_app with_defaults app_verb register_default_health_routes route normalize_path
    add chain health parse_segments route_at
new-health cfg c on same_method same_parts = elim (Bool-cases cfg.enable_metrics_stub) [
  | inl stub ↦ (
    default_app true,
    rw (on, stub) refl,
    serve_http-stored (default_app true) (str "/health") health c same_method same_parts refl,
  )
  | inr plain ↦ (
    default_app false,
    rw (on, plain) refl,
    serve_http-stored (default_app false) (str "/health") health c same_method same_parts refl,
  )
]

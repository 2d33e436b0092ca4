-- ===== src/App/Setup.antt =====
-- app.go, config.go, group.go and named_route.go: the configuration, a new application with its
-- default routes, and registrations by verb. The server and the database accessors are left out.
pub mod Laws
use elgon.Base.{
  ℕ, zero, suc, ◌*◌, Bool, true, false, not, Option, none, some, List, [], ◌∷◌, if◌then◌else◌,
}
use elgon.Base.Int.{ℤ, pos, negsuc}
use elgon.Base.Text.{Str, str, str_eq}
use elgon.Base.Optional.{◌>>=◌}
use elgon.Http.{strings, json_value, Reply, returned, HandlerFunc, Middleware, json, text_reply}
use elgon.App.{App, RouteInfo, Group, new_app, route, group_route, named_route}

-- `Config`; a duration is a number of nanoseconds.
pub record Config : Type 0 where
  pub addr : Str
  pub read_timeout : ℤ
  pub write_timeout : ℤ
  pub idle_timeout : ℤ
  pub shutdown_timeout : ℤ
  pub disable_healthz : Bool
  pub enable_metrics_stub : Bool

abbrev seconds : ℕ → ℤ
seconds n = pos (n * 1000000000)

abbrev or_duration : ℤ → ℤ → ℤ
or_duration default (pos zero) = default
or_duration default (pos (suc n)) = pos (suc n)
or_duration default (negsuc n) = negsuc n

abbrev or_addr : Str → Str
or_addr [] = str ":8080"
or_addr (c ∷ s) = c ∷ s

-- `withDefaults`
unfoldable pub with_defaults : Config → Config
with_defaults cfg = record cfg {
  addr = or_addr cfg.addr;
  read_timeout = or_duration (seconds 5) cfg.read_timeout;
  write_timeout = or_duration (seconds 10) cfg.write_timeout;
  idle_timeout = or_duration (seconds 30) cfg.idle_timeout;
  shutdown_timeout = or_duration (seconds 10) cfg.shutdown_timeout;
}

-- The verbs that have a method for registrations.
pub data Verb : Type 0 where
  get post put patch delete : Verb

-- `http.MethodGet` and so on.
abbrev pub verb_text : Verb → Str
verb_text get = str "GET"
verb_text post = str "POST"
verb_text put = str "PUT"
verb_text patch = str "PATCH"
verb_text delete = str "DELETE"

-- The methods `GET`, `POST`, `PUT`, `PATCH` and `DELETE` of `App`, of `Group` and of `NamedRoute`.
unfoldable pub app_verb : Verb → Str → HandlerFunc → List Middleware → App → Option App
unfolding route
app_verb verb = route (verb_text verb)

unfoldable pub group_verb : Group → Verb → Str → HandlerFunc → List Middleware → App → Option App
unfolding group_route
group_verb g verb = group_route g (verb_text verb)

unfoldable pub named_verb : Str → Verb → Str → HandlerFunc → List Middleware → App → Option App
unfolding named_route
named_verb name verb = named_route name (verb_text verb)

-- The handlers of the default routes.
unfoldable pub health : HandlerFunc
unfolding json
health c = returned none (json 200 (json_value (strings ((str "status", str "ok") ∷ []))) c)

unfoldable pub metrics_stub : HandlerFunc
unfolding text_reply
metrics_stub c = returned none (text_reply 200 (str "# metrics stub\n") c)

abbrev when : Bool → (App → Option App) → App → Option App
when true step a = step a
when false step a = some a

-- `registerDefaultHealthRoutes`
unfoldable pub register_default_health_routes : App → Option App
unfolding app_verb health
register_default_health_routes = app_verb get (str "/health") health []

-- `New`; `none` where the router panics.
unfoldable pub new : Config → Option App
unfolding register_default_health_routes app_verb metrics_stub with_defaults
new given =
    let cfg = with_defaults given in
    do
      a ← when (not cfg.disable_healthz) register_default_health_routes new_app
      when cfg.enable_metrics_stub (app_verb get (str "/metrics") metrics_stub []) a

-- `Routes` and `Plugins`
abbrev pub routes : App → List RouteInfo
routes a = a.routes

abbrev pub plugins : App → List Str
plugins a = a.plugins

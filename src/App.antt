-- ===== src/App.antt =====
-- app.go, group.go and named_route.go: the application, its registrations, and `ServeHTTP`.
pub mod Laws
pub mod Setup
pub mod Data
mod Tests
use mathlib.Core.Option
use elgon.Base.{
  ℕ, ◌≡◌, refl, Bool, true, false, ◌&&◌, Option, none, some, List, [], ◌∷◌, ◌++◌, if◌then◌else◌,
}
use elgon.Base.Text.{Str, str, str_eq}
use elgon.Base.Dict
use elgon.Base.Result.{Result, ok, err}
use elgon.Path.{normalize_path}
use elgon.Router.{RouteEntry, RouteParam, Router, new_router, add, find}
use elgon.Http.{
  Error, err_not_found, err_internal, err_conflict, Response, Ctx, Reply, returned, panicked,
  HandlerFunc, Middleware, write_error,
}

-- `RouteInfo`
pub record RouteInfo : Type 0 where
  pub method : Str
  pub path : Str

-- `App`, without the server and the database accessors; of a plugin the name is kept.
pub record App : Type 0 where
  pub router : Router HandlerFunc
  pub global_mw : List Middleware
  pub named : List (Str × Str)
  pub routes : List RouteInfo
  pub plugins : List Str

abbrev pub new_app : App
new_app = record { router = new_router; global_mw = []; named = []; routes = []; plugins = [] }

-- `chain`: the first middleware is the outermost.
unfoldable pub chain : HandlerFunc → List Middleware → HandlerFunc
chain h [] = h
chain h (mw ∷ mws) = mw (chain h mws)

-- `Use`
unfoldable pub use_mw : List Middleware → App → App
use_mw mws a = record a { global_mw = a.global_mw ++ mws }

-- `route`; `none` where the router panics.
unfoldable pub route : Str → Str → HandlerFunc → List Middleware → App → Option App
unfolding normalize_path add chain
route method path h mws a =
    let full = normalize_path path in
    Option.map
      (λ r. record a {
        router = r;
        routes = a.routes ++ record { method = method; path = full } ∷ [];
      })
      (add method full (chain h (a.global_mw ++ mws)) a.router)

-- `Group`, without its pointer to the application.
pub record Group : Type 0 where
  pub prefix : Str
  pub mw : List Middleware

-- `App.Group` and `Group.Group`
unfoldable pub new_group : Str → List Middleware → Group
unfolding normalize_path
new_group prefix mws = record { prefix = normalize_path prefix; mw = mws }

unfoldable pub sub_group : Str → List Middleware → Group → Group
unfolding normalize_path
sub_group prefix mws g = record {
  prefix = normalize_path (g.prefix ++ normalize_path prefix);
  mw = g.mw ++ mws;
}

abbrev pub group_path : Group → Str → Str
group_path g path = normalize_path (g.prefix ++ normalize_path path)

-- `route` of group.go
unfoldable pub group_route : Group → Str → Str → HandlerFunc → List Middleware → App → Option App
unfolding route
group_route g method path h mws = route method (group_path g path) h (g.mw ++ mws)

-- `route` of named_route.go
unfoldable pub named_route : Str → Str → Str → HandlerFunc → List Middleware → App → Option App
unfolding route Dict.insert
named_route name method path h mws a =
    route method path h mws (record a { named = Dict.insert name (normalize_path path) a.named })

-- A plugin: its name, and `Init`, which may change the application and fail.
pub record Plugin : Type 0 where
  pub name : Str
  pub init : App → Option Error × App

unfoldable pub member : Str → List Str → Bool
unfolding str_eq
member name [] = false
member name (x ∷ xs) = if str_eq x name then true else member name xs

-- `RegisterPlugins`, over plugins that are not nil: the error, if any, and the application as far
-- as it was changed.
unfoldable pub register_plugins : List Plugin → App → Option Error × App
unfolding member str_eq
register_plugins [] a = (none, a)
register_plugins (p ∷ ps) a =
    let run = p.init a in
    let rest = register_plugins ps (record run.1 { plugins = run.1.plugins ++ p.name ∷ [] }) in
    let started : Option Error × App = elim run.0 [ some e ↦ (some e, run.1) | none ↦ rest ] in
    if str_eq p.name (str "")
    then (some (err_internal (str "plugin name must not be empty")), a)
    else if member p.name a.plugins
    then (some (err_conflict (str "plugin already registered: " ++ p.name)), a)
    else started

abbrev reset_params : List RouteParam → Ctx → Ctx
reset_params params c = record c { params = params; values = []; route_pattern = str "" }

abbrev finish : Reply → Reply
finish (returned none c) = returned none c
finish (returned (some e) c) = returned none (write_error e c)
finish (panicked v c) = panicked v c

abbrev dispatch : Option (RouteEntry HandlerFunc) × List RouteParam → Ctx → Reply
dispatch (none, params) c =
    returned none (write_error (err_not_found (str "route not found")) (reset_params params c))
dispatch (some e, params) c =
    finish (e.h (record (reset_params params c) { route_pattern = e.path }))

-- `ServeHTTP`, on the context that the pool gives for the request. A panic reaches the server.
unfoldable pub serve_http : App → Ctx → Reply
unfolding find write_error
serve_http a c = dispatch (find c.method c.path a.router) c

-- ===== src/App/Tests.antt =====
-- Runs of the application, and the theorems about it at a concrete application.
use elgon.Base.{◌≡◌, refl, Option, none, some, [], ◌∷◌, ◌++◌}
use elgon.Base.Text.{Str, str}
use elgon.Http.{err_conflict, Ctx, returned, HandlerFunc, Middleware}
use elgon.Path.{normalize_path, parse_segments}
use elgon.App.{App, new_app, chain, use_mw, route, finish, serve_http}
use elgon.Base.Int.{pos}
use elgon.Base.{true, false}
use elgon.App.Setup.{Config}
use elgon.Base.{◌⊎◌}
use elgon.App.Data.{
  Client, Data, new_data, set_sql, orm_locked, orm, here, sql_set, MadeOf, orm-MadeOf,
}
use elgon.App.Laws.{serve_http-route}

abbrev get : Str → Ctx
get path = record {
  method = str "GET";
  path = path;
  request_headers = [];
  params = [];
  values = [];
  route_pattern = str "";
  response = record { headers = []; status = none; body = [] };
}

abbrev handler : HandlerFunc
handler c = returned (some (err_conflict (str "taken"))) c

-- Middleware that leaves its name in the parameters' place: it prefixes the path.
abbrev named : Str → Middleware
named name next c = next (record c { path = name ++ c.path })

abbrev app : App
app = use_mw (named (str "a") ∷ []) new_app

abbrev or_app : Option App → App
or_app none = new_app
or_app (some a) = a

unfoldable served : App
unfolding route
served = or_app (route (str "GET") (str "users") handler (named (str "b") ∷ []) app)

serve_http-route_example :
    serve_http served (get (str "/users/"))
    ≡ finish (
        chain
          (chain handler (named (str "b") ∷ []))
          (named (str "a") ∷ [])
          (record (get (str "/users/")) { route_pattern = str "/users" }))
unfolding served route use_mw normalize_path parse_segments
serve_http-route_example =
    serve_http-route (str "GET") (str "users") handler (named (str "b") ∷ []) app served
      (get (str "/users/")) refl refl refl refl

abbrev standard : Config
standard = record {
  addr = [];
  read_timeout = pos 0;
  write_timeout = pos 0;
  idle_timeout = pos 0;
  shutdown_timeout = pos 0;
  disable_healthz = false;
  enable_metrics_stub = true;
}

abbrev old : Data Str
old = record (new_data Str) { sql_db = some (str "old") }

abbrev fresh : Data Str
fresh = record (new_data Str) { sql_db = some (str "new") }

abbrev fresh_client : Client Str
fresh_client = record { adapter = str "new"; dialect = [] }

-- A call reads the data before another one sets an adapter, and makes its client of the new one.
orm-MadeOf_example : MadeOf Str old fresh_client ⊎ MadeOf Str fresh fresh_client
unfolding set_sql orm orm_locked
orm-MadeOf_example =
    orm-MadeOf Str old fresh fresh_client (sql_set (some (str "old")) (here (new_data Str)))
      (sql_set (some (str "new")) (here old)) refl

-- ===== src/App/Laws.antt =====
-- Which handler serves a request, and in which order the middleware runs.
use elgon.Base.{◌≡◌, refl, ap, ◌∙◌, true, none, some, List, [], ◌∷◌, ◌++◌, map, map-eq-some}
use elgon.Base.Text.{Str, str, str_eq_refl}
use elgon.Path.{split_path, normalize_path}
use elgon.Router.{entry, add, find}
use elgon.Router.View.{lit, steps_of, steps_eq, steps_eq_refl}
use elgon.Router.Register.{route_at-add}
use elgon.Router.Static.{find-literal}
use elgon.Http.{err_not_found, Ctx, returned, HandlerFunc, Middleware}
use elgon.Middleware.Laws.{write_error-status}
use elgon.App.{
  App, chain, route, Group, group_path, group_route, finish, dispatch, serve_http, reset_params,
}

-- Two lists of middleware in a row: the first list stands outside.
pub chain-append :
    (h : HandlerFunc) (xs ys : List Middleware) → chain h (xs ++ ys) ≡ chain (chain h ys) xs
unfolding chain
chain-append h [] ys = refl
chain-append h (x ∷ xs) ys = ap x (chain-append h xs ys)

-- The route that a registration under a path without parameters leaves for the requests that
-- spell that path.
route-find :
    (method path : Str) (h : HandlerFunc) (mws : List Middleware) (a a' : App) (c : Ctx)
    → route method path h mws a ≡ some a'
    → steps_of (normalize_path path) ≡ map lit (split_path path)
    → c.method ≡ method
    → split_path c.path ≡ split_path path
    → find c.method c.path a'.router
      ≡ (some (entry method (normalize_path path) (chain h (a.global_mw ++ mws))), [])
unfolding route
route-find method path h mws a a' c added literal same_method same_parts =
    let full = normalize_path path in
    let run = chain h (a.global_mw ++ mws) in
    let (r, stored, q) = map-eq-some _ (add method full run a.router) added in
    let law = route_at-add method full run a.router r method (map lit (split_path path)) stored in
    let same : steps_eq (steps_of full) (map lit (split_path path)) ≡ true =
      rw literal (steps_eq_refl _) in
    find-literal c.method c.path a'.router (entry method full run)
      (rw (same_method, same_parts, q) (rw (str_eq_refl method, same) at law))

-- After a registration under a path without parameters, a request with the same method and the
-- same parts runs the handler inside the middleware of the application and of the route, the
-- application's outside, with no parameters; leading and trailing slashes make no difference.
pub serve_http-route :
    (method path : Str) (h : HandlerFunc) (mws : List Middleware) (a a' : App) (c : Ctx)
    → route method path h mws a ≡ some a'
    → steps_of (normalize_path path) ≡ map lit (split_path path)
    → c.method ≡ method
    → split_path c.path ≡ split_path path
    → serve_http a' c
      ≡ finish (
          chain
            (chain h mws)
            a.global_mw
            (record c { params = []; values = []; route_pattern = normalize_path path }))
unfolding serve_http
serve_http-route method path h mws a a' c added literal same_method same_parts =
    ap (λ found. dispatch found c)
      (route-find method path h mws a a' c added literal same_method same_parts)
    ∙ ap
        (λ k.
          finish (k (record c { params = []; values = []; route_pattern = normalize_path path })))
        (chain-append h a.global_mw mws)

-- After a registration through a group, such a request runs the group's middleware between the
-- application's and the route's own.
pub serve_http-group_route :
    (g : Group) (method path : Str) (h : HandlerFunc) (mws : List Middleware) (a a' : App) (c : Ctx)
    → group_route g method path h mws a ≡ some a'
    → steps_of (normalize_path (group_path g path)) ≡ map lit (split_path (group_path g path))
    → c.method ≡ method
    → split_path c.path ≡ split_path (group_path g path)
    → serve_http a' c
      ≡ finish (
          chain (chain (chain h mws) g.mw) a.global_mw (record c {
            params = [];
            values = [];
            route_pattern = normalize_path (group_path g path);
          }))
unfolding group_route
serve_http-group_route g method path h mws a a' c added literal same_method same_parts =
    serve_http-route method (group_path g path) h (g.mw ++ mws) a a' c added literal same_method
      same_parts
    ∙ ap
        (λ k. finish (
          chain k a.global_mw (record c {
            params = [];
            values = [];
            route_pattern = normalize_path (group_path g path);
          })))
        (chain-append h g.mw mws)

-- A request that no route covers gets the status 404, unless the context has written one before;
-- no handler and no middleware runs.
pub serve_http-not_found :
    (a : App) (c : Ctx)
    → (find c.method c.path a.router).0 ≡ none
    → c.response.status ≡ none
    → (c' : Ctx) × (serve_http a c ≡ returned none c') × (c'.response.status ≡ some 404)
unfolding serve_http
serve_http-not_found a c missing fresh =
    let params = (find c.method c.path a.router).1 in
    (
      _,
      ap (λ o. dispatch (o, params) c) missing,
      write_error-status (err_not_found (str "route not found")) (reset_params params c) fresh,
    )

-- ===== src/Router/Tests.antt =====
-- Runs of the router, and the theorems about it at a concrete router.
use elgon.Base.{ℕ, ◌≡◌, refl, ◌↔◌, false, Option, none, some, [], ◌∷◌}
use elgon.Base.Text.{str, str_eq}
use elgon.Path.{split_path, parse_segments}
use elgon.Router.{RouteEntry, entry, Router, new_router, add, find}
use elgon.Router.View.{lit, any, steps_eq}
use elgon.Router.Register.{wildcards_last, add-eq-none_iff, route_at, route_at-add}
use elgon.Router.Sound.{register_all, Served, find-Served}
use elgon.Router.Static.{find-literal}

-- Three routes, whose handlers are numbers.
abbrev me : RouteEntry ℕ
me = entry (str "GET") (str "/users/me") 1

abbrev user_posts : RouteEntry ℕ
user_posts = entry (str "GET") (str "/users/:id/posts") 2

abbrev files : RouteEntry ℕ
files = entry (str "GET") (str "/files/*path") 3

abbrev or_empty : Option (Router ℕ) → Router ℕ
or_empty none = new_router
or_empty (some r) = r

unfoldable routes : Router ℕ
unfolding register_all
routes = or_empty (register_all (me ∷ user_posts ∷ files ∷ []) new_router)

find_runs :
    find (str "GET") (str "/files/a/b") routes
    ≡ (some files, record { key = str "path"; value = str "a/b" } ∷ [])
unfolding routes add find
find_runs = refl

-- The static child of a node shadows its parameter child.
find_shadows : find (str "GET") (str "/users/me/posts") routes ≡ (none, [])
unfolding routes add find
find_shadows = refl

abbrev named_posts : RouteEntry ℕ
named_posts = entry (str "GET") (str "/users/:name/posts") 5

abbrev user : RouteEntry ℕ
user = entry (str "GET") (str "/users/:id") 4

-- The parameter of a node keeps the name that it was first registered with.
find_first_name :
    find
      (str "GET")
      (str "/users/7/posts")
      (or_empty (register_all (user ∷ named_posts ∷ []) new_router))
    ≡ (some named_posts, record { key = str "id"; value = str "7" } ∷ [])
unfolding register_all add find
find_first_name = refl

find-Served_example :
    Served
      (me ∷ user_posts ∷ files ∷ [])
      (str "GET")
      (str "/users/7/posts/")
      user_posts
      (record { key = str "id"; value = str "7" } ∷ [])
unfolding routes register_all add find
find-Served_example =
    find-Served (me ∷ user_posts ∷ files ∷ []) routes (str "GET") (str "/users/7/posts/") user_posts
      (record { key = str "id"; value = str "7" } ∷ []) refl refl

find-literal_example : find (str "GET") (str "/users/me/") routes ≡ (some me, [])
unfolding routes add route_at split_path str_eq
find-literal_example = find-literal (str "GET") (str "/users/me/") routes me refl

add-eq-none_iff_example :
    (add (str "GET") (str "/files/*path/raw") 4 routes ≡ none)
    ↔ (wildcards_last (parse_segments (str "/files/*path/raw")) ≡ false)
add-eq-none_iff_example = add-eq-none_iff (str "GET") (str "/files/*path/raw") 4 routes

-- A route with another parameter name under the pattern of `user_posts` replaces it.
abbrev posts : RouteEntry ℕ
posts = entry (str "GET") (str "/users/:name/posts") 5

unfoldable more_routes : Router ℕ
unfolding add
more_routes = or_empty (add (str "GET") (str "/users/:name/posts") 5 routes)

route_at-add_example :
    route_at (str "GET") (lit (str "users") ∷ any ∷ lit (str "posts") ∷ []) more_routes ≡ some posts
unfolding routes more_routes add str_eq steps_eq parse_segments
route_at-add_example =
    route_at-add (str "GET") (str "/users/:name/posts") 5 routes more_routes (str "GET")
      (lit (str "users") ∷ any ∷ lit (str "posts") ∷ []) refl

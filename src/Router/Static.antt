-- ===== src/Router/Static.antt =====
-- A request whose path is spelled like a route without parameters gets that route.
use elgon.Base.{
  ◌≡◌, ◌∙◌, sym, ◌||◌, none, some, List, [], ◌∷◌, map, inl, inr, Bool-cases, Option-cases,
}
use elgon.Base.Text.{Str, str, str_eq}
use elgon.Base.Dict
use elgon.Path.{split_path}
use elgon.Path.Laws.{split_path-root}
use elgon.Router.{
  RouteEntry, Node, node, RouteParam, Router, get_child, find_parts, find, find_root,
}
use elgon.Router.View.{lit, at, at-new_node}
use elgon.Router.Register.{route_at}

module _ {H : Type 0} where
  find_parts-literal :
      (n : Node H) (parts : List Str) (params : List RouteParam) (e : RouteEntry H)
      → at n (map lit parts) ≡ some e
      → find_parts n parts params ≡ (some e, params)
  unfolding at find_parts
  find_parts-literal (node c p w r) [] params e h = rw h
  find_parts-literal (node c p w r) (part ∷ parts) params e h =
      elim (Option-cases (get_child part c)) [
        | inl missing ↦ let q : none ≡ some e = rw (missing, at) at h in cc
        | inr (n, got) ↦
            rw (got, find_parts) (find_parts-literal n parts params e (rw (got, at) at h))
      ]

  find_root-literal :
      (root : Node H) (path : Str) (e : RouteEntry H)
      → at root (map lit (split_path path)) ≡ some e
      → find_root (some root) path ≡ (some e, [])
  find_root-literal (node c p w r) path e h =
      elim (Bool-cases (str_eq path (str "/") || str_eq path (str ""))) [
        | inl short ↦
            let stored : r ≡ some e = unfold at in rw (split_path-root path short) at h in
            rw (short, stored)
        | inr long ↦ rw long (find_parts-literal _ _ [] e h)
      ]

  -- If the router stores a route under the parts of the request's path, read literally, `find`
  -- returns that route and no parameters, whatever other routes cover the path too.
  pub find-literal :
      (method path : Str) (r : Router H) (e : RouteEntry H)
      → route_at method (map lit (split_path path)) r ≡ some e
      → find method path r ≡ (some e, [])
  unfolding find route_at
  find-literal method path r e h = elim (Option-cases (Dict.lookup method r)) [
    | inl missing ↦ let q : none ≡ some e = sym (at-new_node {H = H} _) ∙ (rw missing at h) in cc
    | inr (root, got) ↦ rw got (find_root-literal root path e (rw got at h))
  ]

-- ===== src/Router.antt =====
-- router.go: the tree of routes, registration (`add`) and dispatch (`find`).
pub mod View
pub mod Register
pub mod Dispatch
pub mod Sound
pub mod Static
mod Tests
use mathlib.Core.Option
use elgon.Base.{
  ◌≡◌, refl, Bool, true, false, ◌||◌, Option, none, some, List, [], ◌∷◌, ◌++◌, if◌then◌else◌,
}
use elgon.Base.Text.{Str, str, str_eq, join}
use elgon.Base.Dict
use elgon.Path.{RouteSegment, static, param, wildcard, split_path, parse_segments}

-- `routeEntry`; the handler is of any type.
pub record RouteEntry (H : Type 0) : Type 0 where
  pub h : H
  pub method : Str
  pub path : Str

-- `node`: the map `static`, the parameter child and the wildcard child with their names, the route.
mutual
  pub data Node (H : Type 0) : Type 0 where
    node : Children H → Slot H → Slot H → Option (RouteEntry H) → Node H

  pub data Children (H : Type 0) : Type 0 where
    end : Children H
    edge : Str → Node H → Children H → Children H

  pub data Slot (H : Type 0) : Type 0 where
    vacant : Slot H
    child : Str → Node H → Slot H

-- `routeParam`
pub record RouteParam : Type 0 where
  pub key : Str
  pub value : Str

module _ {H : Type 0} where
  -- `newNode`
  abbrev pub new_node : Node H
  new_node = node end vacant vacant none

  -- `curr.static[part]`
  unfoldable pub get_child : Str → Children H → Option (Node H)
  get_child part end = none
  get_child part (edge v n c) = if str_eq v part then some n else get_child part c

  -- `curr.static[part] = nxt`
  unfoldable pub put_child : Str → Node H → Children H → Children H
  put_child part n end = edge part n end
  put_child part n (edge v m c) =
      if str_eq v part then edge part n c else edge v m (put_child part n c)

  abbrev pub or_new : Option (Node H) → Node H
  or_new none = new_node
  or_new (some n) = n

  abbrev pub slot_node : Slot H → Node H
  slot_node vacant = new_node
  slot_node (child name n) = n

  -- The name that was given first stays.
  abbrev pub slot_name : Str → Slot H → Str
  slot_name v vacant = v
  slot_name v (child name n) = name

  -- The loop of `add` over the segments; `none` is the panic "wildcard segment must be last".
  unfoldable pub add_segments : List RouteSegment → RouteEntry H → Node H → Option (Node H)
  unfolding get_child put_child
  add_segments [] e (node c p w r) = some (node c p w (some e))
  add_segments (static v ∷ segs) e (node c p w r) =
      Option.map (λ n. node (put_child v n c) p w r) (add_segments segs e (or_new (get_child v c)))
  add_segments (param v ∷ segs) e (node c p w r) =
      Option.map (λ n. node c (child (slot_name v p) n) w r) (add_segments segs e (slot_node p))
  add_segments (wildcard v ∷ []) e (node c p w r) =
      Option.map (λ n. node c p (child (slot_name v w) n) r) (add_segments [] e (slot_node w))
  add_segments (wildcard v ∷ seg ∷ segs) e (node c p w r) = none

  abbrev pub route_of : Node H → Option (RouteEntry H)
  route_of (node c p w r) = r

  -- The loop of `find` over the parts; the route is `none` where the third result is false.
  unfoldable pub find_parts :
      Node H → List Str → List RouteParam → Option (RouteEntry H) × List RouteParam
  unfolding get_child join
  find_parts (node c p w r) [] params = (r, params)
  find_parts (node c p w r) (part ∷ parts) params = elim (get_child part c) [
    | some n ↦ find_parts n parts params
    | none ↦ elim p [
      | child name n ↦ find_parts n parts (params ++ record { key = name; value = part } ∷ [])
      | vacant ↦ elim w [
        | child name n ↦ (
          route_of n,
          params ++ record { key = name; value = join (str "/") (part ∷ parts) } ∷ [],
        )
        | vacant ↦ (none, params)
      ]
    ]
  ]

-- `router`: the roots by method.
abbrev pub Router : Type 0 → Type 0
Router H = List (Str × Node H)

module _ {H : Type 0} where
  -- `newRouter`
  abbrev pub new_router : Router H
  new_router = []

  abbrev pub entry : Str → Str → H → RouteEntry H
  entry method path h = record { h = h; method = method; path = path }

  abbrev pub root_of : Str → Router H → Node H
  root_of method r = or_new (Dict.lookup method r)

  -- `add`
  unfoldable pub add : Str → Str → H → Router H → Option (Router H)
  unfolding Dict.lookup Dict.insert parse_segments add_segments
  add method path h r =
      Option.map (λ root. Dict.insert method root r)
        (add_segments (parse_segments path) (entry method path h) (root_of method r))

  abbrev find_root : Option (Node H) → Str → Option (RouteEntry H) × List RouteParam
  find_root none path = (none, [])
  find_root (some root) path =
      if str_eq path (str "/") || str_eq path (str "")
      then (route_of root, [])
      else find_parts root (split_path path) []

  -- `find`
  unfoldable pub find : Str → Str → Router H → Option (RouteEntry H) × List RouteParam
  unfolding Dict.lookup find_parts split_path str_eq
  find method path r = find_root (Dict.lookup method r) path

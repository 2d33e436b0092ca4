-- ===== src/Router/Register.antt =====
-- Registration of a route, on the whole router.
use elgon.Base.{
  ◌≡◌, ap, ◌∙◌, ◌↔◌, Bool, true, false, ◌&&◌, Option, none, some, List, [], ◌∷◌, arith, inl, inr,
  Bool-cases, map-eq-some, map-eq-none_iff, if◌then◌else◌,
}
use elgon.Base.Text.{Str, str_eq, str_eq_iff}
use elgon.Base.Dict
use elgon.Path.{RouteSegment, static, param, wildcard, parse_segments}
use elgon.Router.{
  RouteEntry, entry, Node, node, get_child, put_child, child, or_new, slot_node, slot_name,
  add_segments, Router, root_of, add,
}
use elgon.Router.View.{Step, steps_of, steps_eq, at, at-add_segments}

-- The wildcards of a pattern, if any, stand last.
unfoldable pub wildcards_last : List RouteSegment → Bool
wildcards_last [] = true
wildcards_last (wildcard v ∷ seg ∷ segs) = false
wildcards_last (seg ∷ segs) = wildcards_last segs

module _ {H : Type 0} where
  add_segments-eq-none_iff :
      (segs : List RouteSegment) (e : RouteEntry H) (n : Node H)
      → (add_segments segs e n ≡ none) ↔ (wildcards_last segs ≡ false)
  unfolding add_segments wildcards_last
  add_segments-eq-none_iff [] e (node c p w r) = ground arith
  add_segments-eq-none_iff (static v ∷ segs) e (node c p w r) =
      let later = add_segments-eq-none_iff segs e (or_new (get_child v c)) in
      let here =
        map-eq-none_iff (λ n. node (put_child v n c) p w r)
          (add_segments segs e (or_new (get_child v c))) in
      (λ h. later.0 (here.0 h), λ h. here.1 (later.1 h))
  add_segments-eq-none_iff (param v ∷ segs) e (node c p w r) =
      let later = add_segments-eq-none_iff segs e (slot_node p) in
      let here =
        map-eq-none_iff (λ n. node c (child (slot_name v p) n) w r)
          (add_segments segs e (slot_node p)) in
      (λ h. later.0 (here.0 h), λ h. here.1 (later.1 h))
  add_segments-eq-none_iff (wildcard v ∷ []) e (node c p w r) =
      let later = add_segments-eq-none_iff [] e (slot_node w) in
      let here =
        map-eq-none_iff (λ n. node c p (child (slot_name v w) n) r)
          (add_segments [] e (slot_node w)) in
      (λ h. later.0 (here.0 h), λ h. here.1 (later.1 h))
  add_segments-eq-none_iff (wildcard v ∷ x ∷ segs) e (node c p w r) = ground arith

  -- Registration panics exactly when a wildcard stands before the last segment of the path.
  pub add-eq-none_iff :
      (method path : Str) (h : H) (r : Router H)
      → (add method path h r ≡ none) ↔ (wildcards_last (parse_segments path) ≡ false)
  unfolding add
  add-eq-none_iff method path h r =
      let e = entry method path h in
      let here =
        map-eq-none_iff (λ root. Dict.insert method root r)
          (add_segments (parse_segments path) e (root_of method r)) in
      let later = add_segments-eq-none_iff (parse_segments path) e (root_of method r) in
      (λ q. later.0 (here.0 q), λ q. here.1 (later.1 q))

  -- The route that a router stores under a method and a pattern.
  unfoldable pub route_at : Str → List Step → Router H → Option (RouteEntry H)
  unfolding at Dict.lookup
  route_at method steps r = at (root_of method r) steps

  root_of-insert :
      (method j : Str) (root : Node H) (r : Router H)
      → root_of j (Dict.insert method root r) ≡ (if str_eq method j then root else root_of j r)
  root_of-insert method j root r = elim (Bool-cases (str_eq method j)) [
    | inl e ↦ rw (Dict.lookup-insert method j root r, e)
    | inr e ↦ rw (Dict.lookup-insert method j root r, e)
  ]

  -- After a registration that does not panic, the router stores the new route under its method and
  -- its pattern, in place of an earlier one, and under every other method or pattern what it stored.
  pub route_at-add :
      (method path : Str) (h : H) (r r' : Router H) (j : Str) (steps : List Step)
      → add method path h r ≡ some r'
      → route_at j steps r' ≡ (
          if str_eq method j && steps_eq (steps_of path) steps
          then some (entry method path h)
          else route_at j steps r)
  unfolding add route_at
  route_at-add method path h r r' j steps added =
      let e = entry method path h in
      let (root, inserted, q) =
        map-eq-some _ (add_segments (parse_segments path) e (root_of method r)) added in
      rw (q, root_of-insert method j root r)
        (elim (Bool-cases (str_eq method j)) [
          | inl same ↦ rw same (
              at-add_segments (parse_segments path) e (root_of method r) root inserted steps
              ∙ ap (λ t. if steps_eq (steps_of path) steps then some e else at (root_of t r) steps)
                  ((str_eq_iff method j).0 same))
          | inr other ↦ rw other
        ])

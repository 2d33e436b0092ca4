-- ===== src/Router/View.antt =====
-- The tree of routes as a map from patterns to routes: what registration does to it.
use mathlib.Core.Path.{ap₂}
use mathlib.Core.Bool.{and-eq-true_iff}
use elgon.Base.{
  ◌≡◌, refl, ap, ◌∙◌, sym, Bool, true, false, ◌&&◌, Option, none, some, List, [], ◌∷◌, map, arith,
  inl, inr, Bool-cases, Option-cases, map-eq-some, if◌then◌else◌,
}
use elgon.Base.Text.{Str, str_eq, str_eq_iff, str_eq_refl}
use elgon.Path.{RouteSegment, static, param, wildcard, parse_segments}
use elgon.Router.{
  RouteEntry, Node, node, Children, end, edge, Slot, vacant, child, new_node, get_child, put_child,
  or_new, slot_node, slot_name, add_segments,
}

-- A segment without the name of its parameter.
pub data Step : Type 0 where
  lit : Str → Step
  any rest : Step

abbrev pub step_of : RouteSegment → Step
step_of (static v) = lit v
step_of (param v) = any
step_of (wildcard v) = rest

-- The pattern of a route's path.
abbrev pub steps_of : Str → List Step
steps_of path = map step_of (parse_segments path)

abbrev pub step_eq : Step → Step → Bool
step_eq (lit v) (lit w) = str_eq v w
step_eq any any = true
step_eq rest rest = true
step_eq _ _ = false

unfoldable pub steps_eq : List Step → List Step → Bool
steps_eq [] [] = true
steps_eq (x ∷ xs) (y ∷ ys) = step_eq x y && steps_eq xs ys
steps_eq _ _ = false

step_eq→eq : (x y : Step) → step_eq x y ≡ true → x ≡ y
step_eq→eq (lit v) (lit w) h = ap lit ((str_eq_iff v w).0 h)
step_eq→eq any any h = refl
step_eq→eq rest rest h = refl
step_eq→eq (lit v) any h = cc
step_eq→eq (lit v) rest h = cc
step_eq→eq any (lit w) h = cc
step_eq→eq any rest h = cc
step_eq→eq rest (lit w) h = cc
step_eq→eq rest any h = cc

pub steps_eq→eq : (xs ys : List Step) → steps_eq xs ys ≡ true → xs ≡ ys
unfolding steps_eq
steps_eq→eq [] [] h = refl
steps_eq→eq (x ∷ xs) (y ∷ ys) h =
    let (here, later) = (and-eq-true_iff _ _).0 h in
    ap₂ ◌∷◌ (step_eq→eq x y here) (steps_eq→eq xs ys later)
steps_eq→eq [] (y ∷ ys) h = cc
steps_eq→eq (x ∷ xs) [] h = cc

pub steps_eq_refl : (xs : List Step) → steps_eq xs xs ≡ true
unfolding steps_eq
steps_eq_refl [] = refl
steps_eq_refl (lit v ∷ xs) = rw (str_eq_refl v) (steps_eq_refl xs)
steps_eq_refl (any ∷ xs) = steps_eq_refl xs
steps_eq_refl (rest ∷ xs) = steps_eq_refl xs

module _ {H : Type 0} where
  -- The route that the tree stores under a pattern.
  unfoldable pub at : Node H → List Step → Option (RouteEntry H)
  unfolding get_child
  at (node c p w r) [] = r
  at (node c p w r) (lit v ∷ steps) = elim (get_child v c) [ none ↦ none | some n ↦ at n steps ]
  at (node c p w r) (any ∷ steps) = elim p [ vacant ↦ none | child name n ↦ at n steps ]
  at (node c p w r) (rest ∷ steps) = elim w [ vacant ↦ none | child name n ↦ at n steps ]

  pub at-new_node : (steps : List Step) → at new_node steps ≡ none
  unfolding at
  at-new_node [] = refl
  at-new_node (lit v ∷ steps) = refl
  at-new_node (any ∷ steps) = refl
  at-new_node (rest ∷ steps) = refl

  get_child-put_child :
      (v j : Str) (n : Node H) (c : Children H)
      → get_child j (put_child v n c) ≡ (if str_eq v j then some n else get_child j c)
  unfolding get_child put_child
  get_child-put_child v j n end = refl
  get_child-put_child v j n (edge k m c) =
      ground (arith, str_eq_iff k v, str_eq_iff k j, str_eq_iff v j, get_child-put_child v j n c)

  at-or_new :
      (v : Str) (c : Children H) (p w : Slot H) (r : Option (RouteEntry H)) (steps : List Step)
      → at (or_new (get_child v c)) steps ≡ at (node c p w r) (lit v ∷ steps)
  unfolding at
  at-or_new v c p w r steps = elim (Option-cases (get_child v c)) [
    | inl e ↦ rw (e, at) (at-new_node steps)
    | inr (n, e) ↦ rw (e, at)
  ]

  at-slot_node_any :
      (c : Children H) (p w : Slot H) (r : Option (RouteEntry H)) (steps : List Step)
      → at (slot_node p) steps ≡ at (node c p w r) (any ∷ steps)
  unfolding at
  at-slot_node_any c vacant w r steps = at-new_node steps
  at-slot_node_any c (child name n) w r steps = refl

  at-slot_node_rest :
      (c : Children H) (p w : Slot H) (r : Option (RouteEntry H)) (steps : List Step)
      → at (slot_node w) steps ≡ at (node c p w r) (rest ∷ steps)
  unfolding at
  at-slot_node_rest c p vacant r steps = at-new_node steps
  at-slot_node_rest c p (child name n) r steps = refl

  abbrev at_child : Option (Node H) → List Step → Option (RouteEntry H)
  at_child none steps = none
  at_child (some n) steps = at n steps

  at-lit :
      (v : Str) (c : Children H) (p w : Slot H) (r : Option (RouteEntry H)) (steps : List Step)
      → at (node c p w r) (lit v ∷ steps) ≡ at_child (get_child v c) steps
  unfolding at
  at-lit v c p w r steps = elim (Option-cases (get_child v c)) [
    | inl e ↦ rw (e, at)
    | inr (n, e) ↦ rw (e, at)
  ]

  at-put_child :
      (v u : Str) (m : Node H) (c : Children H) (p w : Slot H) (r : Option (RouteEntry H))
      (steps : List Step)
      → at (node (put_child v m c) p w r) (lit u ∷ steps)
        ≡ (if str_eq v u then at m steps else at (node c p w r) (lit u ∷ steps))
  at-put_child v u m c p w r steps = elim (Bool-cases (str_eq v u)) [
    | inl e ↦ rw (at-lit, get_child-put_child v u m c, e)
    | inr e ↦ rw (at-lit, get_child-put_child v u m c, e) (sym (at-lit u c p w r steps))
  ]

  -- What registration below one child says of the whole node, for each kind of segment.
  module _ (e : RouteEntry H) (later : List Step) (m : Node H) (c : Children H) (p w : Slot H)
      (r : Option (RouteEntry H)) where
    at-below_lit :
        (v u : Str) (steps : List Step)
        → at m steps ≡ (if steps_eq later steps then some e else at (or_new (get_child v c)) steps)
        → at (node (put_child v m c) p w r) (lit u ∷ steps) ≡ (
            if steps_eq (lit v ∷ later) (lit u ∷ steps)
            then some e
            else at (node c p w r) (lit u ∷ steps))
    unfolding steps_eq
    at-below_lit v u steps below = elim (Bool-cases (str_eq v u)) [
      | inl same ↦
          rw (at-put_child v u m c p w r steps, same)
            (below
              ∙ ap (λ o. if steps_eq later steps then some e else o)
                  (at-or_new v c p w r steps
                    ∙ ap (λ x. at (node c p w r) (lit x ∷ steps)) ((str_eq_iff v u).0 same)))
      | inr other ↦ rw (at-put_child v u m c p w r steps, other)
    ]

    at-below_static :
        (v : Str)
        → ((steps : List Step)
            → at m steps
              ≡ (if steps_eq later steps then some e else at (or_new (get_child v c)) steps))
        → (steps : List Step)
        → at (node (put_child v m c) p w r) steps
          ≡ (if steps_eq (lit v ∷ later) steps then some e else at (node c p w r) steps)
    unfolding at steps_eq
    at-below_static v below [] = refl
    at-below_static v below (any ∷ steps) = refl
    at-below_static v below (rest ∷ steps) = refl
    at-below_static v below (lit u ∷ steps) = at-below_lit v u steps (below steps)

    at-below_any :
        (name : Str)
        → ((steps : List Step)
            → at m steps ≡ (if steps_eq later steps then some e else at (slot_node p) steps))
        → (steps : List Step)
        → at (node c (child name m) w r) steps
          ≡ (if steps_eq (any ∷ later) steps then some e else at (node c p w r) steps)
    unfolding at steps_eq
    at-below_any name below [] = refl
    at-below_any name below (lit u ∷ steps) = refl
    at-below_any name below (rest ∷ steps) = refl
    at-below_any name below (any ∷ steps) =
        below steps
        ∙ ap (λ o. if steps_eq later steps then some e else o) (at-slot_node_any c p w r steps)

    at-below_rest :
        (name : Str)
        → ((steps : List Step)
            → at m steps ≡ (if steps_eq later steps then some e else at (slot_node w) steps))
        → (steps : List Step)
        → at (node c p (child name m) r) steps
          ≡ (if steps_eq (rest ∷ later) steps then some e else at (node c p w r) steps)
    unfolding at steps_eq
    at-below_rest name below [] = refl
    at-below_rest name below (lit u ∷ steps) = refl
    at-below_rest name below (any ∷ steps) = refl
    at-below_rest name below (rest ∷ steps) =
        below steps
        ∙ ap (λ o. if steps_eq later steps then some e else o) (at-slot_node_rest c p w r steps)

  at-here :
      (e : RouteEntry H) (c : Children H) (p w : Slot H) (r : Option (RouteEntry H))
      (steps : List Step)
      → at (node c p w (some e)) steps
        ≡ (if steps_eq [] steps then some e else at (node c p w r) steps)
  unfolding at steps_eq
  at-here e c p w r [] = refl
  at-here e c p w r (lit u ∷ steps) = refl
  at-here e c p w r (any ∷ steps) = refl
  at-here e c p w r (rest ∷ steps) = refl

  -- Registration stores the route under its pattern, and changes nothing under any other.
  pub at-add_segments :
      (segs : List RouteSegment) (e : RouteEntry H) (n n' : Node H)
      → add_segments segs e n ≡ some n'
      → (steps : List Step)
      → at n' steps ≡ (if steps_eq (map step_of segs) steps then some e else at n steps)
  unfolding add_segments
  at-add_segments [] e (node c p w r) n' h steps =
      let q : n' ≡ node c p w (some e) = cc in rw q (at-here e c p w r steps)
  at-add_segments (static v ∷ segs) e (node c p w r) n' h steps =
      let (m, added, q) = map-eq-some _ (add_segments segs e (or_new (get_child v c))) h in
      rw q (
        at-below_static e (map step_of segs) m c p w r v
          (at-add_segments segs e (or_new (get_child v c)) m added) steps)
  at-add_segments (param v ∷ segs) e (node c p w r) n' h steps =
      let (m, added, q) = map-eq-some _ (add_segments segs e (slot_node p)) h in
      rw q (
        at-below_any e (map step_of segs) m c p w r (slot_name v p)
          (at-add_segments segs e (slot_node p) m added) steps)
  at-add_segments (wildcard v ∷ []) e (node c p w r) n' h steps =
      let (m, added, q) = map-eq-some _ (add_segments [] e (slot_node w)) h in
      rw q (
        at-below_rest e [] m c p w r (slot_name v w) (at-add_segments [] e (slot_node w) m added)
          steps)
  at-add_segments (wildcard v ∷ x ∷ segs) e (node c p w r) n' h steps = cc

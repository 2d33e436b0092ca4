-- ===== src/Router/Sound.antt =====
-- A router that was built by registrations answers with one of them, and only where its pattern
-- covers the path.
use mathlib.Core.Bool.{and-eq-true_iff}
use mathlib.Core.Path.{subst}
use elgon.Base.{
  ◌≡◌, refl, ap, ◌∙◌, sym, ◌&&◌, ◌⊎◌, Option, none, some, List, [], ◌∷◌, inl, inr, All, All-weaken,
  Bool-cases, Option-cases,
}
use elgon.Base.Text.{Str, str, str_eq, str_eq_iff}
use elgon.Base.Dict
use elgon.Path.{split_path}
use elgon.Router.{RouteEntry, Node, node, RouteParam, Router, new_router, add, find, find_root}
use elgon.Router.View.{Step, steps_of, steps_eq, steps_eq→eq, at-new_node}
use elgon.Router.Register.{route_at, route_at-add}
use elgon.Router.Dispatch.{Covers, values, Found, Found-here, find_parts-Found}

module _ {H : Type 0} where
  -- The route is among those of the list.
  abbrev pub Listed : RouteEntry H → List (RouteEntry H) → Type 0
  Listed e [] = ⊥
  Listed e (x ∷ es) = (e ≡ x) ⊎ Listed e es

  -- The registrations of a program, in order; `none` where one of them panics.
  unfoldable pub register_all : List (RouteEntry H) → Router H → Option (Router H)
  register_all [] r = some r
  register_all (e ∷ es) r = elim (add e.method e.path e.h r) [
    | none ↦ none
    | some r' ↦ register_all es r'
  ]

  -- Each stored route has the property, and is stored under its own method and pattern.
  abbrev pub Stores : (RouteEntry H → Type 0) → Router H → Type 0
  Stores P r =
      (m : Str) (steps : List Step) (e : RouteEntry H)
      → route_at m steps r ≡ some e
      → P e × (e.method ≡ m) × (steps_of e.path ≡ steps)

  pub Stores-new_router : (P : RouteEntry H → Type 0) → Stores P new_router
  unfolding route_at
  Stores-new_router P m steps e h = let q = at-new_node {H = H} steps in cc

  pub Stores-add :
      (P : RouteEntry H → Type 0) (x : RouteEntry H) (r r' : Router H)
      → add x.method x.path x.h r ≡ some r'
      → P x
      → Stores P r
      → Stores P r'
  Stores-add P x r r' added px stores m steps e h =
      let law = route_at-add x.method x.path x.h r r' m steps added in
      elim (Bool-cases (str_eq x.method m && steps_eq (steps_of x.path) steps)) [
        | inl same ↦
            let found : some x ≡ some e = sym (rw same at law) ∙ h in
            let q : x ≡ e = cc in
            let (method, pattern) = (and-eq-true_iff _ _).0 same in
            rw (← q) (px, (str_eq_iff _ _).0 method, steps_eq→eq _ _ pattern)
        | inr other ↦ stores m steps e (sym (rw other at law) ∙ h)
      ]

  Stores-register_all :
      (P : RouteEntry H → Type 0) (es : List (RouteEntry H)) (r r' : Router H)
      → register_all es r ≡ some r'
      → All P es
      → Stores P r
      → Stores P r'
  unfolding register_all
  Stores-register_all P [] r r' h all stores = let q : r ≡ r' = cc in subst (Stores P) q stores
  Stores-register_all P (x ∷ es) r r' h all stores =
      elim (Option-cases (add x.method x.path x.h r)) [
        | inl e ↦ let q : none ≡ some r' = rw (e, register_all) at h in cc q
        | inr (r1, e) ↦
            Stores-register_all P es r1 r' (rw (e, register_all) at h) all.1
              (Stores-add P x r r1 e all.0 stores)
      ]

  Listed-self : (es : List (RouteEntry H)) → All (λ e. Listed e es) es
  Listed-self [] = tt
  Listed-self (x ∷ es) = (inl refl, All-weaken (λ e h. inr h) es (Listed-self es))

  -- What `find` promises of the route and the parameters that it returns.
  pub record Served (es : List (RouteEntry H)) (method path : Str) (e : RouteEntry H)
      (params : List RouteParam) : Type 0 where
    pub listed : Listed e es
    pub same_method : e.method ≡ method
    pub covers : Covers (steps_of e.path) (split_path path) (values params)

  find_root-Found :
      (root : Node H) (path : Str) (e : RouteEntry H) (params : List RouteParam)
      → find_root (some root) path ≡ (some e, params)
      → Found root (split_path path) [] e params
  find_root-Found (node c p w r) path e params h = elim (Bool-cases (str_eq path (str "/"))) [
    | inl slash ↦
        let q = rw slash at h in
        rw ((str_eq_iff path (str "/")).0 slash)
          (unfold split_path in Found-here c p w r [] (ap (λ t. t.0) q) (ap (λ t. t.1) q))
    | inr long ↦ elim (Bool-cases (str_eq path (str ""))) [
      | inl blank ↦
          let q = rw (long, blank) at h in
          rw ((str_eq_iff path (str "")).0 blank)
            (unfold split_path in Found-here c p w r [] (ap (λ t. t.0) q) (ap (λ t. t.1) q))
      | inr full ↦ find_parts-Found _ _ _ e params (rw (long, full) at h)
    ]
  ]

  find-Found :
      (method path : Str) (r : Router H) (e : RouteEntry H) (params : List RouteParam)
      → find method path r ≡ (some e, params)
      → (steps : List Step) × (route_at method steps r ≡ some e)
        × Covers steps (split_path path) (values params)
  unfolding find route_at
  find-Found method path r e params h = elim (Option-cases (Dict.lookup method r)) [
    | inl missing ↦ let q : none ≡ some e = ap (λ t. t.0) (rw missing at h) in cc
    | inr (root, got) ↦
        let f = find_root-Found root path e params (rw got at h) in
        (f.steps, rw got f.stored, rw f.bound f.covers)
  ]

  -- If `find` returns a route of a router that was built by registrations, that route is one of
  -- them, has the method of the request, and its pattern covers the parts of the path, with the
  -- values of the parameters in the order of the pattern.
  pub find-Served :
      (es : List (RouteEntry H)) (r : Router H) (method path : Str) (e : RouteEntry H)
      (params : List RouteParam)
      → register_all es new_router ≡ some r
      → find method path r ≡ (some e, params)
      → Served es method path e params
  find-Served es r method path e params built h =
      let (steps, stored, covers) = find-Found method path r e params h in
      let (listed, same_method, pattern) =
        Stores-register_all (λ x. Listed x es) es new_router r built (Listed-self es)
          (Stores-new_router _) method steps e stored in
      record { listed = listed; same_method = same_method; covers = rw pattern covers }

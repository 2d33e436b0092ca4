-- ===== src/Router/Dispatch.antt =====
-- What `find` returns, against the patterns of the registered routes.
use elgon.Base.{
  ◌≡◌, refl, ap, ◌∙◌, sym, Option, some, List, [], ◌∷◌, ◌++◌, inl, inr, Option-cases, append-nil,
}
use elgon.Base.Text.{Str, str, join}
use elgon.Router.{
  RouteEntry, Node, node, Children, Slot, vacant, child, get_child, RouteParam, find_parts,
  route_of,
}
use elgon.Router.View.{Step, lit, any, rest, at}

-- A pattern covers the parts of a path and captures values, in the order of the pattern. A
-- wildcard captures all parts that are left, and at least one.
pub data Covers : List Step → List Str → List Str → Type 0 where
  done : Covers [] [] []
  literal :
      {v : Str} {steps : List Step} {parts vs : List Str}
      → Covers steps parts vs
      → Covers (lit v ∷ steps) (v ∷ parts) vs
  captured :
      {v : Str} {steps : List Step} {parts vs : List Str}
      → Covers steps parts vs
      → Covers (any ∷ steps) (v ∷ parts) (v ∷ vs)
  remainder :
      {part : Str} {parts : List Str}
      → Covers (rest ∷ []) (part ∷ parts) (join (str "/") (part ∷ parts) ∷ [])

abbrev pub values : List RouteParam → List Str
values [] = []
values (p ∷ ps) = p.value ∷ values ps

values-append :
    (ps : List RouteParam) (k v : Str) (vs : List Str)
    → values (ps ++ record { key = k; value = v } ∷ []) ++ vs ≡ values ps ++ v ∷ vs
values-append [] k v vs = refl
values-append (p ∷ ps) k v vs = ap (λ t. p.value ∷ t) (values-append ps k v vs)

module _ {H : Type 0} where
  -- What `find_parts` has found: a pattern of the tree that covers the parts.
  pub record Found (n : Node H) (parts : List Str) (params : List RouteParam) (e : RouteEntry H)
      (params' : List RouteParam) : Type 0 where
    pub steps : List Step
    pub captured : List Str
    pub stored : at n steps ≡ some e
    pub covers : Covers steps parts captured
    pub bound : values params' ≡ values params ++ captured

  pub Found-here :
      (c : Children H) (p w : Slot H) (r : Option (RouteEntry H)) (params : List RouteParam)
      {e : RouteEntry H} {params' : List RouteParam}
      → r ≡ some e
      → params ≡ params'
      → Found (node c p w r) [] params e params'
  unfolding at
  Found-here c p w r params h same = record {
    steps = [];
    captured = [];
    stored = h;
    covers = done;
    bound = ap values (sym same) ∙ sym (append-nil (values params));
  }

  Found-literal :
      (c : Children H) (p w : Slot H) (r : Option (RouteEntry H)) (n : Node H) (part : Str)
      {parts : List Str} {params : List RouteParam} {e : RouteEntry H} {params' : List RouteParam}
      → get_child part c ≡ some n
      → Found n parts params e params'
      → Found (node c p w r) (part ∷ parts) params e params'
  unfolding at
  Found-literal c p w r n part got f = record {
    steps = lit part ∷ f.steps;
    captured = f.captured;
    stored = rw (got, at) f.stored;
    covers = literal f.covers;
    bound = f.bound;
  }

  Found-captured :
      (c : Children H) (w : Slot H) (r : Option (RouteEntry H)) (name : Str) (n : Node H)
      (part : Str) {parts : List Str} {params : List RouteParam} {e : RouteEntry H}
      {params' : List RouteParam}
      → Found n parts (params ++ record { key = name; value = part } ∷ []) e params'
      → Found (node c (child name n) w r) (part ∷ parts) params e params'
  unfolding at
  Found-captured c w r name n part {params} f = record {
    steps = any ∷ f.steps;
    captured = part ∷ f.captured;
    stored = f.stored;
    covers = captured f.covers;
    bound = f.bound ∙ values-append params name part f.captured;
  }

  Found-remainder :
      (c : Children H) (p : Slot H) (r : Option (RouteEntry H)) (name : Str) (n : Node H)
      (part : Str) (parts : List Str) (params : List RouteParam) {e : RouteEntry H}
      {params' : List RouteParam}
      → route_of n ≡ some e
      → params ++ record { key = name; value = join (str "/") (part ∷ parts) } ∷ [] ≡ params'
      → Found (node c p (child name n) r) (part ∷ parts) params e params'
  unfolding at
  Found-remainder c p r name (node c' p' w' r') part parts params h same = record {
    steps = rest ∷ [];
    captured = join (str "/") (part ∷ parts) ∷ [];
    stored = h;
    covers = remainder;
    bound =
        ap values (sym same)
        ∙ sym (append-nil _)
        ∙ values-append params name (join (str "/") (part ∷ parts)) [];
  }

  pub find_parts-Found :
      (n : Node H) (parts : List Str) (params : List RouteParam) (e : RouteEntry H)
      (params' : List RouteParam)
      → find_parts n parts params ≡ (some e, params')
      → Found n parts params e params'
  unfolding find_parts
  find_parts-Found (node c p w r) [] params e params' h =
      Found-here c p w r params (ap (λ t. t.0) h) (ap (λ t. t.1) h)
  find_parts-Found (node c (child name m) w r) (part ∷ parts) params e params' h =
      elim (Option-cases (get_child part c)) [
        | inl e' ↦
            Found-captured c w r name m part
              (find_parts-Found m parts _ e params' (rw (e', find_parts) at h))
        | inr (n, e') ↦
            Found-literal c _ w r n part e'
              (find_parts-Found n parts params e params' (rw (e', find_parts) at h))
      ]
  find_parts-Found (node c vacant (child name m) r) (part ∷ parts) params e params' h =
      elim (Option-cases (get_child part c)) [
        | inl e' ↦
            let q = rw (e', find_parts) at h in
            Found-remainder c _ r name m part parts params (ap (λ t. t.0) q) (ap (λ t. t.1) q)
        | inr (n, e') ↦
            Found-literal c _ _ r n part e'
              (find_parts-Found n parts params e params' (rw (e', find_parts) at h))
      ]
  find_parts-Found (node c vacant vacant r) (part ∷ parts) params e params' h =
      elim (Option-cases (get_child part c)) [
        | inl e' ↦ let q = rw (e', find_parts) at h in cc (ap (λ t. t.0) q)
        | inr (n, e') ↦
            Found-literal c _ _ r n part e'
              (find_parts-Found n parts params e params' (rw (e', find_parts) at h))
      ]

-- ===== src/OpenApi/Document/Returns.antt =====
-- openapi/openapi.go: when the document is built.
use elgon.Base.{
  ℕ, ◌≤◌, ◌≡◌, refl, inl, inr, true, Option, none, some, List, [], ◌∷◌, arith, Bool-cases, All,
}
use elgon.Base.Text.{Str, str, str_eq}
use elgon.Base.Int.{ℤ}
use elgon.Base.Dict
use elgon.Base.Optional.{returns, returns-bind}
use elgon.App.{RouteInfo}
use elgon.OpenApi.Schema.{GoType, Program, Json}
use elgon.OpenApi.Build.{Components, Built, unwrap, has_schema}
use elgon.OpenApi.Build.Depth.{depth, depth-unwrap, Ranked, build_schema-returns}
use elgon.OpenApi.Paths.{key}
use elgon.OpenApi.Generator.{Operation, Generator, operation_of, Progress}
use elgon.OpenApi.Document.{
  type_name, store, store_schema, under, ensure_schema, content_of, body_content, build_route,
  build_routes, build,
}

-- A model, if there is one, nests up to `n` calls.
unfoldable pub Within : (ℕ → ℕ) → ℕ → Option GoType → Type 0
Within rank n none = Unit
Within rank n (some t) = depth rank t ≤ n

-- The models of an operation do.
unfoldable pub Modelled : (ℕ → ℕ) → ℕ → Operation → Type 0
unfolding Within
Modelled rank n op = Within rank n op.request_model × Within rank n op.response_model

Modelled-operation_of :
    (rank : ℕ → ℕ) (n : ℕ) (opts : List (Str × Operation)) (r : RouteInfo)
    → All (λ e. Modelled rank n e.1) opts
    → Modelled rank n (operation_of opts r)
unfolding operation_of Dict.lookup Modelled Within
Modelled-operation_of rank n [] r h = (tt, tt)
Modelled-operation_of rank n ((k, op) ∷ opts) r h =
    elim (Bool-cases (str_eq k (key r.method r.path))) [
      | inl e ↦ rw e h.0
      | inr e ↦ rw e (Modelled-operation_of rank n opts r h.1)
    ]

module _ (p : Program) (parse_float : Str → Option ℕ) (parse_json : Str → Option Json)
    (status_text : ℤ → Str) (rank : ℕ → ℕ) (ranked : Ranked p parse_float parse_json rank)
    (n : ℕ) where
  store-returns :
      (name : Str) (r : Built)
      → returns r ≡ true
      → returns (store p parse_float parse_json status_text name r) ≡ true
  store-returns name none h = h
  store-returns name (some x) h = refl

  under-returns :
      (name : Str) (r : Option Components)
      → returns r ≡ true
      → returns (under p parse_float parse_json status_text name r) ≡ true
  under-returns name none h = h
  under-returns name (some x) h = refl

  content_of-returns :
      (example : Option Json) (r : Option (Str × Components))
      → returns r ≡ true
      → returns (content_of p parse_float parse_json status_text example r) ≡ true
  content_of-returns example none h = h
  content_of-returns example (some x) h = refl

  store_schema-returns :
      (name : Str) (t : GoType) (c : Components)
      → depth rank t ≤ n
      → returns (store_schema p parse_float parse_json status_text n name t c) ≡ true
  unfolding store_schema
  store_schema-returns name t c le = elim (Bool-cases (has_schema (Dict.lookup name c))) [
    | inl e ↦ rw e refl
    | inr e ↦
        rw e (
          store-returns name _ (build_schema-returns p parse_float parse_json rank ranked n t c le))
  ]

  ensure_schema-returns :
      (t : GoType) (c : Components)
      → depth rank t ≤ n
      → returns (ensure_schema p parse_float parse_json status_text n t c) ≡ true
  unfolding ensure_schema
  ensure_schema-returns t c le =
      let name = type_name p parse_float parse_json status_text (unwrap t) in
      elim (Bool-cases (str_eq name (str ""))) [
        | inl e ↦ rw e refl
        | inr e ↦ rw e (
            under-returns name _
              (store_schema-returns name (unwrap t) c (omega (arith, depth-unwrap rank t, le))))
      ]

  body_content-returns :
      (model : Option GoType) (example : Option Json) (c : Components)
      → Within rank n model
      → returns (body_content p parse_float parse_json status_text n model example c) ≡ true
  unfolding body_content Within
  body_content-returns none example c le = refl
  body_content-returns (some t) example c le =
      content_of-returns example _ (ensure_schema-returns t c le)

  build_route-returns :
      (opts : List (Str × Operation)) (r : RouteInfo) (s : Progress)
      → All (λ e. Modelled rank n e.1) opts
      → returns (build_route p parse_float parse_json status_text n opts r s) ≡ true
  unfolding build_route Modelled
  build_route-returns opts r s h =
      let le = Modelled-operation_of rank n opts r h in
      let op = operation_of opts r in
      returns-bind _ _ (body_content-returns op.request_model op.request_example s.schemas le.0)
        (λ x.
          returns-bind _ _ (body_content-returns op.response_model op.response_example x.1 le.1)
            (λ y. refl))

  build_routes-returns :
      (opts : List (Str × Operation)) (rs : List RouteInfo) (s : Progress)
      → All (λ e. Modelled rank n e.1) opts
      → returns (build_routes p parse_float parse_json status_text n opts rs s) ≡ true
  unfolding build_routes
  build_routes-returns opts [] s h = refl
  build_routes-returns opts (r ∷ rs) s h =
      returns-bind _ _ (build_route-returns opts r s h) (λ t. build_routes-returns opts rs t h)

  pub build-returns :
      (rs : List RouteInfo) (g : Generator)
      → All (λ e. Modelled rank n e.1) g.opts
      → returns (build p parse_float parse_json status_text n rs g) ≡ true
  unfolding build
  build-returns rs g h = returns-bind _ _ (build_routes-returns g.opts rs _ h) (λ s. refl)

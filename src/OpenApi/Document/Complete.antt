-- ===== src/OpenApi/Document/Complete.antt =====
-- openapi/openapi.go: which operations a document describes.
use elgon.Base.{
  ℕ, ◌≡◌, refl, inl, inr, Bool, false, ◌&&◌, ◌||◌, Option, some, List, [], ◌∷◌, arith, Bool-cases,
  All,
}
use elgon.Base.Text.{Str, str_eq, str_eq_iff, to_lower}
use elgon.Base.Int.{ℤ}
use elgon.Base.Dict
use elgon.Base.Optional.{
  OnValue, OnValue-bind, OnValue-Unit, OnValue-weaken, returns, returns-value,
}
use elgon.App.{RouteInfo}
use elgon.OpenApi.Schema.{Program, Json}
use elgon.OpenApi.Build.Closed.{Valid}
use elgon.OpenApi.Build.Depth.{Ranked}
use elgon.OpenApi.Paths.{to_openapi_path}
use elgon.OpenApi.Generator.{
  Operation, Generator, Entry, Paths, Document, operation_of, methods_of, put_entry, Progress,
}
use elgon.OpenApi.Document.{body_content, entry_of, build_route, build_routes, build}
use elgon.OpenApi.Document.Closed.{IsClosed, build-IsClosed}
use elgon.OpenApi.Document.Reach.{Made, Made-Valid}
use elgon.OpenApi.Document.Returns.{Modelled, build-returns}

-- The paths have an entry for a template and a method.
unfoldable pub describes : Str → Str → Paths → Bool
unfolding Dict.lookup
describes tpl method paths = returns (Dict.lookup method (methods_of (Dict.lookup tpl paths)))

-- Some route has the template and the method in lower case.
unfoldable pub registered : Str → Str → List RouteInfo → Bool
unfolding to_openapi_path to_lower str_eq
registered tpl method [] = false
registered tpl method (r ∷ rs) =
    str_eq (to_openapi_path r.path) tpl && str_eq (to_lower r.method) method
    || registered tpl method rs

-- Some route's operation wants authentication.
unfoldable pub any_auth : List (Str × Operation) → List RouteInfo → Bool
unfolding operation_of
any_auth opts [] = false
any_auth opts (r ∷ rs) = (operation_of opts r).requires_auth || any_auth opts rs

describes-put_entry :
    (tpl method t m : Str) (e : Entry) (paths : Paths)
    → describes t m (put_entry tpl method e paths)
      ≡ (str_eq tpl t && str_eq method m || describes t m paths)
unfolding describes put_entry
describes-put_entry tpl method t m e paths = elim (Bool-cases (str_eq tpl t)) [
  | inr other ↦
      rw
        (
          Dict.lookup-insert tpl t (Dict.insert method e (methods_of (Dict.lookup tpl paths)))
              paths,
          other,
        )
        refl
  | inl same ↦ elim (Bool-cases (str_eq method m)) [
    | inl hit ↦
        rw
          (
            Dict.lookup-insert tpl t (Dict.insert method e (methods_of (Dict.lookup tpl paths)))
                paths,
            same,
            Dict.lookup-insert method m e (methods_of (Dict.lookup tpl paths)),
            hit,
          )
          refl
    | inr miss ↦
        rw
          (
            Dict.lookup-insert tpl t (Dict.insert method e (methods_of (Dict.lookup tpl paths)))
                paths,
            same,
            Dict.lookup-insert method m e (methods_of (Dict.lookup tpl paths)),
            miss,
            (str_eq_iff tpl t).0 same,
          )
          refl
  ]
]

module _ (p : Program) (parse_float : Str → Option ℕ) (parse_json : Str → Option Json)
    (status_text : ℤ → Str) where
  -- What the loop adds to a state.
  abbrev Added : List (Str × Operation) → List RouteInfo → Progress → Progress → Type 0
  Added opts rs s t =
      ((tpl method : Str)
        → describes tpl method t.paths ≡ (describes tpl method s.paths || registered tpl method rs))
      × (t.bearer ≡ (s.bearer || any_auth opts rs))

  build_route-Added :
      (fuel : ℕ) (opts : List (Str × Operation)) (r : RouteInfo) (s : Progress)
      → OnValue
          (Added opts (r ∷ []) s)
          (build_route p parse_float parse_json status_text fuel opts r s)
  unfolding build_route registered any_auth
  build_route-Added fuel opts r s =
      let op = operation_of opts r in
      let start =
        body_content p parse_float parse_json status_text fuel op.request_model op.request_example
          s.schemas in
      OnValue-bind (λ x. Unit) (Added opts (r ∷ []) s) start _ (OnValue-Unit start)
        (λ x _.
          let next =
            body_content p parse_float parse_json status_text fuel op.response_model
              op.response_example x.1 in
          OnValue-bind (λ y. Unit) (Added opts (r ∷ []) s) next _ (OnValue-Unit next)
            (λ y _. (
              (λ tpl method. ground (
                arith,
                describes-put_entry (to_openapi_path r.path) (to_lower r.method) tpl method
                    (entry_of p parse_float parse_json status_text r op x.0 y.0) s.paths,
              )),
              ground arith,
            )))

  build_routes-Added :
      (fuel : ℕ) (opts : List (Str × Operation)) (rs : List RouteInfo) (s : Progress)
      → OnValue (Added opts rs s) (build_routes p parse_float parse_json status_text fuel opts rs s)
  unfolding build_routes registered any_auth
  build_routes-Added fuel opts [] s = ((λ tpl method. ground arith), ground arith)
  build_routes-Added fuel opts (r ∷ rs) s =
      OnValue-bind (Added opts (r ∷ []) s) (Added opts (r ∷ rs) s) _ _
        (build_route-Added fuel opts r s)
        (λ t (ht, hb).
          OnValue-weaken (Added opts rs t) (Added opts (r ∷ rs) s) _
            (build_routes-Added fuel opts rs t)
            (λ u (hu, hc). (
              (λ tpl method. ground (arith, ht tpl method, hu tpl method)),
              ground (arith, hb, hc),
            )))

  -- What a document of routes is to hold: every schema that it refers to, an entry for exactly the
  -- templates and methods of the routes, and the bearer scheme when the generator or an operation of
  -- a route asks for it.
  unfoldable pub Describes : Generator → List RouteInfo → Document → Type 0
  unfolding IsClosed describes registered any_auth
  Describes g rs d =
      IsClosed d
      × ((tpl method : Str) → describes tpl method d.paths ≡ registered tpl method rs)
      × (d.bearer_scheme ≡ (g.bearer_auth || any_auth g.opts rs))

  -- The entries and the scheme alone.
  abbrev Lists : Generator → List RouteInfo → Document → Type 0
  Lists g rs d =
      ((tpl method : Str) → describes tpl method d.paths ≡ registered tpl method rs)
      × (d.bearer_scheme ≡ (g.bearer_auth || any_auth g.opts rs))

  build-Lists :
      (fuel : ℕ) (rs : List RouteInfo) (g : Generator)
      → OnValue (λ x. Lists g rs x.0) (build p parse_float parse_json status_text fuel rs g)
  unfolding build describes
  build-Lists fuel rs g =
      let start : Progress = record { paths = []; schemas = g.schemas; bearer = g.bearer_auth } in
      OnValue-bind (Added g.opts rs start) (λ (x : Document × Generator). Lists g rs x.0)
        (build_routes p parse_float parse_json status_text fuel g.opts rs start) _
        (build_routes-Added fuel g.opts rs start) (λ s h. h)

  -- When no struct of the program stands in itself, and the models of the operations nest at most
  -- `fuel` calls of `buildSchema`, `Build` returns a document, whatever calls made the generator. The
  -- document's components hold every schema that its operations and its components refer to. It has an
  -- entry for a template and a method exactly when a route has them, and the bearer scheme exactly when
  -- the generator or the operation of a route asks for it.
  pub build-Describes :
      (rank : ℕ → ℕ) (fuel : ℕ) (rs : List RouteInfo) (g : Generator)
      → Ranked p parse_float parse_json rank
      → All (λ e. Modelled rank fuel e.1) g.opts
      → Made p parse_float parse_json status_text g
      → (d : Document) × (h : Generator) × (build p parse_float parse_json status_text fuel rs g
          ≡ some (d, h))
        × Describes g rs d
  unfolding Describes
  build-Describes rank fuel rs g ranked models made =
      let ((d, h), q) =
        returns-value _
          (build-returns p parse_float parse_json status_text rank ranked fuel rs g models) in
      let v = Made-Valid p parse_float parse_json status_text g made in
      let (closed, valid) : IsClosed d × Valid h.schemas =
        rw q at (build-IsClosed p parse_float parse_json status_text fuel rs g v) in
      let lists : Lists g rs d = rw q at (build-Lists fuel rs g) in
      (d, h, q, (closed, lists.0, lists.1))

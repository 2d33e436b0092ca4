-- ===== src/OpenApi/Document/Closed.antt =====
-- openapi/openapi.go: the references of a document.
use elgon.Base.{ℕ, refl, inl, inr, Option, none, some, List, [], ◌∷◌, Bool-cases, All, All-weaken}
use elgon.Base.Text.{Str, str, str_eq}
use elgon.Base.Int.{ℤ}
use elgon.Base.Dict
use elgon.Base.Optional.{OnValue, OnValue-bind}
use elgon.App.{RouteInfo}
use elgon.OpenApi.Schema.{GoType, Program, Json}
use elgon.OpenApi.Build.{Components, unwrap, has_schema, Built}
use elgon.OpenApi.Build.Closed.{
  Known, Extends, Valid, Valid-insert, Extends-insert, Grown, Sound, build_schema-Sound,
}
use elgon.OpenApi.Generator.{
  Operation, Generator, Content, Entry, Paths, Document, operation_of, methods_of, put_entry,
  named_content, Progress,
}
use elgon.OpenApi.Document.{
  type_name, store, store_schema, under, ensure_schema, content_of, body_content, entry_of,
  build_route, build_routes, build,
}

module _ {ℓ} {V : Type ℓ} (P : V → Type 0) where
  All-insert :
      (key : Str) (v : V) (m : List (Str × V))
      → P v
      → All (λ e. P e.1) m
      → All (λ e. P e.1) (Dict.insert key v m)
  unfolding Dict.insert
  All-insert key v [] hv h = (hv, tt)
  All-insert key v ((k, w) ∷ m) hv h = elim (Bool-cases (str_eq k key)) [
    | inl e ↦ rw e (hv, h.1)
    | inr e ↦ rw e (h.0, All-insert key v m hv h.1)
  ]

-- The name of a body's schema is that of a component.
unfoldable pub KnownContent : Components → Option Content → Type 0
KnownContent c none = Unit
KnownContent c (some body) = Known c body.schema_name

abbrev pub KnownEntry : Components → Entry → Type 0
KnownEntry c e = KnownContent c e.request_body × KnownContent c e.response_body

abbrev pub KnownMethods : Components → List (Str × Entry) → Type 0
KnownMethods c = All (λ e. KnownEntry c e.1)

abbrev pub KnownPaths : Components → Paths → Type 0
KnownPaths c = All (λ e. KnownMethods c e.1)

-- The components of a document hold every schema that the document refers to, from the bodies of
-- its operations and from the components.
unfoldable pub IsClosed : Document → Type 0
unfolding KnownContent
IsClosed d = KnownPaths d.schemas d.paths × Valid d.schemas

KnownContent-Extends :
    (c d : Components) (o : Option Content) → Extends c d → KnownContent c o → KnownContent d o
unfolding KnownContent
KnownContent-Extends c d none e h = tt
KnownContent-Extends c d (some body) e h = e body.schema_name h

KnownPaths-Extends :
    (c d : Components) (paths : Paths) → Extends c d → KnownPaths c paths → KnownPaths d paths
KnownPaths-Extends c d paths e =
    All-weaken
      (λ m.
        All-weaken
          (λ x h. (
            KnownContent-Extends c d x.1.request_body e h.0,
            KnownContent-Extends c d x.1.response_body e h.1,
          ))
          m.1)
      paths

KnownMethods-lookup :
    (c : Components) (tpl : Str) (paths : Paths)
    → KnownPaths c paths
    → KnownMethods c (methods_of (Dict.lookup tpl paths))
unfolding Dict.lookup
KnownMethods-lookup c tpl [] h = tt
KnownMethods-lookup c tpl ((k, m) ∷ paths) h = elim (Bool-cases (str_eq k tpl)) [
  | inl e ↦ rw e h.0
  | inr e ↦ rw e (KnownMethods-lookup c tpl paths h.1)
]

KnownPaths-put :
    (c : Components) (tpl method : Str) (e : Entry) (paths : Paths)
    → KnownEntry c e
    → KnownPaths c paths
    → KnownPaths c (put_entry tpl method e paths)
unfolding put_entry
KnownPaths-put c tpl method e paths he h =
    All-insert (KnownMethods c) tpl _ paths
      (All-insert (KnownEntry c) method e _ he (KnownMethods-lookup c tpl paths h)) h

module _ (p : Program) (parse_float : Str → Option ℕ) (parse_json : Str → Option Json)
    (status_text : ℤ → Str) where
  -- The components after a schema was stored under a name.
  abbrev pub Stored : Components → Str → Components → Type 0
  Stored c name d = Grown c d × Known d name

  store-Stored :
      (name : Str) (c : Components) (r : Built)
      → Sound c r
      → OnValue (Stored c name) (store p parse_float parse_json status_text name r)
  store-Stored name c none h = tt
  store-Stored name c (some (s, d)) ((e, v), hs) = (
    ((λ j known. Extends-insert d name s j (e j known)), Valid-insert d name s v hs),
    rw (Dict.lookup-insert_self name s d) refl,
  )

  pub store_schema-Stored :
      (fuel : ℕ) (name : Str) (t : GoType) (c : Components)
      → Valid c
      → OnValue (Stored c name) (store_schema p parse_float parse_json status_text fuel name t c)
  unfolding store_schema
  store_schema-Stored fuel name t c v = elim (Bool-cases (has_schema (Dict.lookup name c))) [
    | inl e ↦ rw e (((λ j known. known), v), e)
    | inr e ↦ rw e (store-Stored name c _ (build_schema-Sound p parse_float parse_json fuel t c v))
  ]

  -- What `ensureSchema` gives: the components, and a name of one of them or none.
  abbrev Ensured : Components → Str × Components → Type 0
  Ensured c (name, d) = Grown c d × KnownContent d (named_content none name)

  under-Ensured :
      (c : Components) (name : Str) (r : Option Components)
      → OnValue (Stored c name) r
      → OnValue (Ensured c) (under p parse_float parse_json status_text name r)
  unfolding KnownContent
  under-Ensured c name none h = tt
  under-Ensured c [] (some d) h = (h.0, tt)
  under-Ensured c (x ∷ name) (some d) h = h

  ensure_schema-Ensured :
      (fuel : ℕ) (t : GoType) (c : Components)
      → Valid c
      → OnValue (Ensured c) (ensure_schema p parse_float parse_json status_text fuel t c)
  unfolding ensure_schema KnownContent
  ensure_schema-Ensured fuel t c v =
      let name = type_name p parse_float parse_json status_text (unwrap t) in
      elim (Bool-cases (str_eq name (str ""))) [
        | inl e ↦ rw e (((λ j known. known), v), tt)
        | inr e ↦ rw e (under-Ensured c name _ (store_schema-Stored fuel name (unwrap t) c v))
      ]

  -- What a body leaves.
  abbrev Bodied : Components → Option Content × Components → Type 0
  Bodied c (o, d) = Grown c d × KnownContent d o

  content_of-Bodied :
      (c : Components) (example : Option Json) (r : Option (Str × Components))
      → OnValue (Ensured c) r
      → OnValue (Bodied c) (content_of p parse_float parse_json status_text example r)
  unfolding KnownContent
  content_of-Bodied c example none h = tt
  content_of-Bodied c example (some ([], d)) h = h
  content_of-Bodied c example (some (x ∷ name, d)) h = h

  body_content-Bodied :
      (fuel : ℕ) (model : Option GoType) (example : Option Json) (c : Components)
      → Valid c
      → OnValue (Bodied c) (body_content p parse_float parse_json status_text fuel model example c)
  unfolding body_content KnownContent
  body_content-Bodied fuel none example c v = (((λ j known. known), v), tt)
  body_content-Bodied fuel (some t) example c v =
      content_of-Bodied c example _ (ensure_schema-Ensured fuel t c v)

  -- The paths so far refer to the components so far.
  abbrev pub SoFar : Progress → Type 0
  SoFar s = KnownPaths s.schemas s.paths × Valid s.schemas

  build_route-SoFar :
      (fuel : ℕ) (opts : List (Str × Operation)) (r : RouteInfo) (s : Progress)
      → SoFar s
      → OnValue SoFar (build_route p parse_float parse_json status_text fuel opts r s)
  unfolding build_route entry_of
  build_route-SoFar fuel opts r s (known, v) =
      let op = operation_of opts r in
      OnValue-bind (Bodied s.schemas) SoFar _ _
        (body_content-Bodied fuel op.request_model op.request_example s.schemas v)
        (λ (request, c) (g, k).
          OnValue-bind (Bodied c) SoFar _ _
            (body_content-Bodied fuel op.response_model op.response_example c g.1)
            (λ (response, d) (h, l). (
              KnownPaths-put d _ _
                  (entry_of p parse_float parse_json status_text r op request response) s.paths
                  (KnownContent-Extends c d request h.0 k, l)
                  (KnownPaths-Extends c d s.paths h.0
                    (KnownPaths-Extends s.schemas c s.paths g.0 known)),
              h.1,
            )))

  build_routes-SoFar :
      (fuel : ℕ) (opts : List (Str × Operation)) (rs : List RouteInfo) (s : Progress)
      → SoFar s
      → OnValue SoFar (build_routes p parse_float parse_json status_text fuel opts rs s)
  unfolding build_routes
  build_routes-SoFar fuel opts [] s h = h
  build_routes-SoFar fuel opts (r ∷ rs) s h =
      OnValue-bind SoFar SoFar _ _ (build_route-SoFar fuel opts r s h)
        (λ t ht. build_routes-SoFar fuel opts rs t ht)

  pub build-IsClosed :
      (fuel : ℕ) (rs : List RouteInfo) (g : Generator)
      → Valid g.schemas
      → OnValue
          (λ x. IsClosed x.0 × Valid x.1.schemas)
          (build p parse_float parse_json status_text fuel rs g)
  unfolding build IsClosed
  build-IsClosed fuel rs g v =
      OnValue-bind SoFar (λ x. IsClosed x.0 × Valid x.1.schemas) _ _
        (build_routes-SoFar fuel g.opts rs _ (tt, v)) (λ s h. (h, h.1))

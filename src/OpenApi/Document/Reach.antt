-- ===== src/OpenApi/Document/Reach.antt =====
-- openapi/openapi.go: the generators that the operations of the package reach.
use elgon.Base.{ℕ, ◌≡◌, Option, none, some, List, [], ◌∷◌}
use elgon.Base.Text.{Str}
use elgon.Base.Int.{ℤ}
use elgon.Base.Optional.{OnValue}
use elgon.App.{RouteInfo}
use elgon.OpenApi.Schema.{GoType, Program, Json}
use elgon.OpenApi.Build.{Components}
use elgon.OpenApi.Build.Closed.{AllClosed, Valid}
use elgon.OpenApi.Generator.{
  Operation, Generator, Document, new_generator, enable_bearer_auth, add_operation,
}
use elgon.OpenApi.Document.{with_schemas, register_schema, store_schema, build}
use elgon.OpenApi.Document.Closed.{Stored, store_schema-Stored, build-IsClosed}

module _ (p : Program) (parse_float : Str → Option ℕ) (parse_json : Str → Option Json)
    (status_text : ℤ → Str) where
  -- A generator that calls in any order have made, of those that return.
  pub data Made : Generator → Type 0 where
    created : (title version : Str) → Made (new_generator title version)
    secured : {g : Generator} → Made g → Made (enable_bearer_auth g)
    described :
        {g : Generator} (method path : Str) (op : Operation)
        → Made g
        → Made (add_operation method path op g)
    registered :
        {g h : Generator} (fuel : ℕ) (name : Str) (model : Option GoType)
        → Made g
        → register_schema p parse_float parse_json status_text fuel name model g ≡ some h
        → Made h
    built :
        {g h : Generator} (fuel : ℕ) (rs : List RouteInfo) (d : Document)
        → Made g
        → build p parse_float parse_json status_text fuel rs g ≡ some (d, h)
        → Made h

  with_schemas-Valid :
      (g : Generator) (name : Str) (r : Option Components)
      → OnValue (Stored p parse_float parse_json status_text g.schemas name) r
      → OnValue (λ h. Valid h.schemas) (with_schemas p parse_float parse_json status_text g r)
  with_schemas-Valid g name none h = tt
  with_schemas-Valid g name (some d) h = h.0.1

  register_schema-Valid :
      (fuel : ℕ) (name : Str) (model : Option GoType) (g : Generator)
      → Valid g.schemas
      → OnValue
          (λ h. Valid h.schemas)
          (register_schema p parse_float parse_json status_text fuel name model g)
  unfolding register_schema
  register_schema-Valid fuel [] model g v = v
  register_schema-Valid fuel (c ∷ s) none g v = v
  register_schema-Valid fuel (c ∷ s) (some t) g v =
      with_schemas-Valid g (c ∷ s)
        (store_schema p parse_float parse_json status_text fuel (c ∷ s) t g.schemas)
        (store_schema-Stored p parse_float parse_json status_text fuel (c ∷ s) t g.schemas v)

  -- Whatever calls a generator went through, the schemas that it holds refer to each other only.
  pub Made-Valid : (g : Generator) → Made g → Valid g.schemas
  unfolding new_generator enable_bearer_auth add_operation AllClosed
  Made-Valid _ (created title version) = tt
  Made-Valid _ (secured m) = Made-Valid _ m
  Made-Valid _ (described method path op m) = Made-Valid _ m
  Made-Valid h (registered {g} fuel name model m q) =
      rw q at (register_schema-Valid fuel name model g (Made-Valid g m))
  Made-Valid h (built {g} fuel rs d m q) =
      (rw q at (build-IsClosed p parse_float parse_json status_text fuel rs g (Made-Valid g m))).1

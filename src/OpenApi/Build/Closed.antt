-- ===== src/OpenApi/Build/Closed.antt =====
-- openapi/schema.go: the references of the schemas that `buildSchema` builds.
use elgon.Base.{
  ℕ, zero, suc, ◌≡◌, refl, true, ◌||◌, Option, none, some, List, [], ◌∷◌, inl, inr, Bool-cases,
  Option-cases,
}
use elgon.Base.Text.{Str, str, str_eq}
use elgon.Base.Dict
use elgon.OpenApi.Schema.{
  GoType, basic, array, dict, pointer, struct, time, opaque, StructField, Program, Json, Schema,
  schema, Shape, reference, simple, array_of, map_of, object_of, Properties, no_property, property,
  apply_field_annotations,
}
use elgon.OpenApi.Build.{
  Components, unwrap, put_property, has_schema, Built, Builder, wrapped, component_name, refer,
  field_schema, Object, add_field, hidden, build_fields, empty_object, object_schema, build_with,
  build_schema,
}

-- The component of a name is there.
abbrev pub Known : Components → Str → Type 0
Known c name = has_schema (Dict.lookup name c) ≡ true

-- Every reference of a schema is the name of a component.
unfoldable mutual
  pub Closed : Components → Schema → Type 0
  Closed c (schema shape notes) = ClosedShape c shape

  pub ClosedShape : Components → Shape → Type 0
  ClosedShape c (reference name) = Known c name
  ClosedShape c (simple t) = Unit
  ClosedShape c (array_of s) = Closed c s
  ClosedShape c (map_of s) = Closed c s
  ClosedShape c (object_of ps required) = ClosedProperties c ps

  pub ClosedProperties : Components → Properties → Type 0
  ClosedProperties c no_property = Unit
  ClosedProperties c (property name s ps) = Closed c s × ClosedProperties c ps

-- The second map has the names of the first.
abbrev pub Extends : Components → Components → Type 0
Extends c d = (name : Str) → Known c name → Known d name

mutual
  unfolding Closed

  pub Closed-Extends : (c d : Components) (s : Schema) → Extends c d → Closed c s → Closed d s
  Closed-Extends c d (schema shape notes) e h = ClosedShape-Extends c d shape e h

  ClosedShape-Extends :
      (c d : Components) (s : Shape) → Extends c d → ClosedShape c s → ClosedShape d s
  ClosedShape-Extends c d (reference name) e h = e name h
  ClosedShape-Extends c d (simple t) e h = tt
  ClosedShape-Extends c d (array_of s) e h = Closed-Extends c d s e h
  ClosedShape-Extends c d (map_of s) e h = Closed-Extends c d s e h
  ClosedShape-Extends c d (object_of ps required) e h = ClosedProperties-Extends c d ps e h

  ClosedProperties-Extends :
      (c d : Components) (ps : Properties)
      → Extends c d
      → ClosedProperties c ps
      → ClosedProperties d ps
  ClosedProperties-Extends c d no_property e h = tt
  ClosedProperties-Extends c d (property name s ps) e h =
      (Closed-Extends c d s e h.0, ClosedProperties-Extends c d ps e h.1)

-- Every reference of the components is the name of one of them.
unfoldable pub AllClosed : Components → Components → Type 0
unfolding Closed
AllClosed c [] = Unit
AllClosed c ((name, s) ∷ m) = Closed c s × AllClosed c m

AllClosed-Extends : (c d m : Components) → Extends c d → AllClosed c m → AllClosed d m
unfolding AllClosed
AllClosed-Extends c d [] e h = tt
AllClosed-Extends c d ((name, s) ∷ m) e h =
    (Closed-Extends c d s e h.0, AllClosed-Extends c d m e h.1)

AllClosed-insert :
    (c m : Components) (name : Str) (s : Schema)
    → AllClosed c m
    → Closed c s
    → AllClosed c (Dict.insert name s m)
unfolding AllClosed Dict.insert
AllClosed-insert c [] name s h hs = (hs, tt)
AllClosed-insert c ((k, v) ∷ m) name s h hs = elim (Bool-cases (str_eq k name)) [
  | inl e ↦ rw e (hs, h.1)
  | inr e ↦ rw e (h.0, AllClosed-insert c m name s h.1 hs)
]

pub Extends-insert : (c : Components) (name : Str) (s : Schema) → Extends c (Dict.insert name s c)
Extends-insert c name s j h = elim (Bool-cases (str_eq name j)) [
  | inl e ↦ rw (Dict.lookup-insert name j s c, e) refl
  | inr e ↦ rw (Dict.lookup-insert name j s c, e) h
]

-- The components only refer to each other.
abbrev pub Valid : Components → Type 0
Valid c = AllClosed c c

pub Valid-insert :
    (c : Components) (name : Str) (s : Schema) → Valid c → Closed c s → Valid (Dict.insert name s c)
Valid-insert c name s h hs =
    AllClosed-Extends c (Dict.insert name s c) (Dict.insert name s c) (Extends-insert c name s)
      (AllClosed-insert c c name s h hs)

-- What a build keeps of the components that it started from.
abbrev pub Grown : Components → Components → Type 0
Grown c d = Extends c d × Valid d

abbrev pub Sound : Components → Built → Type 0
Sound c none = Unit
Sound c (some (s, d)) = Grown c d × Closed d s

-- The schema of a field, as the annotations leave it, refers to what it referred to before.
Closed-annotations :
    (parse_float : Str → Option ℕ) (parse_json : Str → Option Json) (c : Components)
    (f : StructField) (s : Schema)
    → Closed c s
    → Closed c (apply_field_annotations parse_float parse_json f s)
unfolding apply_field_annotations Closed
Closed-annotations parse_float parse_json c f (schema shape notes) h = h

ClosedProperties-put :
    (c : Components) (name : Str) (s : Schema) (ps : Properties)
    → Closed c s
    → ClosedProperties c ps
    → ClosedProperties c (put_property name s ps)
unfolding Closed put_property
ClosedProperties-put c name s no_property hs h = (hs, tt)
ClosedProperties-put c name s (property k v ps) hs h = elim (Bool-cases (str_eq k name)) [
  | inl e ↦ rw e (hs, h.1)
  | inr e ↦ rw e (h.0, ClosedProperties-put c name s ps hs h.1)
]

wrapped-Sound :
    (f : Schema → Shape) (c : Components) (r : Built)
    → ((d : Components) (s : Schema) → Closed d s → ClosedShape d (f s))
    → Sound c r
    → Sound c (wrapped f r)
unfolding Closed
wrapped-Sound f c none h r = tt
wrapped-Sound f c (some (s, d)) h r = (r.0, h d s r.1)

refer-Sound : (name : Str) (c : Components) (r : Built) → Sound c r → Sound c (refer name r)
unfolding Closed
refer-Sound name c none h = tt
refer-Sound name c (some (s, d)) ((e, v), hs) = (
  (λ j known. Extends-insert d name s j (e j known), Valid-insert d name s v hs),
  rw (Dict.lookup-insert_self name s d) refl,
)

module _ (p : Program) (parse_float : Str → Option ℕ) (parse_json : Str → Option Json) where
  abbrev pub IsSound : Builder → Type 0
  IsSound build = (t : GoType) (c : Components) → Valid c → Sound c (build t c)

  field_schema-Sound :
      (build : Builder)
      → IsSound build
      → (owner : Str) (t : GoType) (c : Components) → Valid c
      → Sound c (field_schema p parse_float parse_json build owner t c)
  unfolding field_schema Closed
  field_schema-Sound build h owner t c v =
      let name = component_name p parse_float parse_json (unwrap t) in
      elim (Bool-cases (str_eq name (str "") || str_eq name owner)) [
        | inl e ↦ rw e (h t c v)
        | inr e ↦ elim (Bool-cases (has_schema (Dict.lookup name c))) [
          | inl k ↦ rw (e, k) (((λ j known. known), v), k)
          | inr k ↦ rw (e, k) (refer-Sound name c (build (unwrap t) c) (h (unwrap t) c v))
        ]
      ]

  abbrev SoundFields : Components → Option (Object × Components) → Type 0
  SoundFields c none = Unit
  SoundFields c (some (o, d)) = Grown c d × ClosedProperties d o.properties

  SoundFields-Grown :
      (c d : Components) (r : Option (Object × Components))
      → Grown c d
      → SoundFields d r
      → SoundFields c r
  SoundFields-Grown c d none g h = tt
  SoundFields-Grown c d (some (o, b)) g ((e, v), h) = ((λ j known. e j (g.0 j known), v), h)

  build_fields-Sound :
      (build : Builder)
      → IsSound build
      → (owner : Str) (fs : List StructField) (o : Object) (c : Components) → Valid c
      → ClosedProperties c o.properties
      → SoundFields c (build_fields p parse_float parse_json build owner fs o c)
  unfolding build_fields
  build_fields-Sound build h owner [] o c v ho = (((λ j known. known), v), ho)
  build_fields-Sound build h owner (f ∷ fs) o c v ho = elim (Bool-cases (hidden f)) [
    | inl e ↦ rw e (build_fields-Sound build h owner fs o c v ho)
    | inr e ↦ elim (Option-cases (field_schema p parse_float parse_json build owner f.go_type c)) [
      | inl n ↦ rw (e, n) tt
      | inr ((s, d), q) ↦
          let (g, hs) : Grown c d × Closed d s =
            rw q at (field_schema-Sound build h owner f.go_type c v) in
          rw (e, q)
            (SoundFields-Grown c d _ g (
              build_fields-Sound build h owner fs (add_field p parse_float parse_json f o s) d g.1 (
                ClosedProperties-put d _ _ o.properties
                  (Closed-annotations parse_float parse_json d f s hs)
                  (ClosedProperties-Extends c d o.properties g.0 ho))))
    ]
  ]

  object_schema-Sound :
      (c : Components) (r : Option (Object × Components))
      → SoundFields c r
      → Sound c (object_schema r)
  unfolding Closed
  object_schema-Sound c none h = tt
  object_schema-Sound c (some (o, d)) h = h

  build_with-Sound :
      (build : Builder) → IsSound build → IsSound (build_with p parse_float parse_json build)
  unfolding build_with Closed
  build_with-Sound build h time c v = (((λ j known. known), v), tt)
  build_with-Sound build h (basic b name) c v = (((λ j known. known), v), tt)
  build_with-Sound build h (array name t) c v =
      wrapped-Sound array_of c (build t c) (λ d s hs. hs) (h t c v)
  build_with-Sound build h (dict name t) c v =
      wrapped-Sound map_of c (build t c) (λ d s hs. hs) (h t c v)
  build_with-Sound build h (struct id) c v =
      object_schema-Sound c _
        (build_fields-Sound build h (p.struct_name id) (p.fields id) empty_object c v tt)
  build_with-Sound build h (pointer t) c v = (((λ j known. known), v), tt)
  build_with-Sound build h (opaque name) c v = (((λ j known. known), v), tt)

  pub build_schema-Sound : (fuel : ℕ) → IsSound (build_schema p parse_float parse_json fuel)
  unfolding build_schema
  build_schema-Sound zero t c v = tt
  build_schema-Sound (suc fuel) t c v =
      build_with-Sound (build_schema p parse_float parse_json fuel) (build_schema-Sound fuel)
        (unwrap t) c v

-- ===== src/OpenApi/Build/Endless.antt =====
-- openapi/schema.go: the types on which `buildSchema` does not return.
use elgon.Base.{
  ℕ, zero, suc, ◌≡◌, refl, sym, ap, true, false, ◌||◌, Option, none, some, List, [], ◌∷◌, ◌++◌, inl,
  inr, arith, Bool-cases, Option-cases,
}
use elgon.Base.Text.{Str, str, str_eq, str_eq_refl}
use elgon.OpenApi.Schema.{
  GoType, basic, array, dict, pointer, struct, time, opaque, StructField, Program, Json, Schema,
  Shape, array_of, map_of,
}
use elgon.OpenApi.Build.{
  Components, unwrap, Built, Builder, wrapped, component_name, field_schema, Object, add_field,
  hidden, build_fields, empty_object, object_schema, build_with, build_schema,
}

-- The struct stands in the type itself, or behind pointers, slices, arrays and maps.
unfoldable pub Holds : ℕ → GoType → Type 0
Holds id (array name t) = Holds id t
Holds id (dict name t) = Holds id t
Holds id (pointer t) = Holds id t
Holds id (struct j) = id ≡ j
Holds id (basic b name) = ⊥
Holds id time = ⊥
Holds id (opaque name) = ⊥

wrapped-none : (f : Schema → Shape) (r : Built) → r ≡ none → wrapped f r ≡ none
wrapped-none f none h = refl
wrapped-none f (some x) h = cc

module _ (p : Program) (parse_float : Str → Option ℕ) (parse_json : Str → Option Json) where
  Holds-owner :
      (id : ℕ) (t : GoType)
      → Holds id t
      → (str_eq (component_name p parse_float parse_json (unwrap t)) (str "")
          || str_eq (component_name p parse_float parse_json (unwrap t)) (p.struct_name id))
        ≡ true
  unfolding Holds unwrap str_eq
  Holds-owner id (array name t) h = refl
  Holds-owner id (dict name t) h = refl
  Holds-owner id (pointer t) h = Holds-owner id t h
  Holds-owner id (struct j) h = ground (arith, rw h at (str_eq_refl (p.struct_name id)))
  Holds-owner id (basic b name) h = absurd h
  Holds-owner id time h = absurd h
  Holds-owner id (opaque name) h = absurd h

  -- A builder that does not return on the types that hold a struct.
  abbrev Fails : ℕ → Builder → Type 0
  Fails id build = (t : GoType) (c : Components) → Holds id t → build t c ≡ none

  field_schema-none :
      (id : ℕ) (build : Builder)
      → Fails id build
      → (t : GoType) (c : Components) → Holds id t
      → field_schema p parse_float parse_json build (p.struct_name id) t c ≡ none
  unfolding field_schema
  field_schema-none id build h t c ht = rw (Holds-owner id t ht) (h t c ht)

  build_fields-none :
      (id : ℕ) (build : Builder)
      → Fails id build
      → (pre post : List StructField) (f : StructField) (o : Object) (c : Components)
      → hidden f ≡ false
      → Holds id f.go_type
      → build_fields p parse_float parse_json build (p.struct_name id) (pre ++ f ∷ post) o c ≡ none
  unfolding build_fields
  build_fields-none id build h [] post f o c e hf =
      rw (e, field_schema-none id build h f.go_type c hf) refl
  build_fields-none id build h (g ∷ pre) post f o c e hf = elim (Bool-cases (hidden g)) [
    | inl q ↦ rw q (build_fields-none id build h pre post f o c e hf)
    | inr q ↦
        elim (Option-cases
          (field_schema p parse_float parse_json build (p.struct_name id) g.go_type c)) [
            | inl n ↦ rw (q, n) refl
            | inr ((s, d), n) ↦
                rw (q, n)
                  (build_fields-none id build h pre post f
                    (add_field p parse_float parse_json g o s) d e hf)
          ]
  ]

  -- When an exported field with a name in JSON holds the struct that it stands in, directly or behind
  -- pointers, slices, arrays and maps, the schema of that struct is never built, whatever the depth,
  -- nor that of a type that holds the struct.
  pub build_schema-diverges :
      (id : ℕ) (pre post : List StructField) (f : StructField)
      → p.fields id ≡ pre ++ f ∷ post
      → hidden f ≡ false
      → Holds id f.go_type
      → (fuel : ℕ) (t : GoType) (c : Components) → Holds id t
      → build_schema p parse_float parse_json fuel t c ≡ none
  unfolding build_schema build_with Holds unwrap
  build_schema-diverges id pre post f q e hf zero t c ht = refl
  build_schema-diverges id pre post f q e hf (suc fuel) (pointer t) c ht =
      build_schema-diverges id pre post f q e hf (suc fuel) t c ht
  build_schema-diverges id pre post f q e hf (suc fuel) (array name t) c ht =
      wrapped-none array_of _ (build_schema-diverges id pre post f q e hf fuel t c ht)
  build_schema-diverges id pre post f q e hf (suc fuel) (dict name t) c ht =
      wrapped-none map_of _ (build_schema-diverges id pre post f q e hf fuel t c ht)
  build_schema-diverges id pre post f q e hf (suc fuel) (struct j) c ht =
      rw (sym ht, q)
        (ap object_schema (
          build_fields-none id (build_schema p parse_float parse_json fuel)
            (build_schema-diverges id pre post f q e hf fuel) pre post f empty_object c e hf))
  build_schema-diverges id pre post f q e hf (suc fuel) (basic b name) c ht = absurd ht
  build_schema-diverges id pre post f q e hf (suc fuel) time c ht = absurd ht
  build_schema-diverges id pre post f q e hf (suc fuel) (opaque name) c ht = absurd ht

-- ===== src/OpenApi/Build/Depth.antt =====
-- openapi/schema.go: on which types `buildSchema` returns.
use elgon.Base.{
  ℕ, zero, suc, ◌≤◌, ◌≡◌, ◌⊎◌, refl, sym, ◌∙◌, true, false, ◌||◌, Option, none, some, List, [], ◌∷◌,
  inl, inr, arith, Bool-cases, Option-cases, All, All-weaken,
}
use elgon.Base.Text.{Str, str, str_eq}
use elgon.Base.Dict
use elgon.Base.Optional.{returns}
use elgon.OpenApi.Schema.{
  GoType, basic, array, dict, pointer, struct, time, opaque, StructField, Program, Json, Schema,
  Shape, array_of, map_of,
}
use elgon.OpenApi.Build.{
  Components, unwrap, has_schema, Built, Builder, wrapped, component_name, refer, field_schema,
  Object, add_field, hidden, build_fields, empty_object, object_schema, build_with, build_schema,
}

-- How many calls of `buildSchema` a type nests, if a struct nests one more than its rank.
unfoldable pub depth : (ℕ → ℕ) → GoType → ℕ
depth rank (basic b name) = 1
depth rank (array name t) = suc (depth rank t)
depth rank (dict name t) = suc (depth rank t)
depth rank (pointer t) = depth rank t
depth rank (struct id) = suc (rank id)
depth rank time = 1
depth rank (opaque name) = 1

pub depth-unwrap : (rank : ℕ → ℕ) (t : GoType) → depth rank (unwrap t) ≡ depth rank t
unfolding depth unwrap
depth-unwrap rank (basic b name) = refl
depth-unwrap rank (array name t) = refl
depth-unwrap rank (dict name t) = refl
depth-unwrap rank (pointer t) = depth-unwrap rank t
depth-unwrap rank (struct id) = refl
depth-unwrap rank time = refl
depth-unwrap rank (opaque name) = refl

wrapped-returns : (f : Schema → Shape) (r : Built) → returns r ≡ true → returns (wrapped f r) ≡ true
wrapped-returns f none h = h
wrapped-returns f (some x) h = refl

refer-returns : (name : Str) (r : Built) → returns r ≡ true → returns (refer name r) ≡ true
refer-returns name none h = h
refer-returns name (some x) h = refl

object_schema-returns :
    (r : Option (Object × Components)) → returns r ≡ true → returns (object_schema r) ≡ true
object_schema-returns none h = h
object_schema-returns (some x) h = refl

-- A field that is not built, or whose type nests up to `n` calls.
abbrev pub Shallow : (ℕ → ℕ) → ℕ → StructField → Type 0
Shallow rank n f = (hidden f ≡ true) ⊎ (depth rank f.go_type ≤ n)

Shallow-depth :
    (rank : ℕ → ℕ) (n : ℕ) (f : StructField)
    → Shallow rank n f
    → hidden f ≡ false
    → depth rank f.go_type ≤ n
Shallow-depth rank n f (inl h) e = let no : true ≡ false = sym h ∙ e in cc
Shallow-depth rank n f (inr le) e = le

Shallow-le :
    (rank : ℕ → ℕ) (n m : ℕ) → n ≤ m → (f : StructField) → Shallow rank n f → Shallow rank m f
Shallow-le rank n m le f (inl h) = inl h
Shallow-le rank n m le f (inr h) = inr (omega (arith, le, h))

module _ (p : Program) (parse_float : Str → Option ℕ) (parse_json : Str → Option Json) where
  -- The fields that are built nest less than their struct, so that no struct stands in itself.
  unfoldable pub Ranked : (ℕ → ℕ) → Type 0
  Ranked rank = (id : ℕ) → All (Shallow rank (rank id)) (p.fields id)

  -- A builder returns on the types that nest up to `n` calls.
  abbrev Returns : (ℕ → ℕ) → ℕ → Builder → Type 0
  Returns rank n build =
      (t : GoType) (c : Components) → depth rank t ≤ n → returns (build t c) ≡ true

  field_schema-returns :
      (rank : ℕ → ℕ) (n : ℕ) (build : Builder)
      → Returns rank n build
      → (owner : Str) (t : GoType) (c : Components) → depth rank t ≤ n
      → returns (field_schema p parse_float parse_json build owner t c) ≡ true
  unfolding field_schema
  field_schema-returns rank n build h owner t c le =
      let name = component_name p parse_float parse_json (unwrap t) in
      elim (Bool-cases (str_eq name (str "") || str_eq name owner)) [
        | inl e ↦ rw e (h t c le)
        | inr e ↦ elim (Bool-cases (has_schema (Dict.lookup name c))) [
          | inl k ↦ rw (e, k) refl
          | inr k ↦
              rw (e, k)
                (refer-returns name (build (unwrap t) c)
                  (h (unwrap t) c (omega (arith, depth-unwrap rank t, le))))
        ]
      ]

  build_fields-returns :
      (rank : ℕ → ℕ) (n : ℕ) (build : Builder)
      → Returns rank n build
      → (owner : Str) (fs : List StructField) (o : Object) (c : Components)
      → All (Shallow rank n) fs
      → returns (build_fields p parse_float parse_json build owner fs o c) ≡ true
  unfolding build_fields
  build_fields-returns rank n build h owner [] o c le = refl
  build_fields-returns rank n build h owner (f ∷ fs) o c (lf, le) = elim (Bool-cases (hidden f)) [
    | inl e ↦ rw e (build_fields-returns rank n build h owner fs o c le)
    | inr e ↦ elim (Option-cases (field_schema p parse_float parse_json build owner f.go_type c)) [
      | inl q ↦
          let no : false ≡ true =
            rw q at (
              field_schema-returns rank n build h owner f.go_type c
                (Shallow-depth rank n f lf e)) in
          cc
      | inr ((s, d), q) ↦
          rw (e, q)
            (build_fields-returns rank n build h owner fs (add_field p parse_float parse_json f o s)
              d le)
    ]
  ]

  build_with-returns :
      (rank : ℕ → ℕ) (n : ℕ) (build : Builder)
      → Ranked rank
      → Returns rank n build
      → (t : GoType) (c : Components) → depth rank t ≤ suc n
      → returns (build_with p parse_float parse_json build t c) ≡ true
  unfolding build_with depth Ranked
  build_with-returns rank n build r h time c le = refl
  build_with-returns rank n build r h (basic b name) c le = refl
  build_with-returns rank n build r h (array name t) c le =
      wrapped-returns array_of (build t c) (h t c (omega (arith, le)))
  build_with-returns rank n build r h (dict name t) c le =
      wrapped-returns map_of (build t c) (h t c (omega (arith, le)))
  build_with-returns rank n build r h (struct id) c le = object_schema-returns _ (
      build_fields-returns rank n build h (p.struct_name id) (p.fields id) empty_object c
        (All-weaken (Shallow-le rank (rank id) n (omega (arith, le))) (p.fields id) (r id)))
  build_with-returns rank n build r h (pointer t) c le = refl
  build_with-returns rank n build r h (opaque name) c le = refl

  depth-positive : (rank : ℕ → ℕ) (t : GoType) → 1 ≤ depth rank t
  unfolding depth
  depth-positive rank (pointer t) = depth-positive rank t
  depth-positive rank (basic b name) = omega arith
  depth-positive rank (array name t) = omega arith
  depth-positive rank (dict name t) = omega arith
  depth-positive rank (struct id) = omega arith
  depth-positive rank time = omega arith
  depth-positive rank (opaque name) = omega arith

  -- When no struct of a program stands in itself, the schema of every type is built within the depth
  -- of the type.
  pub build_schema-returns :
      (rank : ℕ → ℕ)
      → Ranked rank
      → (fuel : ℕ) (t : GoType) (c : Components) → depth rank t ≤ fuel
      → returns (build_schema p parse_float parse_json fuel t c) ≡ true
  unfolding build_schema
  build_schema-returns rank r zero t c le = absurd (omega (arith, depth-positive rank t, le))
  build_schema-returns rank r (suc fuel) t c le =
      build_with-returns rank fuel (build_schema p parse_float parse_json fuel) r
        (build_schema-returns rank r fuel) (unwrap t) c (omega (arith, depth-unwrap rank t, le))

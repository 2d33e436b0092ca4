-- ===== src/OpenApi/Build.antt =====
-- openapi/schema.go: the schema of a type, with the schemas of the structs that it refers to.
pub mod Closed
pub mod Depth
pub mod Endless
use elgon.Base.{
  ℕ, zero, suc, Bool, true, false, not, ◌||◌, ◌&&◌, Option, none, some, List, [], ◌∷◌, ◌++◌,
  if◌then◌else◌,
}
use elgon.Base.Text.{Str, str, str_eq}
use elgon.Base.Dict
use elgon.OpenApi.Schema.{
  Basic, boolean, integer, number, text, GoType, basic, array, dict, pointer, struct, time, opaque,
  StructField, Program, Json, Notes, no_notes, Schema, schema, Shape, reference, simple, array_of,
  map_of, object_of, Properties, no_property, property, json_field_name, apply_field_annotations,
}

-- The map of the schemas of components, whose keys are names of types.
abbrev pub Components : Type 0
Components = List (Str × Schema)

-- The loop that unwraps pointers.
unfoldable pub unwrap : GoType → GoType
unwrap (pointer t) = unwrap t
unwrap t = t

-- `properties[name] = s`
unfoldable pub put_property : Str → Schema → Properties → Properties
unfolding str_eq
put_property name s no_property = property name s no_property
put_property name s (property k v ps) =
    let rest = put_property name s ps in
    if str_eq k name then property name s ps else property k v rest

abbrev pub basic_type : Basic → Str
basic_type boolean = str "boolean"
basic_type integer = str "integer"
basic_type number = str "number"
basic_type text = str "string"

abbrev pub simple_schema : Str → Schema
simple_schema t = schema (simple t) no_notes

abbrev pub has_schema : Option Schema → Bool
has_schema none = false
has_schema (some s) = true

-- What a schema that is built gives to its caller, with the components as they are then.
abbrev pub Built : Type 0
Built = Option (Schema × Components)

-- The code that builds the schema of a type.
abbrev pub Builder : Type 0
Builder = GoType → Components → Built

abbrev pub wrapped : (Schema → Shape) → Built → Built
wrapped f none = none
wrapped f (some (s, c)) = some (schema (f s) no_notes, c)

abbrev pub refer : Str → Built → Built
refer name none = none
refer name (some (s, c)) = some (schema (reference name) no_notes, Dict.insert name s c)

-- The object of the fields that were read.
pub record Object : Type 0 where
  pub properties : Properties
  pub required : List Str

-- A field that the loop passes over.
abbrev pub hidden : StructField → Bool
hidden f = not f.exported || str_eq (json_field_name f).0 (str "")

abbrev pub empty_object : Object
empty_object = record { properties = no_property; required = [] }

abbrev pub object_schema : Option (Object × Components) → Built
object_schema none = none
object_schema (some (o, c)) = some (schema (object_of o.properties o.required) no_notes, c)

module _ (p : Program) (parse_float : Str → Option ℕ) (parse_json : Str → Option Json) where
  -- `t.Name()` of a type of kind struct; a type of another kind has none here.
  abbrev pub component_name : GoType → Str
  component_name (struct id) = p.struct_name id
  component_name time = str "Time"
  component_name _ = str ""

  -- The schema of a field: a reference, if the type is a struct with a name that is not that of the
  -- struct the field stands in.
  unfoldable pub field_schema : Builder → Str → GoType → Components → Built
  unfolding unwrap str_eq Dict.lookup Dict.insert
  field_schema build owner t c =
      let name = component_name (unwrap t) in
      if str_eq name (str "") || str_eq name owner
      then build t c
      else if has_schema (Dict.lookup name c)
      then some (schema (reference name) no_notes, c)
      else refer name (build (unwrap t) c)

  abbrev pub add_field : StructField → Object → Schema → Object
  add_field f o s = record {
    properties =
        put_property (json_field_name f).0 (apply_field_annotations parse_float parse_json f s)
          o.properties;
    required =
        if (json_field_name f).1 then o.required else o.required ++ (json_field_name f).0 ∷ [];
  }

  -- The loop over the fields of a struct.
  unfoldable pub build_fields :
      Builder → Str → List StructField → Object → Components → Option (Object × Components)
  unfolding field_schema put_property json_field_name apply_field_annotations str_eq
  build_fields build owner [] o c = some (o, c)
  build_fields build owner (f ∷ fs) o c =
      let skip = build_fields build owner fs o c in
      if hidden f then skip else elim (field_schema build owner f.go_type c) [
        | none ↦ none
        | some (s, c') ↦ build_fields build owner fs (add_field f o s) c'
      ]

  -- The body of `buildSchema`, on a type that is no pointer.
  unfoldable pub build_with : Builder → Builder
  unfolding build_fields
  build_with build time c =
      some (schema (simple (str "string")) (record no_notes { format = some (str "date-time") }), c)
  build_with build (basic b name) c = some (simple_schema (basic_type b), c)
  build_with build (array name t) c = wrapped array_of (build t c)
  build_with build (dict name t) c = wrapped map_of (build t c)
  build_with build (struct id) c =
      object_schema (build_fields build (p.struct_name id) (p.fields id) empty_object c)
  build_with build (pointer t) c = some (simple_schema (str "string"), c)
  build_with build (opaque name) c = some (simple_schema (str "string"), c)

  -- `buildSchema`; `none` is a call that nests deeper than the fuel.
  unfoldable pub build_schema : ℕ → Builder
  unfolding build_with unwrap
  build_schema zero t c = none
  build_schema (suc fuel) t c = build_with (build_schema fuel) (unwrap t) c

-- ===== src/OpenApi/Schema.antt =====
-- openapi/schema.go: Go types, schemas, and the annotations of fields. What the code reads of a type
-- by reflection is a value; `strconv.ParseFloat` (a float64 as its bits) and `json.Unmarshal` into
-- `any` are parameters.
pub mod Typed
use elgon.Base.{ℕ, Bool, true, false, Option, none, some, List, [], ◌∷◌, ◌||◌, map, if◌then◌else◌}
use elgon.Base.Int.{ℤ}
use elgon.Base.Text.Atoi.{atoi}
use elgon.Base.Text.{Str, str, str_eq, split, cut, trim_space}
use elgon.Config.{parse_bool}

-- The kinds of types that hold no others.
pub data Basic : Type 0 where
  boolean integer number text : Basic

-- `reflect.Type`: a type that holds others or none, with its name (empty if it has none), and a
-- struct as the index of its declaration, so that types may refer to themselves. `array` is a slice
-- as well; `opaque` is a type of any other kind.
pub data GoType : Type 0 where
  basic : Basic → Str → GoType
  array dict : Str → GoType → GoType
  pointer : GoType → GoType
  struct : ℕ → GoType
  time : GoType
  opaque : Str → GoType

-- `reflect.StructField`, with the values of its tags.
pub record StructField : Type 0 where
  pub name : Str
  pub exported : Bool
  pub go_type : GoType
  pub json_tag : Str
  pub description_tag : Str
  pub example_tag : Str
  pub openapi_tag : Str

-- The structs that a program declares: two of them may have the same name.
pub record Program : Type 0 where
  pub struct_name : ℕ → Str
  pub fields : ℕ → List StructField

-- The values that a document holds.
mutual
  pub data Json : Type 0 where
    null : Json
    flag : Bool → Json
    string : Str → Json
    int : ℤ → Json
    real : ℕ → Json
    list : Items → Json
    object : Entries → Json

  pub data Items : Type 0 where
    nil : Items
    cons : Json → Items → Items

  pub data Entries : Type 0 where
    end : Entries
    entry : Str → Json → Entries → Entries

-- The keys of a schema that annotations set.
pub record Notes : Type 0 where
  pub description : Option Str
  pub format : Option Str
  pub example : Option Json
  pub enum : Option (List Json)
  pub minimum : Option ℕ
  pub maximum : Option ℕ
  pub min_length : Option ℤ
  pub max_length : Option ℤ
  pub pattern_text : Option Str

abbrev pub no_notes : Notes
no_notes = record {
  description = none;
  format = none;
  example = none;
  enum = none;
  minimum = none;
  maximum = none;
  min_length = none;
  max_length = none;
  pattern_text = none;
}

-- A schema: its other keys, and its annotations. `reference` is the name in "$ref", and the list of
-- an object is `required`.
mutual
  pub data Schema : Type 0 where
    schema : Shape → Notes → Schema

  pub data Shape : Type 0 where
    reference simple : Str → Shape
    array_of map_of : Schema → Shape
    object_of : Properties → List Str → Shape

  pub data Properties : Type 0 where
    no_property : Properties
    property : Str → Schema → Properties → Properties

-- `schema["type"]`
abbrev pub shape_type : Shape → Str
shape_type (reference name) = str ""
shape_type (simple t) = t
shape_type (array_of s) = str "array"
shape_type (map_of s) = str "object"
shape_type (object_of ps required) = str "object"

abbrev part_name : Str → List Str → Str
part_name field [] = field
part_name field ([] ∷ ps) = field
part_name field ((c ∷ s) ∷ ps) = c ∷ s

abbrev one_is : Str → List Str → Bool
one_is s [] = false
one_is s (p ∷ ps) = str_eq p s || one_is s ps

abbrev omits : List Str → Bool
omits [] = false
omits (p ∷ ps) = one_is (str "omitempty") ps

-- `jsonFieldName`
unfoldable pub json_field_name : StructField → Str × Bool
unfolding str_eq split
json_field_name f =
    if str_eq f.json_tag (str "-")
    then ([], false)
    else if str_eq f.json_tag (str "")
    then (f.name, false)
    else (part_name f.name (split b',' f.json_tag), omits (split b',' f.json_tag))

module _ (parse_float : Str → Option ℕ) (parse_json : Str → Option Json) where
  abbrev pub or_raw : Str → Option Json → Json
  or_raw raw none = string raw
  or_raw raw (some v) = v

  abbrev pub as_int : Option ℤ → Option Json
  as_int none = none
  as_int (some n) = some (int n)

  abbrev pub as_real : Option ℕ → Option Json
  as_real none = none
  as_real (some x) = some (real x)

  abbrev pub as_flag : Option Bool → Option Json
  as_flag none = none
  as_flag (some b) = some (flag b)

  -- `typedExample`; the type of a reference is empty.
  unfoldable pub typed_example : Str → Str → Json
  unfolding str_eq atoi parse_bool
  typed_example raw kind =
      if str_eq kind (str "integer")
      then or_raw raw (as_int (atoi raw))
      else if str_eq kind (str "number")
      then or_raw raw (as_real (parse_float raw))
      else if str_eq kind (str "boolean")
      then or_raw raw (as_flag (parse_bool raw))
      else if str_eq kind (str "array") || str_eq kind (str "object")
      then or_raw raw (parse_json raw)
      else string raw

  abbrev or_before : {A : Type 0} → Option A → Option A → Option A
  or_before (some new) before = some new
  or_before none before = before

  -- One `key=value` of the openapi tag.
  unfoldable pub set_note : Str → Str → Str → Notes → Notes
  unfolding str_eq typed_example split trim_space atoi
  set_note kind key val n =
      if str_eq key (str "description")
      then record n { description = some val }
      else if str_eq key (str "format")
      then record n { format = some val }
      else if str_eq key (str "example")
      then record n { example = some (typed_example val kind) }
      else if str_eq key (str "enum")
      then record n {
        enum = some (map (λ item. typed_example (trim_space item) kind) (split b'|' val));
      }
      else if str_eq key (str "minimum")
      then record n { minimum = or_before (parse_float val) n.minimum }
      else if str_eq key (str "maximum")
      then record n { maximum = or_before (parse_float val) n.maximum }
      else if str_eq key (str "minLength")
      then record n { min_length = or_before (atoi val) n.min_length }
      else if str_eq key (str "maxLength")
      then record n { max_length = or_before (atoi val) n.max_length }
      else if str_eq key (str "pattern")
      then record n { pattern_text = some val }
      else n

  abbrev set_part : Str → Option (Str × Str) → Notes → Notes
  set_part kind none n = n
  set_part kind (some (key, val)) n = set_note kind (trim_space key) (trim_space val) n

  -- The loop over the parts of the openapi tag.
  unfoldable pub set_parts : Str → List Str → Notes → Notes
  unfolding set_note cut trim_space
  set_parts kind [] n = n
  set_parts kind (p ∷ ps) n = set_parts kind ps (set_part kind (cut b'=' (trim_space p)) n)

  abbrev with_description : Str → Notes → Notes
  with_description [] n = n
  with_description (c ∷ s) n = record n { description = some (c ∷ s) }

  abbrev with_example : Str → Str → Notes → Notes
  with_example kind [] n = n
  with_example kind (c ∷ s) n = record n { example = some (typed_example (c ∷ s) kind) }

  abbrev with_parts : Str → Str → Notes → Notes
  with_parts kind [] n = n
  with_parts kind (c ∷ s) n = set_parts kind (split b',' (c ∷ s)) n

  -- `applyFieldAnnotations`
  unfoldable pub apply_field_annotations : StructField → Schema → Schema
  unfolding typed_example set_parts split trim_space
  apply_field_annotations f (schema shape notes) =
      let kind = shape_type shape in
      let described = with_description (trim_space f.description_tag) notes in
      let exampled = with_example kind (trim_space f.example_tag) described in
      schema shape (with_parts kind (trim_space f.openapi_tag) exampled)

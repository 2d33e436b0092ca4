-- ===== src/Migrate/Models.antt =====
-- migrate/generate.go: the entities of model files. What the Go parser gives is a value.
pub mod Generate
pub mod Tables
use elgon.Base.{
  ℕ, ◌+◌, Bool, true, false, not, ◌&&◌, ◌||◌, Option, none, some, List, [], ◌∷◌, ◌++◌, map,
  if◌then◌else◌, leb,
}
use elgon.Base.Text.{Str, str, str_eq, split, trim_space}
use elgon.Base.Dict
use elgon.Base.Result.{Result, ok, err, ◌>>=◌}
use elgon.Orm.Value.{Error, str_leb}
use elgon.Orm.Schema.{
  GoType, bool, string, int, int8, int16, int32, int64, uint, uint8, uint16, uint32, uint64,
  float32, float64, time, sql_null, pointer, slice, StructField, parse_schema_table_tag,
}

-- `ast.Expr` as far as the code tells expressions apart.
pub data Expr : Type 0 where
  ident : Str → Expr
  star : Expr → Expr
  array : (fixed : Bool) → Expr → Expr
  selector : Expr → Str → Expr
  unsupported : Expr

-- `ast.Field`: its names, each with whether it is exported, and its tag, if any: what the two tags
-- of `reflect.StructTag` are, or none if it cannot be unquoted.
pub record Field : Type 0 where
  pub names : List (Str × Bool)
  pub field_type : Expr
  pub tag : Option (Option (Str × Str))

-- `ast.TypeSpec`; the fields of a type that is no struct are `none`.
pub record TypeSpec : Type 0 where
  pub type_name : Str
  pub is_exported : Bool
  pub fields : Option (List Field)

-- `ast.ImportSpec`: the path, if it can be unquoted, and the name.
pub record ImportSpec : Type 0 where
  pub path : Option Str
  pub alias : Option Str

pub record File : Type 0 where
  pub imports : List ImportSpec
  pub types : List TypeSpec

-- `modelEntity`; the value is a struct type without a name.
pub record ModelEntity : Type 0 where
  pub table : Str
  pub value : List StructField

-- The errors: those of tags, and those of the files.
pub data ModelError : Type 0 where
  bad_tag : Error → ModelError
  not_unquoted not_parsed conflicting_tables unsupported_type fixed_size_array : ModelError

-- `parseTableNameFromTag` is `parseSchemaTableTag` of orm/schema.go, statement for statement.
abbrev table_name_from_tag : Str → Result ModelError (Option Str)
table_name_from_tag raw = elim (parse_schema_table_tag raw) [
  | ok t ↦ ok t
  | err e ↦ err (bad_tag e)
]

abbrev one_table : Option Str → Option Str → Result ModelError (Option Str)
one_table before none = ok before
one_table none (some t) = ok (some t)
one_table (some b) (some t) = if str_eq b t then ok (some t) else err conflicting_tables

abbrev with_tag : Str → Option Str → Result ModelError (Option Str)
with_tag raw before =
    if str_eq (trim_space raw) (str "")
    then ok before
    else (table_name_from_tag (trim_space raw) >>= λ name. one_table before name)

-- The loop of `parseStructTableName`.
unfoldable pub struct_table_tag : List Field → Option Str → Result ModelError (Option Str)
unfolding parse_schema_table_tag str_eq trim_space
struct_table_tag [] before = ok before
struct_table_tag (f ∷ fs) before =
    let same = struct_table_tag fs before in
    elim f.tag [
      | none ↦ same
      | some none ↦ err not_unquoted
      | some (some (orm, elgon')) ↦
          with_tag orm before >>= λ now. with_tag elgon' now >>= λ later. struct_table_tag fs later
    ]

abbrev pub is_upper : ℕ → Bool
is_upper c = leb b'A' c && leb c b'Z'

abbrev pub is_lower : ℕ → Bool
is_lower c = leb b'a' c && leb c b'z'

abbrev pub next_is_lower : Str → Bool
next_is_lower [] = false
next_is_lower (c ∷ s) = is_lower c

-- The loop of `toSnakeCase`, after the rune before, if there is one.
unfoldable pub snake_from : Option ℕ → Str → Str
snake_from before [] = []
snake_from none (c ∷ s) =
    let rest = snake_from (some c) s in if is_upper c then (c + 32) ∷ rest else c ∷ rest
snake_from (some b) (c ∷ s) =
    let rest = snake_from (some c) s in
    if not (is_upper c)
    then c ∷ rest
    else if is_lower b || next_is_lower s
    then b'_' ∷ (c + 32) ∷ rest
    else (c + 32) ∷ rest

-- `toSnakeCase`
unfoldable pub to_snake_case : Str → Str
unfolding snake_from
to_snake_case s = snake_from none s

abbrev or_snake : Str → Option Str → Str
or_snake struct_name none = to_snake_case struct_name
or_snake struct_name (some table) = table

-- `parseStructTableName`
unfoldable pub parse_struct_table_name : List Field → Str → Result ModelError Str
unfolding struct_table_tag to_snake_case
parse_struct_table_name fields struct_name =
    struct_table_tag fields none >>= λ table. ok (or_snake struct_name table)

-- `identType`
unfoldable pub ident_type : Str → Result ModelError GoType
unfolding str_eq
ident_type name =
    if str_eq name (str "bool")
    then ok bool
    else if str_eq name (str "string")
    then ok string
    else if str_eq name (str "int")
    then ok int
    else if str_eq name (str "int8")
    then ok int8
    else if str_eq name (str "int16")
    then ok int16
    else if str_eq name (str "int32")
    then ok int32
    else if str_eq name (str "int64")
    then ok int64
    else if str_eq name (str "uint")
    then ok uint
    else if str_eq name (str "uint8") || str_eq name (str "byte")
    then ok uint8
    else if str_eq name (str "uint16")
    then ok uint16
    else if str_eq name (str "uint32")
    then ok uint32
    else if str_eq name (str "uint64")
    then ok uint64
    else if str_eq name (str "float32")
    then ok float32
    else if str_eq name (str "float64")
    then ok float64
    else err unsupported_type

abbrev one_of : Str → List Str → Bool
one_of s [] = false
one_of s (t ∷ ts) = str_eq s t || one_of s ts

abbrev null_types : List Str
null_types =
    str "NullString"
    ∷ str "NullBool"
    ∷ str "NullInt16"
    ∷ str "NullInt32"
    ∷ str "NullInt64"
    ∷ str "NullByte"
    ∷ str "NullFloat64"
    ∷ str "NullTime"
    ∷ []

-- `selectorType`
unfoldable pub selector_type : Str → Str → Result ModelError GoType
unfolding str_eq
selector_type pkg_path sel =
    if str_eq pkg_path (str "time") && str_eq sel (str "Time")
    then ok time
    else if str_eq pkg_path (str "database/sql") && one_of sel null_types
    then ok (sql_null sel)
    else err unsupported_type

abbrev path_or_empty : Option Str → Str
path_or_empty none = []
path_or_empty (some path) = path

-- `astExprToReflectType`
unfoldable pub ast_expr_to_reflect_type : List (Str × Str) → Expr → Result ModelError GoType
unfolding ident_type selector_type Dict.lookup
ast_expr_to_reflect_type imports (ident name) = ident_type name
ast_expr_to_reflect_type imports (star x) =
    ast_expr_to_reflect_type imports x >>= λ inner. ok (pointer inner)
ast_expr_to_reflect_type imports (array true x) = err fixed_size_array
ast_expr_to_reflect_type imports (array false x) =
    ast_expr_to_reflect_type imports x >>= λ elem. ok (slice elem)
ast_expr_to_reflect_type imports (selector (ident pkg) sel) =
    selector_type (path_or_empty (Dict.lookup pkg imports)) sel
ast_expr_to_reflect_type imports (selector x sel) = err unsupported_type
ast_expr_to_reflect_type imports unsupported = err unsupported_type

abbrev tag_of : Option (Option (Str × Str)) → Result ModelError (Str × Str)
tag_of none = ok ([], [])
tag_of (some none) = err not_unquoted
tag_of (some (some tags)) = ok tags

abbrev exported_fields : GoType → Str × Str → List (Str × Bool) → List StructField
exported_fields t tags [] = []
exported_fields t tags ((name, false) ∷ names) = exported_fields t tags names
exported_fields t tags ((name, true) ∷ names) =
    record {
      name = name;
      exported = true;
      anonymous = false;
      go_type = t;
      orm_tag = tags.0;
      elgon_tag = tags.1;
    }
    ∷ exported_fields t tags names

abbrev fields_of : List (Str × Str) → Field → Result ModelError (List StructField)
fields_of imports f = ast_expr_to_reflect_type imports f.field_type >>= λ t.
    tag_of f.tag >>= λ tags. ok (exported_fields t tags f.names)

-- `buildReflectFields`; a field without names is embedded and left out.
unfoldable pub build_reflect_fields :
    List (Str × Str) → List Field → Result ModelError (List StructField)
unfolding ast_expr_to_reflect_type
build_reflect_fields imports [] = ok []
build_reflect_fields imports (f ∷ fs) =
    let rest = build_reflect_fields imports fs in
    elim f.names [
      | [] ↦ rest
      | n ∷ ns ↦ fields_of imports f >>= λ here. rest >>= λ others. ok (here ++ others)
    ]

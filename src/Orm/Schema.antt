-- ===== src/Orm/Schema.antt =====
-- orm/schema.go: struct types, and the tags of their fields. What the code reads of a type by
-- reflection is a value.
pub mod Sql
pub mod Columns
pub mod Migrate
pub mod Statement
mod Tests
use elgon.Base.{
  ℕ, Bool, true, false, not, ◌||◌, Option, none, some, List, [], ◌∷◌, ◌++◌, ◌==◌, if◌then◌else◌,
}
use elgon.Base.Int.{ℤ, pos, negsuc}
use elgon.Base.Text.Atoi.{atoi}
use elgon.Base.Text.{Str, str, str_eq, split, cut, trim_space, to_lower}
use elgon.Base.Result.{Result, ok, err, ◌>>=◌}
use elgon.Orm.Value.{Error, invalid_input}

-- `reflect.Type` as far as the code tells types apart: `sql_null` is a type of database/sql whose
-- name starts with Null, under its name.
pub data GoType : Type 0 where
  bool string int int8 int16 int32 int64 uint uint8 uint16 uint32 uint64 float32 float64 time
        other :
      GoType
  sql_null : Str → GoType
  pointer slice : GoType → GoType

-- `reflect.StructField`, with the values of its two tags.
pub record StructField : Type 0 where
  pub name : Str
  pub exported : Bool
  pub anonymous : Bool
  pub go_type : GoType
  pub orm_tag : Str
  pub elgon_tag : Str

-- `schemaFieldOptions`; a size that is not set is `none`.
pub record SchemaFieldOptions : Type 0 where
  pub skip : Bool
  pub column : Str
  pub sql_type : Str
  pub default_expr : Str
  pub size : Option ℕ
  pub primary_key : Bool
  pub auto_increment : Bool
  pub not_null : Bool
  pub is_unique : Bool

abbrev pub no_options : SchemaFieldOptions
no_options = record {
  skip = false;
  column = [];
  sql_type = [];
  default_expr = [];
  size = none;
  primary_key = false;
  auto_increment = false;
  not_null = false;
  is_unique = false;
}

-- `schemaFieldTagRaw`
unfoldable pub schema_field_tag_raw : StructField → Str
unfolding trim_space str_eq
schema_field_tag_raw f =
    let raw = trim_space f.orm_tag in
    if not (str_eq raw (str "")) then raw else trim_space f.elgon_tag

-- `schemaTagRaws`
unfoldable pub schema_tag_raws : StructField → List Str
unfolding trim_space str_eq
schema_tag_raws f =
    let orm = trim_space f.orm_tag in
    let elgon' = trim_space f.elgon_tag in
    (if not (str_eq orm (str "")) then orm ∷ [] else [])
    ++ (if str_eq elgon' (str "") || str_eq elgon' f.orm_tag then [] else elgon' ∷ [])

-- The replacer of `normalizeSchemaTagKey`.
unfoldable pub drop_marks : Str → Str
drop_marks [] = []
drop_marks (c ∷ s) =
    let rest = drop_marks s in if c == b'_' || c == b'-' || c == b' ' then rest else c ∷ rest

-- `normalizeSchemaTagKey`
unfoldable pub normalize_schema_tag_key : Str → Str
unfolding drop_marks trim_space to_lower
normalize_schema_tag_key key = drop_marks (trim_space (to_lower key))

-- `strings.Cut(token, ":")`: the key, and the value if there is one.
abbrev pub cut_token : Str → Option (Str × Str) → Str × Option Str
cut_token token none = (token, none)
cut_token token (some (key, value)) = (key, some value)

abbrev filled : Str → Result Error Str
filled [] = err invalid_input
filled (c ∷ s) = ok (c ∷ s)

-- The value of an option that must have one.
abbrev pub required : Option Str → Result Error Str
required none = err invalid_input
required (some value) = filled (trim_space value)

abbrev table_option : Str → Option Str → Result Error (Option Str) → Result Error (Option Str)
table_option key value rest =
    if str_eq key (str "table")
    then (required value >>= λ name. ok (some name))
    else if str_eq key (str "alias")
    then (required value >>= λ name. rest)
    else rest

-- The loop of `parseSchemaTableTag`.
unfoldable pub table_tokens : List Str → Result Error (Option Str)
unfolding trim_space str_eq cut normalize_schema_tag_key
table_tokens [] = ok none
table_tokens (t ∷ ts) =
    let token = trim_space t in
    let rest = table_tokens ts in
    let (key, value) = cut_token token (cut b':' token) in
    if str_eq token (str "") || str_eq token (str "-")
    then rest
    else table_option (normalize_schema_tag_key key) value rest

-- `parseSchemaTableTag`
unfoldable pub parse_schema_table_tag : Str → Result Error (Option Str)
unfolding table_tokens split trim_space str_eq
parse_schema_table_tag raw =
    let tag = trim_space raw in
    if str_eq tag (str "") || str_eq tag (str "-") then ok none else table_tokens (split b',' tag)

abbrev positive_size : Option ℤ → Result Error ℕ
positive_size none = err invalid_input
positive_size (some (negsuc n)) = err invalid_input
positive_size (some (pos n)) = if n == 0 then err invalid_input else ok n

abbrev size_option : Option Str → Result Error ℕ
size_option none = err invalid_input
size_option (some value) = positive_size (atoi (trim_space value))

-- The options of a tag, by their normalised keys.
unfoldable pub apply_option :
    Str → Option Str → SchemaFieldOptions → Result Error SchemaFieldOptions
unfolding str_eq trim_space atoi
apply_option key value opts =
    if str_eq key (str "column")
    then (required value >>= λ v. ok (record opts { column = v }))
    else if str_eq key (str "type")
    then (required value >>= λ v. ok (record opts { sql_type = v }))
    else if str_eq key (str "default")
    then (required value >>= λ v. ok (record opts { default_expr = v }))
    else if str_eq key (str "size")
    then (size_option value >>= λ n. ok (record opts { size = some n }))
    else if str_eq key (str "pk") || str_eq key (str "primarykey")
    then ok (record opts { primary_key = true })
    else if str_eq key (str "autoincrement")
    then ok (record opts { auto_increment = true })
    else if str_eq key (str "notnull")
    then ok (record opts { not_null = true })
    else if str_eq key (str "unique")
    then ok (record opts { is_unique = true })
    else if str_eq key (str "bool") || str_eq key (str "boolean")
    then ok (record opts { sql_type = str "BOOLEAN" })
    else if str_eq key (str "text")
    then ok (record opts { sql_type = str "TEXT" })
    else if str_eq key (str "blob")
    then ok (record opts { sql_type = str "BLOB" })
    else if str_eq key (str "int") || str_eq key (str "integer")
    then ok (record opts { sql_type = str "INTEGER" })
    else if str_eq key (str "bigint")
    then ok (record opts { sql_type = str "BIGINT" })
    else if str_eq key (str "real") || str_eq key (str "float")
    then ok (record opts { sql_type = str "REAL" })
    else if str_eq key (str "timestamp") || str_eq key (str "datetime")
    then ok (record opts { sql_type = str "TIMESTAMP" })
    else err invalid_input

abbrev apply_token : Str → SchemaFieldOptions → Result Error SchemaFieldOptions
apply_token token opts =
    let (key, value) = cut_token token (cut b':' token) in
    if str_eq token (str "")
    then ok opts
    else if str_eq token (str "-")
    then ok (record opts { skip = true })
    else apply_option (normalize_schema_tag_key key) value opts

-- The loop of `parseSchemaFieldTag`.
unfoldable pub field_tokens : List Str → SchemaFieldOptions → Result Error SchemaFieldOptions
unfolding trim_space str_eq cut normalize_schema_tag_key apply_option
field_tokens [] opts = ok opts
field_tokens (t ∷ ts) opts = apply_token (trim_space t) opts >>= λ opts'. field_tokens ts opts'

-- `parseSchemaFieldTag`
unfoldable pub parse_schema_field_tag : Str → Result Error SchemaFieldOptions
unfolding field_tokens split trim_space str_eq
parse_schema_field_tag raw =
    let tag = trim_space raw in
    if str_eq tag (str "")
    then ok no_options
    else if str_eq tag (str "-")
    then ok (record no_options { skip = true })
    else field_tokens (split b',' tag) no_options

-- ===== src/Orm/Schema/Sql.antt =====
-- orm/schema.go: the SQL types, the column definitions and the statement that creates a table.
use elgon.Base.{
  ℕ, Bool, true, false, not, ◌||◌, ◌&&◌, Option, none, some, List, [], ◌∷◌, ◌++◌, if◌then◌else◌,
}
use elgon.Base.Text.{Str, str, str_eq, trim_space, to_lower, decimal, join}
use elgon.Base.Result.{Result, ok, err, ◌>>=◌}
use elgon.Orm.Value.{Error, invalid_input, valid_identifier}
use elgon.Orm.Schema.{
  GoType, bool, string, int, int8, int16, int32, int64, uint, uint8, uint16, uint32, uint64,
  float32, float64, time, sql_null, pointer, slice, StructField, SchemaFieldOptions,
  schema_field_tag_raw, schema_tag_raws, parse_schema_field_tag, parse_schema_table_tag,
}

-- `unwrapType`
unfoldable pub unwrap_type : GoType → GoType × Bool
unwrap_type (pointer t) = ((unwrap_type t).0, true)
unwrap_type t = (t, false)

-- `isIntegerType`
unfoldable pub is_integer_type : GoType → Bool
is_integer_type int = true
is_integer_type int8 = true
is_integer_type int16 = true
is_integer_type int32 = true
is_integer_type int64 = true
is_integer_type uint = true
is_integer_type uint8 = true
is_integer_type uint16 = true
is_integer_type uint32 = true
is_integer_type uint64 = true
is_integer_type _ = false

-- `normalizeDialect`
unfoldable pub normalize_dialect : Str → Str
unfolding to_lower trim_space
normalize_dialect dialect = to_lower (trim_space dialect)

-- `sqlTypeForSQLNull`
unfoldable pub sql_type_for_sql_null : Str → Result Error Str
unfolding str_eq
sql_type_for_sql_null name =
    if str_eq name (str "NullString")
    then ok (str "TEXT")
    else if str_eq name (str "NullBool")
    then ok (str "BOOLEAN")
    else if str_eq name (str "NullInt16")
        || str_eq name (str "NullInt32")
        || str_eq name (str "NullByte")
    then ok (str "INTEGER")
    else if str_eq name (str "NullInt64")
    then ok (str "BIGINT")
    else if str_eq name (str "NullFloat64")
    then ok (str "REAL")
    else if str_eq name (str "NullTime")
    then ok (str "TIMESTAMP")
    else err invalid_input

abbrev string_type : Option ℕ → Str
string_type none = str "TEXT"
string_type (some n) = str "VARCHAR(" ++ (decimal n ++ str ")")

-- The SQL type of a Go type that no tag gives.
unfoldable pub kind_type : GoType → Option ℕ → Result Error Str
unfolding decimal
kind_type time size = ok (str "TIMESTAMP")
kind_type bool size = ok (str "BOOLEAN")
kind_type int size = ok (str "INTEGER")
kind_type int8 size = ok (str "INTEGER")
kind_type int16 size = ok (str "INTEGER")
kind_type int32 size = ok (str "INTEGER")
kind_type uint size = ok (str "INTEGER")
kind_type uint8 size = ok (str "INTEGER")
kind_type uint16 size = ok (str "INTEGER")
kind_type uint32 size = ok (str "INTEGER")
kind_type int64 size = ok (str "BIGINT")
kind_type uint64 size = ok (str "BIGINT")
kind_type float32 size = ok (str "REAL")
kind_type float64 size = ok (str "REAL")
kind_type string size = ok (string_type size)
kind_type (slice uint8) size = ok (str "BLOB")
kind_type _ size = err invalid_input

abbrev base_sql_type : GoType → SchemaFieldOptions → Result Error Str
base_sql_type (sql_null name) opts = sql_type_for_sql_null name
base_sql_type t opts =
    if not (str_eq opts.sql_type (str "")) then ok opts.sql_type else kind_type t opts.size

abbrev is_sql_null : GoType → Bool
is_sql_null (sql_null name) = true
is_sql_null _ = false

-- `inferSQLType`: the SQL type, the Go type behind the pointers, and whether it may be null.
unfoldable pub infer_sql_type : GoType → SchemaFieldOptions → Result Error (Str × GoType × Bool)
unfolding unwrap_type sql_type_for_sql_null kind_type str_eq
infer_sql_type t opts =
    let (base, nullable) = unwrap_type t in
    base_sql_type base opts >>= λ sql. ok (sql, base, is_sql_null base || nullable)

abbrev optional : Bool → Str → List Str
optional true s = s ∷ []
optional false s = []

abbrev has_default : SchemaFieldOptions → Bool
has_default opts = not (str_eq opts.default_expr (str ""))

-- The parts of a column that follow its name and type.
abbrev pub constraints : SchemaFieldOptions → Bool → List Str
constraints opts mysql =
    optional opts.primary_key (str "PRIMARY KEY")
    ++ (optional (opts.not_null || opts.primary_key) (str "NOT NULL")
        ++ (optional (opts.is_unique && not opts.primary_key) (str "UNIQUE")
            ++ (optional (has_default opts) (str "DEFAULT " ++ opts.default_expr)
                ++ optional mysql (str "AUTO_INCREMENT"))))

abbrev pub sqlite_constraints : SchemaFieldOptions → List Str
sqlite_constraints opts =
    optional opts.is_unique (str "UNIQUE")
    ++ optional (has_default opts) (str "DEFAULT " ++ opts.default_expr)

abbrev pub keyed : SchemaFieldOptions → SchemaFieldOptions
keyed opts = record opts { primary_key = true; not_null = true }

-- The parts of a column whose values the database generates.
abbrev pub generated_parts : Str → Str → SchemaFieldOptions → Str → List Str
generated_parts column sql opts dialect =
    if str_eq dialect (str "sqlite") || str_eq dialect (str "sqlite3")
    then str "INTEGER" ∷ str "PRIMARY KEY" ∷ str "AUTOINCREMENT" ∷ sqlite_constraints opts
    else if str_eq dialect (str "postgres") || str_eq dialect (str "pg")
    then str "BIGSERIAL" ∷ constraints (keyed opts) false
    else sql ∷ constraints (keyed opts) (str_eq dialect (str "mysql"))

-- `buildColumnDef`
unfoldable pub build_column_def : Str → Str → GoType → SchemaFieldOptions → Str → Result Error Str
unfolding normalize_dialect is_integer_type str_eq join
build_column_def column sql base opts dialect =
    if not opts.auto_increment
    then ok (join (str " ") (column ∷ sql ∷ constraints opts false))
    else if not (is_integer_type base)
    then err invalid_input
    else ok (join (str " ") (column ∷ generated_parts column sql opts (normalize_dialect dialect)))

-- What the code uses of package `unicode`.
pub record Unicode : Type 0 where
  pub is_upper : ℕ → Bool
  pub is_lower : ℕ → Bool
  pub to_lower_rune : ℕ → ℕ

-- What an entity is: nil, a value that is no struct, or a struct with the name of its type (empty if
-- it has none), its fields, and the names that `TableName` gives on the entity and on a zero
-- pointer, if there is that method.
pub data Entity : Type 0 where
  nil_entity : Entity
  no_struct : Entity
  struct : Str → List StructField → (own pointed : Option Str) → Entity

module _ (u : Unicode) where
  open u use {is_upper, is_lower, to_lower_rune}

  abbrev pub next_is_lower : Str → Bool
  next_is_lower [] = false
  next_is_lower (c ∷ s) = is_lower c

  -- The loop of `toSnakeCase`, after a rune that is lower-case or not; the first rune has none.
  unfoldable pub snake_from : Option ℕ → Str → Str
  snake_from before [] = []
  snake_from none (c ∷ s) =
      let rest = snake_from (some c) s in if is_upper c then to_lower_rune c ∷ rest else c ∷ rest
  snake_from (some b) (c ∷ s) =
      let rest = snake_from (some c) s in
      if not (is_upper c)
      then c ∷ rest
      else if is_lower b || next_is_lower s
      then b'_' ∷ to_lower_rune c ∷ rest
      else to_lower_rune c ∷ rest

  -- `toSnakeCase`
  unfoldable pub to_snake_case : Str → Str
  unfolding snake_from
  to_snake_case s = snake_from none s

  abbrev same_table : Option Str → Str → Result Error (Option Str)
  same_table none name = ok (some name)
  same_table (some before) name = if str_eq before name then ok (some name) else err invalid_input

  abbrev add_table : Option Str → Option Str → Result Error (Option Str)
  add_table before none = ok before
  add_table before (some name) = same_table before name

  -- The tags of one field, and of the fields, that name a table.
  unfoldable pub raws_table : List Str → Option Str → Result Error (Option Str)
  unfolding parse_schema_table_tag str_eq
  raws_table [] before = ok before
  raws_table (raw ∷ raws) before =
      parse_schema_table_tag raw >>= λ name. add_table before name >>= λ now. raws_table raws now

  unfoldable pub fields_table : List StructField → Option Str → Result Error (Option Str)
  unfolding raws_table schema_tag_raws
  fields_table [] before = ok before
  fields_table (f ∷ fs) before =
      raws_table (schema_tag_raws f) before >>= λ now. fields_table fs now

  abbrev pub valid_table : Option Str → Result Error (Option Str)
  valid_table none = ok none
  valid_table (some name) = valid_identifier name >>= λ v. ok (some v)

  -- `entityTableTagName`
  unfoldable pub entity_table_tag_name : List StructField → Result Error (Option Str)
  unfolding fields_table valid_identifier
  entity_table_tag_name fields = fields_table fields none >>= λ name. valid_table name

  abbrev pub type_table : Str → Result Error Str
  type_table [] = err invalid_input
  type_table (c ∷ s) = valid_identifier (to_snake_case (c ∷ s))

  abbrev pub named_table : Str → (own pointed : Option Str) → Option Str → Result Error Str
  named_table name own pointed (some table) = ok table
  named_table name (some own) pointed none = valid_identifier (trim_space own)
  named_table name none (some pointed) none = valid_identifier (trim_space pointed)
  named_table name none none none = type_table name

  -- `entityTableName`
  unfoldable pub entity_table_name :
      Str → List StructField → (own pointed : Option Str) → Result Error Str
  unfolding entity_table_tag_name to_snake_case valid_identifier trim_space
  entity_table_name name fields own pointed =
      entity_table_tag_name fields >>= λ tagged. named_table name own pointed tagged

  abbrev pub column_or : Str → Str → Str
  column_or [] field = to_snake_case field
  column_or (c ∷ s) field = c ∷ s

  -- The column of a field that is migrated.
  unfoldable pub field_column : StructField → SchemaFieldOptions → Str → Result Error Str
  unfolding to_snake_case valid_identifier infer_sql_type build_column_def
  field_column f opts dialect = valid_identifier (column_or opts.column f.name) >>= λ column.
      infer_sql_type f.go_type opts >>= λ t. build_column_def column t.0 t.1 opts dialect

  -- The loop of `buildCreateTableSQL`.
  unfoldable pub columns : List StructField → Str → Result Error (List Str)
  unfolding field_column parse_schema_field_tag schema_field_tag_raw
  columns [] dialect = ok []
  columns (f ∷ fs) dialect =
      let rest = columns fs dialect in
      if not f.exported || f.anonymous
      then rest
      else (parse_schema_field_tag (schema_field_tag_raw f) >>= λ opts.
          if opts.skip
          then rest
          else (field_column f opts dialect >>= λ column. rest >>= λ cols. ok (column ∷ cols)))

  abbrev pub table_of : Str → Str → List StructField → (own pointed : Option Str) → Result Error Str
  table_of [] name fields own pointed = entity_table_name name fields own pointed
  table_of (c ∷ override) name fields own pointed = valid_identifier (c ∷ override)

  abbrev pub create_statement : Str → List Str → Result Error Str
  create_statement table [] = err invalid_input
  create_statement table (c ∷ cs) = ok (
      str "CREATE TABLE IF NOT EXISTS "
      ++ (table ++ (str " (" ++ (join (str ", ") (c ∷ cs) ++ str ")"))))

  -- `buildCreateTableSQL`: `entityStructType` refuses what is no struct.
  unfoldable pub build_create_table_sql : Entity → Str → Str → Result Error Str
  unfolding entity_table_name columns valid_identifier trim_space join
  build_create_table_sql nil_entity dialect override = err invalid_input
  build_create_table_sql no_struct dialect override = err invalid_input
  build_create_table_sql (struct name fields own pointed) dialect override =
      table_of (trim_space override) name fields own pointed >>= λ table.
      columns fields dialect >>= λ cols. create_statement table cols

-- ===== src/Orm/Schema/Tests.antt =====
-- The statement for a struct, and a migration on a database in memory.
use elgon.Base.{◌+◌, ◌≡◌, refl, true, false, ◌&&◌, none, some, List, [], ◌∷◌, leb, if◌then◌else◌}
use elgon.Base.Text.Atoi.{atoi, digits_from}
use elgon.Base.Text.{
  Str, str, str_eq, cut, split, join, trim_space, trim, trim_left, trim_right, is_space, to_lower,
  lower, decimal, is_decimal,
}
use elgon.Base.Result.{ok}
use elgon.Orm.Value.{invalid_input, is_identifier, is_ident_char, is_letter, valid_identifier}
use elgon.Orm.Schema.{
  string, int64, StructField, schema_field_tag_raw, schema_tag_raws, normalize_schema_tag_key,
  drop_marks, table_tokens, parse_schema_table_tag, apply_option, field_tokens,
  parse_schema_field_tag,
}
use elgon.Orm.Schema.Sql.{
  Unicode, struct, no_struct, unwrap_type, is_integer_type, normalize_dialect, kind_type,
  infer_sql_type, build_column_def, snake_from, to_snake_case, raws_table, fields_table,
  entity_table_tag_name, entity_table_name, field_column, columns, build_create_table_sql,
}
use elgon.Orm.Schema.Statement.{Creates, build_create_table_sql-Creates}
use elgon.Orm.Schema.Migrate.{SchemaDb, migrate_all, auto_migrate, Ends, auto_migrate-Ends}

-- The ASCII part of package `unicode`.
abbrev ascii : Unicode
ascii = record {
  is_upper = λ c. leb b'A' c && leb c b'Z';
  is_lower = λ c. leb b'a' c && leb c b'z';
  to_lower_rune = λ c. if leb b'A' c && leb c b'Z' then c + 32 else c;
}

abbrev user_fields : List StructField
user_fields =
    record {
      name = str "ID";
      exported = true;
      anonymous = false;
      go_type = int64;
      orm_tag = str "pk, auto_increment";
      elgon_tag = [];
    }
    ∷ record {
      name = str "FullName";
      exported = true;
      anonymous = false;
      go_type = string;
      orm_tag = str "size:40,not_null";
      elgon_tag = [];
    }
    ∷ record {
      name = str "cache";
      exported = false;
      anonymous = false;
      go_type = string;
      orm_tag = [];
      elgon_tag = [];
    }
    ∷ []

abbrev user_sql : Str
user_sql =
    str
      "CREATE TABLE IF NOT EXISTS user (id BIGSERIAL PRIMARY KEY NOT NULL, full_name VARCHAR(40) NOT NULL)"

user_built :
    build_create_table_sql ascii (struct (str "User") user_fields none none) (str "postgres") []
    ≡ ok user_sql
unfolding build_create_table_sql entity_table_name entity_table_tag_name fields_table raws_table
    schema_tag_raws parse_schema_table_tag table_tokens to_snake_case snake_from columns
    field_column parse_schema_field_tag schema_field_tag_raw field_tokens apply_option
    normalize_schema_tag_key drop_marks infer_sql_type unwrap_type kind_type build_column_def
    is_integer_type normalize_dialect valid_identifier is_identifier is_ident_char is_letter str_eq
    cut split join trim_space trim trim_left trim_right is_space to_lower lower decimal atoi
    digits_from is_decimal
user_built = refl

build_create_table_sql-Creates_example : Creates ascii (str "postgres") user_fields user_sql
build_create_table_sql-Creates_example =
    build_create_table_sql-Creates ascii (str "User") (str "postgres") [] user_sql user_fields none
      none user_built

-- A database is the statements of its schema, and those before a transaction, while there is one.
abbrev memory : SchemaDb
memory = record {
  State = List Str × List Str;
  begin = λ s. (true, (s.0, s.0));
  exec = λ use_tx stmt s. (none, (stmt ∷ s.0, s.1));
  commit = λ s. (none, (s.0, []));
  rollback = λ s. (s.1, s.1);
}

abbrev before : List Str
before = str "CREATE TABLE old (id TEXT)" ∷ []

fails_at_second :
    auto_migrate ascii memory
      (str "postgres")
      (struct (str "User") user_fields none none ∷ no_struct ∷ [])
      (some (before, []))
    ≡ (some invalid_input, some (before, before))
unfolding auto_migrate migrate_all build_create_table_sql entity_table_name entity_table_tag_name
    fields_table raws_table schema_tag_raws parse_schema_table_tag table_tokens to_snake_case
    snake_from columns field_column parse_schema_field_tag schema_field_tag_raw field_tokens
    apply_option normalize_schema_tag_key drop_marks infer_sql_type unwrap_type kind_type
    build_column_def is_integer_type normalize_dialect valid_identifier is_identifier is_ident_char
    is_letter str_eq cut split join trim_space trim trim_left trim_right is_space to_lower lower
    decimal atoi digits_from is_decimal
fails_at_second = refl

-- The second entity has no statement: the transaction is rolled back.
auto_migrate-Ends_example :
    Ends ascii memory
      (str "postgres")
      true
      (before, before)
      (struct (str "User") user_fields none none ∷ no_struct ∷ [])
      (some invalid_input)
      (before, before)
auto_migrate-Ends_example =
    auto_migrate-Ends ascii memory (str "postgres") (struct (str "User") user_fields none none)
      (no_struct ∷ []) (before, []) (before, before) (some invalid_input) fails_at_second

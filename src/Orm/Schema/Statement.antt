-- ===== src/Orm/Schema/Statement.antt =====
-- The statement that creates a table, as a whole.
use elgon.Base.{◌≡◌, ◌≢◌, refl, sym, ap, ◌∙◌, true, Option, none, some, List, [], ◌∷◌, ◌++◌}
use elgon.Base.Text.{Str, str, trim_space, join}
use elgon.Base.Result.{ok, >>=-eq-ok, ok_inj}
use elgon.Orm.Value.{is_identifier, valid_identifier}
use elgon.Orm.Schema.{StructField}
use elgon.Orm.Schema.Sql.{
  Unicode, struct, columns, fields_table, valid_table, named_table, to_snake_case,
  entity_table_name, entity_table_tag_name, table_of, create_statement, build_create_table_sql,
}
use elgon.Orm.Schema.Columns.{ColumnsOf, columns-ColumnsOf, valid_identifier-is}

module _ (u : Unicode) where
  valid_table-is :
      (o : Option Str) (name : Str) → valid_table u o ≡ ok (some name) → is_identifier name ≡ true
  valid_table-is none name h = cc
  valid_table-is (some raw) name h =
      let (v, valid, h') = >>=-eq-ok (valid_identifier raw) _ h in
      let same : v ≡ name = cc in rw (← same) (valid_identifier-is raw v valid)

  named_table-is :
      (name : Str) (own pointed tagged : Option Str) (out : Str)
      → ((t : Str) → tagged ≡ some t → is_identifier t ≡ true)
      → named_table u name own pointed tagged ≡ ok out
      → is_identifier out ≡ true
  named_table-is name own pointed (some t) out good h = rw (← ok_inj h) (good t refl)
  named_table-is name (some raw) pointed none out good h =
      valid_identifier-is (trim_space raw) out h
  named_table-is name none (some raw) none out good h = valid_identifier-is (trim_space raw) out h
  named_table-is [] none none none out good h = cc
  named_table-is (c ∷ s) none none none out good h =
      valid_identifier-is (to_snake_case u (c ∷ s)) out h

  entity_table_name-is :
      (name : Str) (fields : List StructField) (own pointed : Option Str) (out : Str)
      → entity_table_name u name fields own pointed ≡ ok out
      → is_identifier out ≡ true
  unfolding entity_table_name entity_table_tag_name
  entity_table_name-is name fields own pointed out h =
      let (tagged, found, h1) = >>=-eq-ok (entity_table_tag_name u fields) _ h in
      let (raw, read, h2) = >>=-eq-ok (fields_table u fields none) _ found in
      named_table-is name own pointed tagged out (λ t e. valid_table-is raw t (h2 ∙ ap ok e)) h1

  table_of-is :
      (override name : Str) (fields : List StructField) (own pointed : Option Str) (out : Str)
      → table_of u override name fields own pointed ≡ ok out
      → is_identifier out ≡ true
  table_of-is [] name fields own pointed out h = entity_table_name-is name fields own pointed out h
  table_of-is (c ∷ s) name fields own pointed out h = valid_identifier-is (c ∷ s) out h

  -- The statement for the fields of a struct.
  pub record Creates (dialect : Str) (fields : List StructField) (stmt : Str) : Type 0 where
    pub table : Str
    pub cols : List Str
    pub stmt_text :
        stmt
        ≡ str "CREATE TABLE IF NOT EXISTS "
          ++ (table ++ (str " (" ++ (join (str ", ") cols ++ str ")")))
    pub table_valid : is_identifier table ≡ true
    pub some_columns : cols ≢ []
    pub columns_of : ColumnsOf u dialect fields cols

  create_statement-Creates :
      (dialect table : Str) (fields : List StructField) (cols : List Str) (stmt : Str)
      → is_identifier table ≡ true
      → ColumnsOf u dialect fields cols
      → create_statement u table cols ≡ ok stmt
      → Creates dialect fields stmt
  create_statement-Creates dialect table fields [] stmt valid h q = cc
  create_statement-Creates dialect table fields (c ∷ cs) stmt valid h q = record {
    table = table;
    cols = c ∷ cs;
    stmt_text = sym (ok_inj q);
    table_valid = valid;
    some_columns = λ e. cc;
    columns_of = h;
  }

  -- A statement is built for a struct only, from its tags or the name that is given: it creates a
  -- table with a valid name, with at least one column, and with the columns of its fields.
  pub build_create_table_sql-Creates :
      (name dialect override stmt : Str) (fields : List StructField) (own pointed : Option Str)
      → build_create_table_sql u (struct name fields own pointed) dialect override ≡ ok stmt
      → Creates dialect fields stmt
  unfolding build_create_table_sql
  build_create_table_sql-Creates name dialect override stmt fields own pointed h =
      let (table, named, h1) =
        >>=-eq-ok (table_of u (trim_space override) name fields own pointed) _ h in
      let (cols, built, h2) = >>=-eq-ok (columns u fields dialect) _ h1 in
      create_statement-Creates dialect table fields cols stmt
        (table_of-is (trim_space override) name fields own pointed table named)
        (columns-ColumnsOf u dialect fields cols built) h2

-- ===== src/Orm/Query.antt =====
-- orm/table.go: the statements that the table repository sends, `insertQuery`, `updateQuery`,
-- `selectQuery`, and the statement of `Delete`.
pub mod Texts
pub mod Sound
use elgon.Base.{
  ℕ, zero, suc, ◌+◌, ◌≡◌, refl, Bool, true, false, List, [], ◌∷◌, ◌++◌, ltb, length, if◌then◌else◌,
}
use elgon.Base.Text.{Str, str, str_eq, trim_space, join}
use elgon.Base.Result.{Result, ok, err, ◌>>=◌}
use elgon.Orm.Value.{
  Value, int, Fields, end, field, Error, invalid_input, valid_identifier, sort_keys,
}
use elgon.Orm.Expr.{Part, ph, holders}
use elgon.Orm.Where.{where_clause}

-- A statement and its arguments.
pub record Statement : Type 0 where
  pub query : Str
  pub args : List Value

-- Columns and their values, in the order of the columns.
pub record Columns : Type 0 where
  pub cols : List Str
  pub args : List Value

pub record OrderBy : Type 0 where
  pub column : Str
  pub desc : Bool

-- `FindOptions`; a limit or an offset that is negative is like 0 to the code.
pub record FindOptions : Type 0 where
  pub columns : List Str
  pub filter : Fields
  pub order_by : List OrderBy
  pub limit : ℕ
  pub offset : ℕ

abbrev pub entries_of : Fields → List (Str × Value)
entries_of end = []
entries_of (field k v fs) = (k, v) ∷ entries_of fs

-- The loop of `normalizedValues`.
unfoldable pub valid_columns : List (Str × Value) → Result Error Columns
unfolding valid_identifier
valid_columns [] = ok (record { cols = []; args = [] })
valid_columns ((k, v) ∷ es) = do
  col ← valid_identifier k
  rest ← valid_columns es
  ok (record { cols = col ∷ rest.cols; args = v ∷ rest.args })

-- `normalizedValues`
unfoldable pub normalized_values : Fields → Result Error Columns
unfolding valid_columns sort_keys
normalized_values end = err invalid_input
normalized_values (field k v fs) = valid_columns (sort_keys (entries_of (field k v fs)))

-- The loop of `selectColumns`, after the columns that it has accepted.
unfoldable pub select_columns_from : List Str → List Str → Result Error Str
unfolding valid_identifier trim_space str_eq join
select_columns_from accepted [] = ok (join (str ", ") accepted)
select_columns_from accepted (c ∷ cs) =
    let col = trim_space c in
    let rest : Result Error Str =
      valid_identifier col >>= λ v. select_columns_from (accepted ++ v ∷ []) cs in
    if str_eq col (str "*") then ok (str "*") else rest

-- `selectColumns`
unfoldable pub select_columns : List Str → Result Error Str
unfolding select_columns_from
select_columns [] = ok (str "*")
select_columns (c ∷ cs) = select_columns_from [] (c ∷ cs)

-- `buildReturningClause`
unfoldable pub build_returning_clause : List Str → Result Error Str
unfolding select_columns
build_returning_clause columns = do cols ← select_columns columns; ok (str " RETURNING " ++ cols)

abbrev pub returning_text : Bool → List Str → Result Error Str
returning_text true columns = build_returning_clause columns
returning_text false columns = ok (str "")

-- The loop of `selectQuery` over the order.
unfoldable pub order_parts : List OrderBy → Result Error (List Str)
unfolding valid_identifier
order_parts [] = ok []
order_parts (o ∷ os) = do
  col ← valid_identifier o.column
  rest ← order_parts os
  ok ((if o.desc then col ++ str " DESC" else col ++ str " ASC") ∷ rest)

unfoldable pub order_text : List OrderBy → Result Error Str
unfolding order_parts join
order_text [] = ok (str "")
order_text (o ∷ os) = do
  parts ← order_parts (o ∷ os)
  ok (str " ORDER BY " ++ join (str ", ") parts)

module _ (dialect : Str) where
  -- The assignments `col = ph`, numbered from the one after `n`.
  unfoldable pub set_parts : List Str → ℕ → List Str
  unfolding ph
  set_parts [] n = []
  set_parts (col ∷ cols) n = (col ++ (str " = " ++ ph dialect (n + 1))) ∷ set_parts cols (n + 1)

  -- ` LIMIT ph` or ` OFFSET ph`, if the number is positive.
  unfoldable pub limit_text : Str → ℕ → ℕ → Str
  unfolding ph
  limit_text word n zero = str ""
  limit_text word n (suc k) = word ++ ph dialect (n + 1)

  abbrev pub limit_args : ℕ → List Value
  limit_args zero = []
  limit_args (suc k) = int (suc k) ∷ []

  -- `insertQuery`
  unfoldable pub insert_query : Str → Fields → List Str → Bool → Result Error Statement
  unfolding valid_identifier normalized_values holders join build_returning_clause
  insert_query name values returning with_returning = do
    table ← valid_identifier name
    c ← normalized_values values
    clause ← returning_text with_returning returning
    ok (record {
      query =
          str "INSERT INTO "
          ++ (table
              ++ (str " ("
                  ++ (join (str ", ") c.cols
                      ++ (str ") VALUES ("
                          ++ (join (str ", ") (holders dialect c.args 0)
                              ++ (str ")" ++ clause))))));
      args = c.args;
    })

  -- `updateQuery`
  unfoldable pub update_query : Str → Fields → Fields → List Str → Bool → Result Error Statement
  unfolding valid_identifier normalized_values where_clause set_parts join build_returning_clause
  update_query name end patch returning with_returning = do
    table ← valid_identifier name
    err invalid_input
  update_query name (field k v fs) patch returning with_returning = do
    table ← valid_identifier name
    c ← normalized_values patch
    w ← where_clause dialect (field k v fs) (length c.args)
    clause ← returning_text with_returning returning
    ok (record {
      query =
          str "UPDATE "
          ++ (table
              ++ (str " SET " ++ (join (str ", ") (set_parts c.cols 0) ++ (w.sql ++ clause))));
      args = c.args ++ w.args;
    })

  -- `selectQuery`
  unfoldable pub select_query : Str → FindOptions → Result Error Statement
  unfolding valid_identifier select_columns where_clause order_text limit_text
  select_query name opts = do
    table ← valid_identifier name
    columns ← select_columns opts.columns
    w ← where_clause dialect opts.filter 0
    order ← order_text opts.order_by
    let n = length w.args
    let m = n + length (limit_args opts.limit)
    ok (record {
      query =
          str "SELECT "
          ++ (columns
              ++ (str " FROM "
                  ++ (table
                      ++ (w.sql
                          ++ (order
                              ++ (limit_text (str " LIMIT ") n opts.limit
                                  ++ limit_text (str " OFFSET ") m opts.offset))))));
      args = w.args ++ (limit_args opts.limit ++ limit_args opts.offset);
    })

  -- The statement of `Delete`.
  unfoldable pub delete_query : Str → Fields → Result Error Statement
  unfolding valid_identifier where_clause
  delete_query name end = err invalid_input
  delete_query name (field k v fs) = do
    table ← valid_identifier name
    w ← where_clause dialect (field k v fs) 0
    ok (record { query = str "DELETE FROM " ++ (table ++ w.sql); args = w.args })

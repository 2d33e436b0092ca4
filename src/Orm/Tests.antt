-- ===== src/Orm/Tests.antt =====
-- Statements that the repository sends, and the theorems about them at concrete maps.
use elgon.Base.{
  ℕ, zero, suc, ◌≡◌, refl, sym, ap, ◌==◌, if◌then◌else◌, true, false, none, some, List, [], ◌∷◌,
}
use elgon.Base.Text.{str}
use elgon.Base.Result.{Result, ok, err}
use elgon.Orm.Value.{
  Value, null, text, opaque, object, list, nil, cons, Fields, end, field, Error, database,
}
use elgon.Orm.Expr.{Part}
use elgon.Orm.Template.{Template}
use elgon.Orm.Where.{where_clause}
use elgon.Orm.Where.Sound.{where_clause-IsSound}
use elgon.Orm.Query.{FindOptions, update_query, select_query, delete_query}
use elgon.Orm.Records.{Record}
use elgon.Orm.Table.Batch.{TxDatabase, Atomic}
use elgon.Orm.Table.{Database, update_many_and_return}
use elgon.Orm.Query.Sound.{IsSafeStatement, update_query-IsSafe, select_query-IsSafe}

abbrev sample : Fields
sample =
    field (str "name")
      (object (field (str "contains") (text (str "x")) (field (str "not") null end)))
      (field (str "OR") (list (cons (object (field (str "id") (opaque 1) end)) nil)) end)

abbrev sample_part : Part
sample_part = record {
  sql = str " WHERE (id = $1) AND name LIKE $2 AND name IS NOT NULL";
  args = opaque 1 ∷ text (str "%x%") ∷ [];
  next = 2;
}

where_clause-IsSound_example : Template (str "pg") 0 sample_part
unfolding where_clause
where_clause-IsSound_example = where_clause-IsSound (str "pg") sample 0 sample_part refl

abbrev row : Fields
row = field (str "name") (text (str "ada")) (field (str "age") (opaque 2) end)

update_query-IsSafe_example : IsSafeStatement (str "postgres") (record {
  query =
      str
        "UPDATE users SET age = $1, name = $2 WHERE (id = $3) AND name LIKE $4 AND name IS NOT NULL";
  args = opaque 2 ∷ text (str "ada") ∷ opaque 1 ∷ text (str "%x%") ∷ [];
})
unfolding update_query
update_query-IsSafe_example =
    update_query-IsSafe (str "postgres") (str "users") sample row [] false _ refl

abbrev options : FindOptions
options = record {
  columns = str "id" ∷ str "name" ∷ [];
  filter = field (str "age") (opaque 2) end;
  order_by = record { column = str "id"; desc = true } ∷ [];
  limit = 10;
  offset = 0;
}

select_query-IsSafe_example : IsSafeStatement (str "sqlite") (record {
  query = str "SELECT id, name FROM users WHERE age = ? ORDER BY id DESC LIMIT ?";
  args = opaque 2 ∷ Value.int 10 ∷ [];
})
unfolding select_query
select_query-IsSafe_example = select_query-IsSafe (str "sqlite") (str "users") options _ refl

-- A where map that is not empty but asks for nothing: the statement has no condition.
delete_query_without_where :
    delete_query (str "pg") (str "users") (field (str "AND") (list nil) end)
    ≡ ok (record { query = str "DELETE FROM users"; args = [] })
unfolding delete_query
delete_query_without_where = refl

-- A database with a number as its state: a statement with arguments adds one, and a query gives
-- as many rows as the number says.
abbrev rows_of : ℕ → List (Result Error (List Value))
rows_of zero = []
rows_of (suc n) = ok (opaque 1 ∷ []) ∷ rows_of n

abbrev counter : Database
counter = record {
  Db = ℕ;
  exec = λ st n. (ok (ok 1), suc n);
  query = λ st n.
      (ok (record { columns = some (ok (str "id" ∷ [])); scans = rows_of n; failure = none }), n);
}

abbrev by_id : Fields
by_id = field (str "id") (opaque 1) end

abbrev one_row : Record
one_row = (str "id", opaque 1) ∷ []

-- Without RETURNING the rows are read before the update, and patched by the repository.
update_many_and_return_runs :
    update_many_and_return counter (str "mysql") (str "users") by_id row [] 1 ≡ (
      ok (
          ((str "id", opaque 1) ∷ (str "age", opaque 2) ∷ (str "name", text (str "ada")) ∷ [])
          ∷ []),
      2,
    )
unfolding update_many_and_return
update_many_and_return_runs = refl

-- A transaction on a copy of the number, which takes one row only.
abbrev one_row_tx : Database
one_row_tx = record {
  Db = ℕ;
  exec = λ st n. if n == 3 then (ok (ok 1), suc n) else (err (database 7), n);
  query = λ st n. (err (database 7), n);
}

abbrev copies : TxDatabase
copies = record {
  plain = counter;
  tx = one_row_tx;
  begin = λ n. (some n, n);
  commit = λ t n. (none, t);
  rollback = λ t n. n;
}

copies-Atomic : Atomic copies (str "pg") (str "users")
copies-Atomic = record {
  Content = ℕ;
  view = λ n. n;
  on_rollback = λ s s' t t' b. ap (λ o. o.1) (sym b);
  on_commit = λ s s' s2 t t' e b q. let none_some : none ≡ some e = ap (λ o. o.0) q in cc;
}

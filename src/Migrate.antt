-- ===== src/Migrate.antt =====
-- migrate/migrate.go: the engine that applies and reverts migrations. The database is a parameter.
pub mod Plan
pub mod Applied
pub mod Names
pub mod Loader
pub mod Models
mod Tests
use elgon.Base.{
  ℕ, zero, suc, ◌+◌, ◌≡◌, refl, Bool, true, false, not, ◌&&◌, ◌||◌, Option, none, some, List, [],
  ◌∷◌, ◌++◌, ltb, leb, ◌==◌, if◌then◌else◌,
}
use elgon.Base.Int.{ℤ, int_eq, int_ltb}
use elgon.Base.Text.{Str, str, trim_space, equal_fold, decimal}
use elgon.Base.Result.{Result, ok, err}

-- `Migration`
pub record Migration : Type 0 where
  pub version : ℤ
  pub name : Str
  pub up_sql : Str
  pub down_sql : Str

-- `Status`
pub record Status : Type 0 where
  pub version : ℤ
  pub name : Str
  pub applied : Bool

-- The arguments of a statement.
pub data Arg : Type 0 where
  number : ℤ → Arg
  text : Str → Arg

-- The errors of the engine: a script that is missing, and those of the database.
pub data Error (E : Type 0) : Type 0 where
  missing_sql : ℤ → Error E
  database : E → Error E

-- What a call that may change the database gives: the next state, beside the error if it fails.
pub data Outcome (E S : Type 0) : Type 0 where
  done : S → Outcome E S
  failed : E → S → Outcome E S

-- What the engine uses of `db.Adapter` and `db.Tx`. A transaction is a value that `Commit` and
-- `Rollback` turn into the next state of the database; `versions` are the rows of a SELECT.
pub record Adapter : Type 1 where
  pub Db : Type 0
  pub Tx : Type 0
  pub Failure : Type 0
  pub exec : Str → Db → Outcome Failure Db
  pub versions : Str → Db → Result Failure (List ℤ)
  pub begin : Db → Result Failure Tx
  pub exec_tx : Str → List Arg → Tx → Result Failure Tx
  pub commit : Tx → Db → Outcome Failure Db
  pub rollback : Tx → Db → Db

-- `Engine`, without its adapter.
pub record Engine : Type 0 where
  pub table : Str
  pub dialect : Str

abbrev pub default_table : Str
default_table = str "schema_migrations"

-- `tableName`
unfoldable pub table_name : Engine → Str
table_name e = elim e.table [ [] ↦ default_table | c ∷ s ↦ c ∷ s ]

-- `ph`
unfoldable pub ph : Engine → ℕ → Str
unfolding equal_fold decimal
ph e n =
    if equal_fold e.dialect (str "postgres") || equal_fold e.dialect (str "pg")
    then str "$" ++ decimal n
    else str "?"

-- `strings.TrimSpace(sql) == ""`
unfoldable pub is_blank : Str → Bool
unfolding trim_space
is_blank sql = elim (trim_space sql) [ [] ↦ true | c ∷ s ↦ false ]

-- `applied[version]`
unfoldable pub member : ℤ → List ℤ → Bool
member v [] = false
member v (w ∷ ws) = int_eq w v || member v ws

-- `sort.Slice` by version; versions that are equal may come in any order there.
unfoldable pub insert_by : (ℤ → ℤ → Bool) → Migration → List Migration → List Migration
insert_by before m [] = m ∷ []
insert_by before m (n ∷ ns) =
    if before n.version m.version then n ∷ insert_by before m ns else m ∷ n ∷ ns

unfoldable pub sort_by : (ℤ → ℤ → Bool) → List Migration → List Migration
unfolding insert_by
sort_by before [] = []
sort_by before (m ∷ ms) = insert_by before m (sort_by before ms)

abbrev pub ascending : ℤ → ℤ → Bool
ascending a b = int_ltb a b

abbrev pub descending : ℤ → ℤ → Bool
descending a b = int_ltb b a

-- What `Up` and `Down` return, and the state that they leave.
pub record Run (E S : Type 0) : Type 0 where
  pub count : ℕ
  pub error : Option (Error E)
  pub state : S

-- The loop that `Up` and `Down` share, over the migrations in order: `wanted` is the test that does
-- not `continue`, `script` the text that must not be blank, `one` the call that runs a migration.
module _ {E S : Type 0} (wanted : Migration → Bool) (script : Migration → Str)
    (one : Migration → S → Outcome E S) where
  unfoldable pub loop : ℕ → ℕ → List Migration → S → Run E S
  unfolding is_blank
  loop steps count [] s = record { count = count; error = none; state = s }
  loop steps count (m ∷ ms) s =
      let skip = loop steps count ms s in
      let stop : Run E S = record { count = count; error = none; state = s } in
      let blank : Run E S = record {
        count = count;
        error = some (missing_sql m.version);
        state = s;
      } in
      let next : Run E S = elim (one m s) [
        | done s' ↦ loop steps (count + 1) ms s'
        | failed e s' ↦ record { count = count; error = some (database e); state = s' }
      ] in
      if not (wanted m)
      then skip
      else if ltb 0 steps && leb steps count
      then stop
      else if is_blank (script m)
      then blank
      else next

module _ (a : Adapter) (e : Engine) where
  open a use {Db, Tx, Failure, exec, versions, begin, exec_tx, commit, rollback}

  -- The statement of `ensureTable`.
  unfoldable pub create_table_sql : Str
  unfolding table_name
  create_table_sql =
      str "CREATE TABLE IF NOT EXISTS "
      ++ (table_name e
          ++ str
              " (version INTEGER PRIMARY KEY, name TEXT NOT NULL, applied_at TIMESTAMP NOT NULL)")

  -- The statement of `appliedVersions`.
  unfoldable pub select_sql : Str
  unfolding table_name
  select_sql = str "SELECT version FROM " ++ table_name e

  unfoldable pub insert_sql : Str
  unfolding table_name ph
  insert_sql =
      str "INSERT INTO "
      ++ (table_name e
          ++ (str " (version, name, applied_at) VALUES ("
              ++ (ph e 1 ++ (str ", " ++ (ph e 2 ++ str ", CURRENT_TIMESTAMP)")))))

  unfoldable pub delete_sql : Str
  unfolding table_name ph
  delete_sql = str "DELETE FROM " ++ (table_name e ++ (str " WHERE version = " ++ ph e 1))

  -- The part that `applyOne` and `rollbackOne` share: a script and a statement on the table of
  -- versions in one transaction.
  unfoldable pub in_transaction : Str → Str → List Arg → Db → Outcome Failure Db
  in_transaction script query args db = elim (begin db) [
    | err f ↦ failed f db
    | ok tx ↦ elim (exec_tx script [] tx) [
      | err f ↦ failed f (rollback tx db)
      | ok tx' ↦ elim (exec_tx query args tx') [
        | err f ↦ failed f (rollback tx' db)
        | ok tx'' ↦ commit tx'' db
      ]
    ]
  ]

  -- `applyOne`
  unfoldable pub apply_one : Migration → Db → Outcome Failure Db
  unfolding in_transaction insert_sql
  apply_one m = in_transaction m.up_sql insert_sql (number m.version ∷ text m.name ∷ [])

  -- `rollbackOne`
  unfoldable pub rollback_one : Migration → Db → Outcome Failure Db
  unfolding in_transaction delete_sql
  rollback_one m = in_transaction m.down_sql delete_sql (number m.version ∷ [])

  -- `ensureTable`, then `appliedVersions`, then what follows on their result.
  unfoldable pub with_applied : (Db → List ℤ → Run Failure Db) → Db → Run Failure Db
  unfolding create_table_sql select_sql
  with_applied rest db = elim (exec create_table_sql db) [
    | failed f db' ↦ record { count = 0; error = some (database f); state = db' }
    | done db' ↦ elim (versions select_sql db') [
      | err f ↦ record { count = 0; error = some (database f); state = db' }
      | ok applied ↦ rest db' applied
    ]
  ]

  -- `Up`
  unfoldable pub up : List Migration → ℕ → Db → Run Failure Db
  unfolding with_applied sort_by member loop apply_one
  up migrations steps = with_applied λ db applied.
      loop (λ m. not (member m.version applied)) (λ m. m.up_sql) apply_one steps 0
        (sort_by ascending migrations) db

  -- `Down`
  unfoldable pub down : List Migration → ℕ → Db → Run Failure Db
  unfolding with_applied sort_by member loop rollback_one
  down migrations steps = with_applied λ db applied.
      loop (λ m. member m.version applied) (λ m. m.down_sql) rollback_one steps 0
        (sort_by descending migrations) db

  abbrev status_of : List ℤ → List Migration → List Status
  status_of applied [] = []
  status_of applied (m ∷ ms) =
      record { version = m.version; name = m.name; applied = member m.version applied }
      ∷ status_of applied ms

  -- `Status`, with the state after `ensureTable`.
  unfoldable pub status : List Migration → Db → Result (Error Failure) (List Status) × Db
  unfolding create_table_sql select_sql sort_by member
  status migrations db = elim (exec create_table_sql db) [
    | failed f db' ↦ (err (database f), db')
    | done db' ↦ elim (versions select_sql db') [
      | err f ↦ (err (database f), db')
      | ok applied ↦ (ok (status_of applied (sort_by ascending migrations)), db')
    ]
  ]

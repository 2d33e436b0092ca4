-- ===== src/Orm/Table.antt =====
-- orm/table.go: the operations of the repository. The database is a parameter.
pub mod Laws
pub mod Batch
use elgon.Base.{
  ℕ, suc, ◌+◌, ◌≡◌, refl, Bool, true, false, ◌||◌, Option, none, some, List, [], ◌∷◌, if◌then◌else◌,
}
use elgon.Base.Text.{Str}
use elgon.Base.Result.{Result, ok, err}
use elgon.Orm.Value.{Value, Fields, end, field, Error, not_found, invalid_input, non_unique}
use elgon.Orm.Query.{Statement, FindOptions, insert_query, update_query, select_query, delete_query}
use elgon.Orm.Records.{
  Record, Rows, has_star, apply_patch, merge_create_and_where, column_hints, project_records,
  supports_returning, scan_records,
}

-- What the repository uses of `db.Adapter`: `ExecContext`, whose result gives the rows affected or
-- an error, and `QueryContext`. Both may change the database.
pub record Database : Type 1 where
  pub Db : Type 0
  pub exec : Statement → Db → Result Error (Result Error ℕ) × Db
  pub query : Statement → Db → Result Error Rows × Db

-- The next step after a call that succeeds; an error ends the operation.
abbrev pub after :
    {S A B : Type 0} → Result Error A × S → (A → S → Result Error B × S) → Result Error B × S
after (err e, s) next = (err e, s)
after (ok a, s) next = next a s

abbrev first_of : List Record → Option Record
first_of [] = none
first_of (r ∷ rs) = some r

-- The end of `FindUnique`.
abbrev pub unique_of : List Record → Result Error (Option Record)
unique_of [] = ok none
unique_of (r ∷ []) = ok (some r)
unique_of (r ∷ q ∷ rs) = err non_unique

abbrev pub or_not_found : Option Record → Result Error Record
or_not_found none = err not_found
or_not_found (some r) = ok r

abbrev load_columns : List Str → Fields → Fields → List Str
load_columns [] w patch = column_hints w patch
load_columns (c ∷ cs) w patch = if has_star (c ∷ cs) then column_hints w patch else c ∷ cs

-- The options of `FindUnique`: two rows are enough to see that a row is not unique.
abbrev pub unique_options : Fields → List Str → FindOptions
unique_options w columns = record {
  columns = columns;
  filter = w;
  order_by = [];
  limit = 2;
  offset = 0;
}

module _ (d : Database) (dialect name : Str) where
  open d use {Db, exec, query}

  -- A statement that could not be built sends nothing.
  abbrev sent :
      {A : Type 0}
      → Result Error Statement
      → (Statement → Db → Result Error A × Db)
      → Db
      → Result Error A × Db
  sent (err e) send s = (err e, s)
  sent (ok st) send s = send st s

  -- `FindMany`
  unfoldable pub find_many : FindOptions → Db → Result Error (List Record) × Db
  unfolding select_query scan_records
  find_many opts =
      sent (select_query dialect name opts)
        λ st s. after (query st s) λ rows s'. (scan_records rows opts.columns, s')

  -- `FindFirst`
  unfoldable pub find_first : FindOptions → Db → Result Error (Option Record) × Db
  unfolding find_many
  find_first opts s =
      after (find_many (record opts { limit = 1 }) s) λ rs s'. (ok (first_of rs), s')

  -- `FindFirstOrThrow`
  unfoldable pub find_first_or_throw : FindOptions → Db → Result Error Record × Db
  unfolding find_first
  find_first_or_throw opts s = after (find_first opts s) λ r s'. (or_not_found r, s')

  -- `FindUnique`
  unfoldable pub find_unique : Fields → List Str → Db → Result Error (Option Record) × Db
  unfolding find_many
  find_unique end columns s = (err invalid_input, s)
  find_unique (field k v fs) columns s =
      after (find_many (unique_options (field k v fs) columns) s) λ rs s'. (unique_of rs, s')

  -- `FindUniqueOrThrow`
  unfoldable pub find_unique_or_throw : Fields → List Str → Db → Result Error Record × Db
  unfolding find_unique
  find_unique_or_throw w columns s = after (find_unique w columns s) λ r s'. (or_not_found r, s')

  -- `Create`, and `createWith` on the database itself.
  unfoldable pub create : Fields → Db → Result Error (Result Error ℕ) × Db
  unfolding insert_query
  create values = sent (insert_query dialect name values [] false) exec

  -- `createManyWithoutTx`, with the rows that were created before an error.
  unfoldable pub create_many_without_tx : ℕ → List Fields → Db → (ℕ × Option Error) × Db
  unfolding create
  create_many_without_tx count [] s = ((count, none), s)
  create_many_without_tx count (row ∷ rows) s =
      let (result, s') = create row s in
      elim result [
        | err e ↦ ((count, some e), s')
        | ok res ↦ create_many_without_tx (count + 1) rows s'
      ]

  -- `createAndReturnWith`
  unfoldable pub create_and_return : Fields → List Str → Db → Result Error Record × Db
  unfolding insert_query scan_records
  create_and_return values columns = sent (insert_query dialect name values columns true) λ st s.
      after (query st s)
        λ rows s'. after (scan_records rows columns, s') λ rs s2. (or_not_found (first_of rs), s2)

  -- `createManyAndReturnWith`
  unfoldable pub create_many_and_return :
      List Fields → List Str → Db → Result Error (List Record) × Db
  unfolding create_and_return
  create_many_and_return [] columns s = (ok [], s)
  create_many_and_return (row ∷ rows) columns s =
      after (create_and_return row columns s)
        λ r s'. after (create_many_and_return rows columns s') λ rs s2. (ok (r ∷ rs), s2)

  -- `Update` and `UpdateMany`
  unfoldable pub update_many : Fields → Fields → Db → Result Error ℕ × Db
  unfolding update_query
  update_many w patch =
      sent (update_query dialect name w patch [] false)
        λ st s. after (exec st s) λ affected s'. (affected, s')

  -- `UpdateManyAndReturn`
  unfoldable pub update_many_and_return :
      Fields → Fields → List Str → Db → Result Error (List Record) × Db
  unfolding supports_returning find_many update_many apply_patch project_records update_query
      scan_records column_hints
  update_many_and_return end patch columns s = (err invalid_input, s)
  update_many_and_return (field k v fs) patch columns s =
      let w = field k v fs in
      let opts : FindOptions = record {
        columns = load_columns columns w patch;
        filter = w;
        order_by = [];
        limit = 0;
        offset = 0;
      } in
      if supports_returning dialect
      then sent (update_query dialect name w patch columns true)
          (λ st s1. after (query st s1) λ rows s2. (scan_records rows columns, s2)) s
      else after (find_many opts s) λ before s1.
        after (update_many w patch s1)
          λ affected s2. (project_records (apply_patch before patch) columns, s2)

  -- `Delete` and `DeleteMany`
  unfoldable pub delete_many : Fields → Db → Result Error ℕ × Db
  unfolding delete_query
  delete_many w =
      sent (delete_query dialect name w) λ st s. after (exec st s) λ affected s'. (affected, s')

  abbrev pub update_if_any : Fields → Fields → Db → Result Error ℕ × Db
  update_if_any w end s = (ok 0, s)
  update_if_any w (field k v fs) s = update_many w (field k v fs) s

  -- `Upsert` after its search, on what that has found.
  unfoldable pub upsert_found :
      Fields → Fields → Fields → Option Record → Db → Result Error Record × Db
  unfolding create update_many merge_create_and_where find_unique_or_throw
  upsert_found w create_values update none s =
      after (create (merge_create_and_where create_values w) s)
        λ res s1. find_unique_or_throw w [] s1
  upsert_found w create_values update (some r) s =
      after (update_if_any w update s) λ affected s1. find_unique_or_throw w [] s1

  -- `Upsert`
  unfoldable pub upsert : Fields → Fields → Fields → Db → Result Error Record × Db
  unfolding find_unique upsert_found
  upsert end create_values update s = (err invalid_input, s)
  upsert (field k v fs) create_values update s =
      after (find_unique (field k v fs) [] s) (upsert_found (field k v fs) create_values update)

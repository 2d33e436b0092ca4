-- ===== src/Orm/Table/Batch.antt =====
-- orm/table.go: the creation of many rows, in a transaction where there is one.
use elgon.Base.{ℕ, ◌≡◌, Option, none, some, List, [], ◌∷◌, if◌then◌else◌}
use elgon.Base.Text.{Str}
use elgon.Base.Result.{Result, ok, err}
use elgon.Orm.Value.{Fields, Error}
use elgon.Orm.Query.{entries_of}
use elgon.Orm.Records.{Record, supports_returning, put_all, project_records}
use elgon.Orm.Table.{Database, create_many_without_tx, create_many_and_return}

-- `db.Adapter` with `BeginTx`, and `db.Tx`: a transaction is a database of its own, which the commit
-- or the rollback ends.
pub record TxDatabase : Type 1 where
  pub plain : Database
  pub tx : Database
  pub begin : plain.Db → Option tx.Db × plain.Db
  pub commit : tx.Db → plain.Db → Option Error × plain.Db
  pub rollback : tx.Db → plain.Db → plain.Db

-- The records of `recordsFromValues`.
abbrev records_of : List Fields → List Record
records_of [] = []
records_of (row ∷ rows) = put_all (entries_of row) [] ∷ records_of rows

-- `recordsFromValues`
unfoldable pub records_from_values : List Fields → List Str → Result Error (List Record)
unfolding put_all project_records
records_from_values rows columns = project_records (records_of rows) columns

module _ (d : TxDatabase) (dialect name : Str) where
  open d use {plain, tx, begin, commit, rollback}

  abbrev counted : ℕ → Option Error × plain.Db → (ℕ × Option Error) × plain.Db
  counted count (failed, s) = ((count, failed), s)

  -- The end of a transaction that has created rows, or failed.
  abbrev ended : (ℕ × Option Error) → tx.Db → plain.Db → (ℕ × Option Error) × plain.Db
  ended (count, some e) t s = ((count, some e), rollback t s)
  ended (count, none) t s = counted count (commit t s)

  -- `CreateMany`: the number of rows that it has created when it ends, and the error.
  unfoldable pub create_many : List Fields → plain.Db → (ℕ × Option Error) × plain.Db
  unfolding create_many_without_tx
  create_many [] s = ((0, none), s)
  create_many (row ∷ rows) s =
      let (began, s') = begin s in
      elim began [
        | none ↦ create_many_without_tx plain dialect name 0 (row ∷ rows) s'
        | some t ↦
            let (out, t') = create_many_without_tx tx dialect name 0 (row ∷ rows) t in
            ended out t' s'
      ]

  abbrev returned :
      Result Error (List Record) → tx.Db → plain.Db → Result Error (List Record) × plain.Db
  returned (err e) t s = (err e, rollback t s)
  returned (ok created) t s =
      let (failed, s') = commit t s in
      elim failed [ some e ↦ (err e, s') | none ↦ (ok created, s') ]

  -- `CreateManyAndReturn` where the dialect can return rows.
  unfoldable pub create_returning :
      List Fields → List Str → plain.Db → Result Error (List Record) × plain.Db
  unfolding create_many_and_return
  create_returning rows columns s =
      let (began, s') = begin s in
      elim began [
        | none ↦ create_many_and_return plain dialect name rows columns s'
        | some t ↦
            let (created, t') = create_many_and_return tx dialect name rows columns t in
            returned created t' s'
      ]

  -- `CreateManyAndReturn`
  unfoldable pub create_many_and_return_rows :
      List Fields → List Str → plain.Db → Result Error (List Record) × plain.Db
  unfolding create_many create_returning supports_returning records_from_values
  create_many_and_return_rows [] columns s = (ok [], s)
  create_many_and_return_rows (row ∷ rows) columns s =
      let (out, s') = create_many (row ∷ rows) s in
      if supports_returning dialect then create_returning (row ∷ rows) columns s else elim out.1 [
        | some e ↦ (err e, s')
        | none ↦ (records_from_values (row ∷ rows) columns, s')
      ]

  -- What a transaction promises of the content of the database, if it is begun at a state.
  pub record Atomic : Type 1 where
    pub Content : Type 0
    pub view : plain.Db → Content
    pub on_rollback :
        (s s' : plain.Db) (t t' : tx.Db) → begin s ≡ (some t, s') → view (rollback t' s') ≡ view s
    pub on_commit :
        (s s' s2 : plain.Db) (t t' : tx.Db) (e : Error)
        → begin s ≡ (some t, s')
        → commit t' s' ≡ (some e, s2)
        → view s2 ≡ view s

-- ===== src/Orm/Schema/Migrate.antt =====
-- orm/schema.go: `AutoMigrate`. The database is a parameter.
use elgon.Base.{
  ◌≡◌, refl, ap, Bool, true, false, Option, none, some, List, [], ◌∷◌, ◌++◌, if◌then◌else◌,
}
use elgon.Base.Text.{Str}
use elgon.Base.Result.{ok, err, Result-cases}
use elgon.Base.{inl, inr, Option-cases}
use elgon.Orm.Value.{Error, invalid_input}
use elgon.Orm.Schema.Sql.{Unicode, Entity, build_create_table_sql}

-- What the code uses of `db.Adapter` and `db.Tx`, on the state of the database: `begin` says whether
-- there is a transaction, and `exec` runs a statement in it or without one.
pub record SchemaDb : Type 1 where
  pub State : Type 0
  pub begin : State → Bool × State
  pub exec : Bool → Str → State → Option Error × State
  pub commit : State → Option Error × State
  pub rollback : State → State

some_inj : {A : Type 0} {x y : A} → some x ≡ some y → x ≡ y
some_inj q = cc

module _ (u : Unicode) (d : SchemaDb) (dialect : Str) where
  open d use {State, begin, exec, commit, rollback}

  abbrev undone : Bool → State → State
  undone use_tx s = if use_tx then rollback s else s

  abbrev migrated : Bool → State → Option Error × State
  migrated true s = commit s
  migrated false s = (none, s)

  -- The loop of `AutoMigrate`.
  unfoldable pub migrate_all : Bool → List Entity → State → Option Error × State
  unfolding build_create_table_sql
  migrate_all use_tx [] s = migrated use_tx s
  migrate_all use_tx (entity ∷ entities) s = elim (build_create_table_sql u entity dialect []) [
    | err e ↦ (some e, undone use_tx s)
    | ok stmt ↦
        let (failed, s') = exec use_tx stmt s in
        let rest = migrate_all use_tx entities s' in
        elim failed [ some e ↦ (some e, undone use_tx s') | none ↦ rest ]
  ]

  abbrev some_entities : List Entity → State → Option Error × State
  some_entities [] s = (none, s)
  some_entities (e ∷ es) s = let (use_tx, s') = begin s in migrate_all use_tx (e ∷ es) s'

  -- `AutoMigrate`; a client that has no database is `none`.
  unfoldable pub auto_migrate : List Entity → Option State → Option Error × Option State
  unfolding migrate_all
  auto_migrate entities none = (some invalid_input, none)
  auto_migrate entities (some s) = let (failed, s') = some_entities entities s in (failed, some s')

  -- The statements of entities ran one after the other without an error, in the transaction if there is
  -- one.
  pub data Ran (use_tx : Bool) : State → List Entity → State → Type 0 where
    none_ran : {s : State} → Ran use_tx s [] s
    one_more :
        {entity : Entity} {entities : List Entity} {s t s' : State} (stmt : Str)
        → build_create_table_sql u entity dialect [] ≡ ok stmt
        → exec use_tx stmt s ≡ (none, t)
        → Ran use_tx t entities s'
        → Ran use_tx s (entity ∷ entities) s'

  -- What is behind an error: the transaction is rolled back; without one all stays.
  abbrev pub Undone : Bool → State → State → Type 0
  Undone true s s' = s' ≡ rollback s
  Undone false s s' = s' ≡ s

  -- What is behind the last statement: the outcome is that of the commit; without a transaction there
  -- is no error.
  abbrev pub Finished : Bool → State → Option Error → State → Type 0
  Finished true s outcome s' = commit s ≡ (outcome, s')
  Finished false s outcome s' = (outcome ≡ none) × (s' ≡ s)

  -- How a migration ends: behind the statements of all entities, at an entity that has no statement, or
  -- at one whose statement fails; the statements before that ran, and none behind it.
  pub data Ends (use_tx : Bool) (start : State) (entities : List Entity)
      : Option Error → State → Type 0 where
    all_ran :
        {outcome : Option Error} {s s' : State}
        → Ran use_tx start entities s
        → Finished use_tx s outcome s'
        → Ends use_tx start entities outcome s'
    refused :
        {e : Error} {s s' : State} (before : List Entity) (entity : Entity) (rest : List Entity)
        → entities ≡ before ++ entity ∷ rest
        → Ran use_tx start before s
        → build_create_table_sql u entity dialect [] ≡ err e
        → Undone use_tx s s'
        → Ends use_tx start entities (some e) s'
    broken :
        {e : Error} {s t s' : State} (before : List Entity) (entity : Entity) (rest : List Entity)
        (stmt : Str)
        → entities ≡ before ++ entity ∷ rest
        → Ran use_tx start before s
        → build_create_table_sql u entity dialect [] ≡ ok stmt
        → exec use_tx stmt s ≡ (some e, t)
        → Undone use_tx t s'
        → Ends use_tx start entities (some e) s'

  Undone-undone : (use_tx : Bool) (s : State) → Undone use_tx s (undone use_tx s)
  Undone-undone true s = refl
  Undone-undone false s = refl

  Finished-migrated :
      (use_tx : Bool) (s : State) → Finished use_tx s (migrated use_tx s).0 (migrated use_tx s).1
  Finished-migrated true s = refl
  Finished-migrated false s = (refl, refl)

  -- A statement that ran before.
  Ends-behind :
      (use_tx : Bool) (entity : Entity) (entities : List Entity) (stmt : Str) (s t : State)
      {outcome : Option Error} {s' : State}
      → build_create_table_sql u entity dialect [] ≡ ok stmt
      → exec use_tx stmt s ≡ (none, t)
      → Ends use_tx t entities outcome s'
      → Ends use_tx s (entity ∷ entities) outcome s'
  Ends-behind use_tx entity entities stmt s t good ran (all_ran all end) =
      all_ran (one_more stmt good ran all) end
  Ends-behind use_tx entity entities stmt s t good ran (refused before x rest q all bad end) =
      refused (entity ∷ before) x rest (ap (λ es. entity ∷ es) q) (one_more stmt good ran all) bad
        end
  Ends-behind use_tx entity entities stmt s t good ran
        (broken before x rest st q all ok_x bad end) =
      broken (entity ∷ before) x rest st (ap (λ es. entity ∷ es) q) (one_more stmt good ran all)
        ok_x bad end

  migrate_all-Ends :
      (use_tx : Bool) (s : State) (entities : List Entity)
      → Ends use_tx s entities (migrate_all use_tx entities s).0 (migrate_all use_tx entities s).1
  unfolding migrate_all
  migrate_all-Ends use_tx s [] = all_ran none_ran (Finished-migrated use_tx s)
  migrate_all-Ends use_tx s (entity ∷ entities) =
      elim (Result-cases (build_create_table_sql u entity dialect [])) [
        | inr (e, bad) ↦
            rw (bad, migrate_all)
              (refused [] entity entities refl none_ran bad (Undone-undone use_tx s))
        | inl (stmt, good) ↦
            let out = exec use_tx stmt s in
            elim (Option-cases out.0) [
              | inr (e, failed) ↦
                  rw (good, failed, migrate_all)
                    (broken [] entity entities stmt refl none_ran good (ap (λ o. (o, out.1)) failed)
                      (Undone-undone use_tx out.1))
              | inl fine ↦
                  rw (good, fine, migrate_all)
                    (Ends-behind use_tx entity entities stmt s out.1 good
                      (ap (λ o. (o, out.1)) fine) (migrate_all-Ends use_tx out.1 entities))
            ]
      ]

  -- A migration of at least one entity, on a client with a database, runs the statements of the entities
  -- in order up to the first entity that has no statement or whose statement fails, and returns that
  -- error; in a transaction, which it uses if it gets one, it then rolls back, and it commits only when
  -- all have run, with the outcome of the commit.
  pub auto_migrate-Ends :
      (entity : Entity) (entities : List Entity) (s s' : State) (outcome : Option Error)
      → auto_migrate (entity ∷ entities) (some s) ≡ (outcome, some s')
      → Ends (begin s).0 (begin s).1 (entity ∷ entities) outcome s'
  unfolding auto_migrate
  auto_migrate-Ends entity entities s s' outcome q =
      let out = migrate_all (begin s).0 (entity ∷ entities) (begin s).1 in
      let state : out.1 ≡ s' = some_inj (ap (λ p. p.1) q) in
      rw (← state, ← ap (λ p. p.0) q) (migrate_all-Ends (begin s).0 (begin s).1 (entity ∷ entities))

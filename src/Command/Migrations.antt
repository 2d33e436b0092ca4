-- ===== src/Command/Migrations.antt =====
-- cmd/elgon/main.go: `elgon migrate` over the engine and a database. What Load and
-- GenerateFromModelFiles of migrate/ give, and the flags, are arguments.
pub mod Laws
use elgon.Base.{
  ℕ, zero, suc, ◌-◌, Bool, true, false, not, Option, none, some, List, [], ◌∷◌, ◌++◌, length,
  if◌then◌else◌,
}
use elgon.Base.Int.{ℤ, pos, negsuc}
use elgon.Base.Text.{Str, str, str_eq, decimal}
use elgon.Base.Result.{Result, ok, err}
use elgon.Migrate.{Migration, Status, Error, Run, Adapter, Engine, default_table, up, down, status}
use elgon.Migrate.Models.Generate.{GeneratedMigration}

-- The flags of `migrate` that the actions on a database read.
pub record MigrateFlags : Type 0 where
  pub driver : Str
  pub dsn : Str
  pub dialect : Str
  pub steps : ℤ
  pub apply : Bool

-- The errors: texts, and those of the engine.
pub data MigrateError (E : Type 0) : Type 0 where
  message : Str → MigrateError E
  engine : Error E → MigrateError E

-- The error that the command returns, the lines that it prints, and the database that it leaves.
pub record MigrateOutcome (E S : Type 0) : Type 0 where
  pub error : Option (MigrateError E)
  pub lines : List Str
  pub state : S

-- A limit of the engine: it has none for numbers that are not positive.
abbrev pub limit_of : ℤ → ℕ
limit_of (pos n) = n
limit_of (negsuc n) = 0

unfoldable pub repeat : ℕ → ℕ → Str
repeat zero c = []
repeat (suc n) c = c ∷ repeat n c

-- A version by the verb %04d.
abbrev padded : ℤ → Str
padded (pos n) = repeat (4 - length (decimal n)) b'0' ++ decimal n
padded (negsuc n) = str "-" ++ (repeat (3 - length (decimal (suc n))) b'0' ++ decimal (suc n))

-- A line of `status`, by the verbs %04d and %-20s.
unfoldable pub status_line : Status → Str
unfolding repeat decimal
status_line s =
    padded s.version
    ++ str " "
    ++ s.name
    ++ repeat (20 - length s.name) b' '
    ++ str " "
    ++ (if s.applied then str "applied" else str "pending")

unfoldable pub status_lines : List Status → List Str
unfolding status_line
status_lines [] = []
status_lines (s ∷ ss) = status_line s ∷ status_lines ss

module _ {E S : Type 0} where
  abbrev pub stopped : MigrateError E → List Str → S → MigrateOutcome E S
  stopped e lines s = record { error = some e; lines = lines; state = s }

  abbrev finished : List Str → S → MigrateOutcome E S
  finished lines s = record { error = none; lines = lines; state = s }

  -- What is printed of a run of the engine, behind other lines.
  abbrev pub reported : Str → List Str → Run E S → MigrateOutcome E S
  reported done_text lines r = elim r.error [
    | some e ↦ stopped (engine e) lines r.state
    | none ↦
        finished (lines ++ (done_text ++ str " " ++ decimal r.count ++ str " migrations") ∷ [])
          r.state
  ]

  abbrev listed_status : Result (Error E) (List Status) × S → MigrateOutcome E S
  listed_status (err e, s) = stopped (engine e) [] s
  listed_status (ok ss, s) = finished (status_lines ss) s

-- `db.Open`, by the error that it gives for a driver and a data source.
module _ (a : Adapter) (open_error : Str → Str → Option Str) where
  -- `NewEngine`
  abbrev pub engine_of : MigrateFlags → Engine
  engine_of flags = record { table = default_table; dialect = flags.dialect }

  abbrev pub migration_of : GeneratedMigration → Migration
  migration_of g = record {
    version = pos g.version;
    name = g.name;
    up_sql = g.up_sql;
    down_sql = g.down_sql;
  }

  abbrev generated_lines : GeneratedMigration → List Str
  generated_lines g = (str "generated " ++ g.up_path) ∷ (str "generated " ++ g.down_path) ∷ []

  abbrev opened :
      MigrateFlags → List Str → a.Db → MigrateOutcome a.Failure a.Db → MigrateOutcome a.Failure a.Db
  opened flags lines db next = elim (open_error flags.driver flags.dsn) [
    | some e ↦ stopped (message e) lines db
    | none ↦ next
  ]

  -- The action `generate`.
  unfoldable pub migrate_generate :
      MigrateFlags → Result Str GeneratedMigration → a.Db → MigrateOutcome a.Failure a.Db
  unfolding up decimal
  migrate_generate flags (err e) db = stopped (message e) [] db
  migrate_generate flags (ok g) db =
      let applied = opened flags (generated_lines g) db (
        reported (str "applied") (generated_lines g)
          (up a (engine_of flags) (migration_of g ∷ []) 0 db)) in
      if not flags.apply then finished (generated_lines g) db else applied

  -- The other actions, on the migrations that were loaded.
  unfoldable pub migrate_action :
      Str → MigrateFlags → List Migration → a.Db → MigrateOutcome a.Failure a.Db
  unfolding up down status status_lines decimal str_eq
  migrate_action action flags ms db =
      if str_eq action (str "up")
      then reported (str "applied") [] (up a (engine_of flags) ms (limit_of flags.steps) db)
      else if str_eq action (str "down")
      then reported (str "rolled back") [] (down a (engine_of flags) ms (limit_of flags.steps) db)
      else if str_eq action (str "status")
      then listed_status (status a (engine_of flags) ms db)
      else stopped (message (str "unknown migrate action: " ++ action)) [] db

  abbrev on_loaded :
      Str → MigrateFlags → Result Str (List Migration) → a.Db → MigrateOutcome a.Failure a.Db
  on_loaded action flags (err e) db = stopped (message e) [] db
  on_loaded action flags (ok ms) db = migrate_action action flags ms db

  abbrev on_flags :
      Str
      → Result Str MigrateFlags
      → (MigrateFlags → Result Str GeneratedMigration)
      → (MigrateFlags → Result Str (List Migration))
      → a.Db
      → MigrateOutcome a.Failure a.Db
  on_flags action (err e) generate load db = stopped (message e) [] db
  on_flags action (ok flags) generate load db =
      if str_eq action (str "generate")
      then migrate_generate flags (generate flags) db
      else opened flags [] db (on_loaded action flags (load flags) db)

  -- `cmdMigrate`: the files are loaded behind the opening of the database.
  unfoldable pub cmd_migrate :
      (List Str → Result Str MigrateFlags)
      → (MigrateFlags → Result Str GeneratedMigration)
      → (MigrateFlags → Result Str (List Migration))
      → List Str
      → a.Db
      → MigrateOutcome a.Failure a.Db
  unfolding migrate_generate migrate_action str_eq
  cmd_migrate parse_flags generate load [] db =
      stopped (message (str "usage: elgon migrate up|down|status|generate [flags]")) [] db
  cmd_migrate parse_flags generate load (action ∷ args) db =
      on_flags action (parse_flags args) generate load db

-- ===== src/Migrate/Tests.antt =====
-- Runs of the engine on a database in memory, and the theorems about it there.
use elgon.Base.{
  ℕ, ◌+◌, ◌≡◌, refl, sym, ap, Bool, true, false, none, List, [], ◌∷◌, arith, All, if◌then◌else◌,
}
use elgon.Base.Text.{
  Str, str, str_eq, trim, trim_left, trim_right, trim_space, is_space, to_lower, lower,
}
use elgon.Base.Result.{Result, ok, err, ok_inj}
use elgon.Base.Int.{ℤ, pos, int_eq, int_ltb}
use elgon.Migrate.Names.{normalize_name, normalize_from, is_name_char}
use elgon.Migrate.Loader.{DirEntry, load}
use elgon.Migrate.Loader.Pair.{written, load-file_name}
use elgon.Migrate.Loader.Order.{IsAscending, HaveScripts, load-IsAscending}
use elgon.Orm.Schema.Sql
use elgon.Orm.Schema.Sql.{Unicode}
use elgon.Migrate.Models
use elgon.Migrate.Models.{is_upper, is_lower}
use elgon.Migrate.Models.Tables.{KnowsAscii, to_snake_case-eq}
use elgon.Migrate.{
  Migration, Arg, number, text, Outcome, done, Adapter, Engine, default_table, member, loop, up,
  down,
}
use elgon.Command.Migrations.{MigrateFlags, migrate_action, cmd_migrate}
use elgon.Command.Migrations.Laws.{cmd_migrate-applies-All}
use elgon.Migrate.Plan.{selected, run_plan, loop-eq-run_plan}
use elgon.Migrate.Applied.{Honest, Leaves, up-applies-All, up-again}

abbrev migration : ℕ → Migration
migration v = record { version = pos v; name = str "m"; up_sql = str "up"; down_sql = str "down" }

abbrev remove : ℤ → List ℤ → List ℤ
remove v [] = []
remove v (w ∷ ws) = let rest = remove v ws in if int_eq w v then rest else w ∷ rest

-- A transaction is the table of versions as it will be.
abbrev exec_tx : Str → List Arg → List ℤ → Result ℕ (List ℤ)
exec_tx sql (number v ∷ text name ∷ []) tx = ok (v ∷ tx)
exec_tx sql (number v ∷ []) tx = ok (remove v tx)
exec_tx sql _ tx = ok tx

abbrev memory : Adapter
memory = record {
  Db = List ℤ;
  Tx = List ℤ;
  Failure = ℕ;
  exec = λ sql db. done db;
  versions = λ sql db. ok db;
  begin = ok;
  exec_tx = exec_tx;
  commit = λ tx db. done tx;
  rollback = λ tx db. db;
}

abbrev engine : Engine
engine = record { table = default_table; dialect = str "postgres" }

done_inj : {E S : Type 0} {s t : S} → ◌≡◌ {A = Outcome E S} (done s) (done t) → s ≡ t
done_inj q = cc

abbrev in_memory : Honest memory engine
in_memory = record {
  view = λ db. db;
  seen = λ tx. tx;
  on_begin = λ db tx q v. ap (member v) (sym (ok_inj q));
  on_insert = λ v name tx tx' q w. ap (member w) (sym (ok_inj q));
  on_commit = λ tx db db' q v. ap (member v) (sym (done_inj q));
  on_create = λ db db' q v. ap (member v) (sym (done_inj q));
  on_select = λ db vs q v. ap (member v) (sym (ok_inj q));
}

up-Leaves : Leaves memory engine in_memory (str "up")
up-Leaves tx tx' q v = ap (member v) (sym (ok_inj q))

abbrev three : List Migration
three = migration 3 ∷ migration 1 ∷ migration 2 ∷ []

three-Leave : All (λ m. Leaves memory engine in_memory m.up_sql) three
three-Leave = (up-Leaves, (up-Leaves, (up-Leaves, tt)))

up_runs :
    up memory engine three 0 (pos 1 ∷ [])
    ≡ record { count = 2; error = none; state = pos 3 ∷ pos 2 ∷ pos 1 ∷ [] }
unfolding up
up_runs = refl

down_runs :
    down memory engine three 1 (pos 3 ∷ pos 2 ∷ pos 1 ∷ [])
    ≡ record { count = 1; error = none; state = pos 2 ∷ pos 1 ∷ [] }
unfolding down
down_runs = refl

up-applies-All_example : All (λ m. member m.version (pos 3 ∷ pos 2 ∷ pos 1 ∷ []) ≡ true) three
unfolding up
up-applies-All_example = up-applies-All memory engine in_memory three (pos 1 ∷ []) three-Leave refl

up-again_example : (up memory engine three 0 (pos 3 ∷ pos 2 ∷ pos 1 ∷ [])).count ≡ 0
unfolding up
up-again_example = up-again memory engine in_memory three (pos 1 ∷ []) three-Leave refl

-- A migration that puts its version into the state.
abbrev push : Migration → List ℤ → Outcome ℕ (List ℤ)
push m s = done (m.version ∷ s)

abbrev is_new : Migration → Bool
is_new m = int_ltb (pos 1) m.version

loop-eq-run_plan_example :
    loop is_new (λ m. m.up_sql) push 1 0 three []
    ≡ run_plan is_new (λ m. m.up_sql) push 0 (migration 3 ∷ []) []
unfolding selected
loop-eq-run_plan_example = loop-eq-run_plan is_new (λ m. m.up_sql) push 1 three []

-- The two generated files, as entries of a directory.
abbrev entries : List (DirEntry Str)
entries =
    written 7 (str "Users") (str "0a") (str "down") (str "DROP TABLE users;")
    ∷ written 7 (str "Users") (str "0a") (str "up") (str "CREATE TABLE users (id TEXT);")
    ∷ []

abbrev users_migration : Migration
users_migration = record {
  version = pos 7;
  name = str "users_0a";
  up_sql = str "CREATE TABLE users (id TEXT);";
  down_sql = str "DROP TABLE users;";
}

load-file_name_example : load (str "sqlite") (ok entries) ≡ ok (users_migration ∷ [])
unfolding normalize_name normalize_from is_name_char trim trim_left trim_right trim_space is_space
    to_lower lower str_eq
load-file_name_example =
    load-file_name 7 (str "Users") (str "0a") (str "sqlite") (str "CREATE TABLE users (id TEXT);")
      (str "DROP TABLE users;") (omega arith) (refl, (refl, tt)) refl

users_loaded : load (str "sqlite") (ok entries) ≡ ok (users_migration ∷ [])
unfolding normalize_name normalize_from is_name_char trim trim_left trim_right trim_space is_space
    to_lower lower str_eq
users_loaded =
    load-file_name 7 (str "Users") (str "0a") (str "sqlite") (str "CREATE TABLE users (id TEXT);")
      (str "DROP TABLE users;") (omega arith) (refl, (refl, tt)) refl

load-IsAscending_example : IsAscending (users_migration ∷ []) × HaveScripts (users_migration ∷ [])
load-IsAscending_example =
    load-IsAscending (str "sqlite") entries (users_migration ∷ []) users_loaded

abbrev ascii : Unicode
ascii = record { is_upper = is_upper; is_lower = is_lower; to_lower_rune = λ c. c + 32 }

ascii-KnowsAscii : KnowsAscii ascii
ascii-KnowsAscii = record { upper = λ c h. refl; lower = λ c h. refl; folded = λ c h. refl }

to_snake_case-eq_example : Sql.to_snake_case ascii (str "HTTPLog") ≡ str "http_log"
unfolding Models.to_snake_case Models.snake_from
to_snake_case-eq_example = to_snake_case-eq ascii ascii-KnowsAscii (str "HTTPLog") (
  omega arith,
  (omega arith, (omega arith, (omega arith, (omega arith, (omega arith, (omega arith, tt)))))),
)

abbrev flags : MigrateFlags
flags = record {
  driver = str "pgx";
  dsn = str "postgres://";
  dialect = str "postgres";
  steps = pos 0;
  apply = false;
}

cmd_migrate-applies-All_example :
    All (λ m. member m.version (pos 3 ∷ pos 2 ∷ pos 1 ∷ []) ≡ true) three
unfolding cmd_migrate migrate_action up str_eq
cmd_migrate-applies-All_example =
    cmd_migrate-applies-All memory (λ driver dsn. none) (λ args. ok flags) (λ f. err (str "none"))
      (λ f. ok three) [] flags three (pos 1 ∷ []) in_memory three-Leave refl refl refl refl

-- ===== src/Command.antt =====
-- cmd/elgon/main.go: the command line. The file system and the programs that it runs are a state; what
-- a system call refuses, `filepath.Clean`, the flags of `flag.FlagSet`, and JSON are parameters.
pub mod Laws
pub mod Files
pub mod Migrations
mod Tests
use elgon.Base.{
  ℕ, zero, suc, Bool, true, false, not, ◌||◌, Option, none, some, List, [], ◌∷◌, ◌++◌,
  if◌then◌else◌,
}
use elgon.Base.Text.{Str, str, str_eq, join}
use elgon.Base.Dict
use elgon.Base.Optional.{returns}
use elgon.Base.Result.{Result, ok, err}

-- What the commands change: files with their content, directories, the programs that ran with their
-- arguments, and the lines that were printed.
pub record World : Type 0 where
  pub files : List (Str × Str)
  pub dirs : List Str
  pub runs : List (List Str)
  pub printed : List Str

unfoldable pub has_dir : Str → List Str → Bool
unfolding str_eq
has_dir path [] = false
has_dir path (d ∷ ds) = str_eq d path || has_dir path ds

-- A file or a directory is at a path.
abbrev pub is_there : Str → World → Bool
is_there path w = returns (Dict.lookup path w.files) || has_dir path w.dirs

-- What a command returns, and the state that it leaves.
abbrev pub Outcome : Type 0
Outcome = Option Str × World

abbrev pub then_on : Outcome → (World → Outcome) → Outcome
then_on (some e, w) k = (some e, w)
then_on (none, w) k = k w

-- One call after another, which an error ends.
infixr 5 ◌and_then◌
abbrev pub ◌and_then◌ : (World → Outcome) → (World → Outcome) → World → Outcome
(f and_then g) w = then_on (f w) g

-- The errors that the system gives for a path or a program, and what it knows: `stat_error` is that of
-- `os.Stat` other than that nothing is there, and `ancestors` are the directories above a path.
pub record System : Type 0 where
  pub mkdir_error : Str → Option Str
  pub stat_error : Str → Option Str
  pub write_error : Str → Option Str
  pub run_error : List Str → Option Str
  pub has_program : Str → Bool
  pub ancestors : Str → List Str
  pub clean : Str → Str

abbrev pub print : Str → World → World
print line w = record w { printed = w.printed ++ line ∷ [] }

-- `printUsage`
unfoldable pub print_usage : World → World
print_usage w =
    print (str "commands: new, dev, test, bench, migrate, openapi")
      (print (str "usage: elgon <command>") (print (str "elgon CLI") w))

module _ (sys : System) where
  -- `filepath.Join` of parts that are not empty.
  abbrev pub join_path : List Str → Str
  join_path parts = sys.clean (join (str "/") parts)

  abbrev refused : Option Str → World → World → Outcome
  refused (some e) before after = (some e, before)
  refused none before after = (none, after)

  -- `os.MkdirAll`
  abbrev mkdir_all : Str → World → Outcome
  mkdir_all path w =
      refused (sys.mkdir_error path) w
        (record w { dirs = w.dirs ++ (sys.ancestors path ++ path ∷ []) })

  -- `os.WriteFile`
  abbrev pub write_file : Str → Str → World → Outcome
  write_file path content w =
      refused (sys.write_error path) w (record w { files = Dict.insert path content w.files })

  abbrev when_missing : Option Str → Bool → World → Outcome → Outcome
  when_missing (some e) there w written = (some e, w)
  when_missing none true w written = (none, w)
  when_missing none false w written = written

  -- `writeIfMissing`
  unfoldable pub write_if_missing : Str → Str → World → Outcome
  unfolding Dict.lookup Dict.insert has_dir
  write_if_missing path content w =
      when_missing (sys.stat_error path) (is_there path w) w (write_file path content w)

  -- `runCmd`
  unfoldable pub run_cmd : List Str → World → Outcome
  run_cmd command w = refused (sys.run_error command) w (record w { runs = w.runs ++ command ∷ [] })

  abbrev pub go_mod : Str → Str
  go_mod name = str "module " ++ name ++ str "\n\ngo 1.24.1\n"

  abbrev pub main_go : Str
  main_go = join (str "\n") (
      str "package main"
      ∷ str ""
      ∷ str "import ("
      ∷ str "\t\"log\""
      ∷ str ""
      ∷ str "\t\"github.com/dmesha3/elgon\""
      ∷ str ")"
      ∷ str ""
      ∷ str "func main() {"
      ∷ str "\tapp := elgon.New(elgon.Config{Addr: \":8080\"})"
      ∷ str "\tapp.GET(\"/healthz\", func(c *elgon.Ctx) error {"
      ∷ str "\t\treturn c.JSON(200, map[string]string{\"status\": \"ok\"})"
      ∷ str "\t})"
      ∷ str "\tif err := app.Run(); err != nil {"
      ∷ str "\t\tlog.Fatal(err)"
      ∷ str "\t}"
      ∷ str "}"
      ∷ str ""
      ∷ [])

  abbrev pub readme : Str → Str
  readme name = str "# " ++ name ++ str "\n\nGenerated with elgon CLI.\n"

  -- The project of a name under its root.
  unfoldable pub create : Str → Str → World → Outcome
  unfolding write_if_missing join
  create name root =
      mkdir_all (join_path (root ∷ str "cmd" ∷ str "api" ∷ []))
      and_then mkdir_all (join_path (root ∷ str "internal" ∷ str "http" ∷ str "handlers" ∷ []))
      and_then mkdir_all (join_path (root ∷ str "migrations" ∷ []))
      and_then write_if_missing (join_path (root ∷ str "go.mod" ∷ [])) (go_mod name)
      and_then write_if_missing (join_path (root ∷ str "cmd" ∷ str "api" ∷ str "main.go" ∷ []))
          main_go
      and_then write_if_missing (join_path (root ∷ str "README.md" ∷ [])) (readme name)
      and_then (λ w. (none, print (str "created " ++ root) w))

  -- `cmdNew`
  unfoldable pub cmd_new : List Str → World → Outcome
  unfolding create
  cmd_new [] w = (some (str "usage: elgon new <app>"), w)
  cmd_new ([] ∷ args) w = (some (str "app name cannot be empty"), w)
  cmd_new ((c ∷ name) ∷ args) w = create (c ∷ name) (sys.clean (c ∷ name)) w

  -- What `fs.Parse` makes of the arguments of `dev`: the flag, and whether arguments are left.
  pub record DevFlags : Type 0 where
    pub hot_reload : Bool
    pub rest : Bool

  -- `cmdDev`, on the flags that were parsed or the error.
  unfoldable pub cmd_dev : Result Str DevFlags → World → Outcome
  unfolding run_cmd
  cmd_dev (err e) w = (some e, w)
  cmd_dev (ok flags) w =
      if flags.rest
      then (some (str "usage: elgon dev [--hot-reload]"), w)
      else if not flags.hot_reload
      then run_cmd (str "go" ∷ str "run" ∷ str "./cmd/api" ∷ []) w
      else if sys.has_program (str "air")
      then run_cmd (str "air" ∷ str "-c" ∷ str ".air.toml" ∷ []) w
      else run_cmd
          (str "go"
            ∷ str "run"
            ∷ str "github.com/air-verse/air@latest"
            ∷ str "-c"
            ∷ str ".air.toml"
            ∷ [])
          w

  -- `main` on the arguments behind the program's name, with `cmdMigrate` and `cmdOpenAPI` as they are
  -- given. Without a command the exit has no error's text.
  unfoldable pub main :
      (List Str → Result Str DevFlags)
      → (List Str → World → Outcome)
      → (List Str → World → Outcome)
      → List Str
      → World
      → Outcome
  unfolding cmd_new cmd_dev run_cmd print_usage str_eq
  main dev_flags cmd_migrate cmd_openapi [] w = (some [], print_usage w)
  main dev_flags cmd_migrate cmd_openapi (command ∷ args) w =
      if str_eq command (str "new")
      then cmd_new args w
      else if str_eq command (str "dev")
      then cmd_dev (dev_flags args) w
      else if str_eq command (str "test")
      then run_cmd (str "go" ∷ str "test" ∷ str "./..." ∷ []) w
      else if str_eq command (str "bench")
      then run_cmd (str "go" ∷ str "test" ∷ str "./..." ∷ str "-bench=." ∷ str "-benchmem" ∷ []) w
      else if str_eq command (str "migrate")
      then cmd_migrate args w
      else if str_eq command (str "openapi")
      then cmd_openapi args w
      else (some (str "unknown command: " ++ command), print_usage w)

-- ===== src/Migrate/Loader.antt =====
-- migrate/loader.go: the migrations of a directory. The directory is a parameter.
pub mod Order
pub mod Pair
use elgon.Base.{Bool, true, false, none, some, List, [], ◌∷◌, leb, ◌==◌, if◌then◌else◌}
use elgon.Base.Int.{ℤ, int_leb, int_eq}
use elgon.Base.Text.{Str, str, str_eq}
use elgon.Base.Result.{Result, ok, err, ◌>>=◌}
use elgon.Migrate.{Migration}
use elgon.Migrate.Names.{FileName, parse_migration_file_name}

-- An entry of the directory, and what `os.ReadFile` gives for it.
pub record DirEntry (F : Type 0) : Type 0 where
  pub entry_name : Str
  pub is_dir : Bool
  pub content : Result F Str

pub data LoadError (F : Type 0) : Type 0 where
  unreadable : F → LoadError F
  missing_up : ℤ → LoadError F

abbrev pub with_script : FileName → Str → Migration → Migration
with_script f sql m =
    if str_eq f.direction (str "up") then record m { up_sql = sql } else record m { down_sql = sql }

abbrev pub fresh : FileName → Migration
fresh f = record { version = f.version; name = f.name; up_sql = []; down_sql = [] }

-- `byVersion`, kept in the order of the versions, after a file: the name is that of the first file.
unfoldable pub add_file : FileName → Str → List Migration → List Migration
unfolding str_eq
add_file f sql [] = with_script f sql (fresh f) ∷ []
add_file f sql (m ∷ ms) =
    let rest = add_file f sql ms in
    if int_eq m.version f.version
    then with_script f sql m ∷ ms
    else if int_leb m.version f.version
    then m ∷ rest
    else with_script f sql (fresh f) ∷ m ∷ ms

module _ {F : Type 0} (dialect : Str) where
  -- The loop over the entries.
  unfoldable pub read_entries :
      List (DirEntry F) → List Migration → Result (LoadError F) (List Migration)
  unfolding parse_migration_file_name add_file
  read_entries [] ms = ok ms
  read_entries (e ∷ es) ms =
      let skip = read_entries es ms in
      if e.is_dir then skip else elim (parse_migration_file_name e.entry_name dialect) [
        | none ↦ skip
        | some f ↦ elim e.content [
          | err failure ↦ err (unreadable failure)
          | ok sql ↦ read_entries es (add_file f sql ms)
        ]
      ]

  -- The loop over the versions.
  unfoldable pub check_up : List Migration → Result (LoadError F) (List Migration)
  unfolding str_eq
  check_up [] = ok []
  check_up (m ∷ ms) =
      let rest = check_up ms in
      if str_eq m.up_sql (str "")
      then err (missing_up m.version)
      else (rest >>= λ others. ok (m ∷ others))

  -- `Load`, on what `os.ReadDir` gives.
  unfoldable pub load : Result F (List (DirEntry F)) → Result (LoadError F) (List Migration)
  unfolding read_entries check_up
  load (err failure) = err (unreadable failure)
  load (ok entries) = read_entries entries [] >>= λ ms. check_up ms

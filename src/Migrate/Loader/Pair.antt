-- ===== src/Migrate/Loader/Pair.antt =====
-- A generated pair of files, loaded.
use elgon.Base.{ℕ, ◌<◌, ◌≡◌, refl, true, false, [], ◌∷◌, ◌++◌, All, ==_iff, ◌==◌}
use elgon.Base.Int.{pos, two_63}
use elgon.Base.Text.{Str, str, str_eq}
use elgon.Base.Result.{ok}
use elgon.Migrate.Names.{is_name_char, normalize_name, file_name}
use elgon.Migrate.Names.Printed.{parse_migration_file_name-file_name}
use elgon.Migrate.Loader.{DirEntry, add_file, read_entries, check_up, load}

module _ {F : Type 0} (version : ℕ) (name suffix : Str) where
  -- The file that is generated for a direction.
  abbrev pub written : (direction sql : Str) → DirEntry F
  written direction sql = record {
    entry_name = file_name version name suffix direction;
    is_dir = false;
    content = ok sql;
  }

  -- The two files that are generated for a version, a name and a random suffix, alone in a directory,
  -- are loaded as one migration with both scripts, whatever the dialect, if there is a script to
  -- apply it.
  pub load-file_name :
      (dialect up down : Str)
      → version < two_63
      → All (λ c. is_name_char c ≡ true) suffix
      → str_eq up (str "") ≡ false
      → load dialect (ok (written (str "down") down ∷ written (str "up") up ∷ []))
        ≡ ok (
            record {
              version = pos version;
              name = normalize_name name ++ b'_' ∷ suffix;
              up_sql = up;
              down_sql = down;
            }
            ∷ [])
  unfolding load read_entries check_up add_file str_eq
  load-file_name dialect up down small chars script =
      let first =
        parse_migration_file_name-file_name version name suffix dialect false small chars in
      let second =
        parse_migration_file_name-file_name version name suffix dialect true small chars in
      let same : (version == version) ≡ true = (==_iff version version).1 refl in
      rw (first, second, same, script) refl

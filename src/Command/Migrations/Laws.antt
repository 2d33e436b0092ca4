-- ===== src/Command/Migrations/Laws.antt =====
-- cmd/elgon/main.go: what `elgon migrate up` leaves in the table of versions.
use elgon.Base.{◌≡◌, refl, inl, inr, true, Option, none, some, List, [], ◌∷◌, Option-cases, All}
use elgon.Base.Text.{Str, str, str_eq}
use elgon.Base.Result.{Result, ok}
use elgon.Migrate.{Migration, Run, Adapter, member, up}
use elgon.Migrate.Applied.{Honest, Leaves, up-applies-All}
use elgon.Migrate.Models.Generate.{GeneratedMigration}
use elgon.Command.Migrations.{
  MigrateFlags, limit_of, message, engine, reported, opened, on_loaded, engine_of, migrate_action,
  cmd_migrate,
}

module _ {E S : Type 0} where
  -- A run that is reported without an error had none, and its state is the command's.
  reported-none :
      (done_text : Str) (lines : List Str) (r : Run E S)
      → (reported done_text lines r).error ≡ none
      → (r.error ≡ none) × ((reported done_text lines r).state ≡ r.state)
  reported-none done_text lines r h = elim (Option-cases r.error) [
    | inl q ↦ (q, rw q refl)
    | inr (e, q) ↦ let no : some (engine e) ≡ none = rw q at h in cc
  ]

module _ (a : Adapter) (open_error : Str → Str → Option Str) where
  -- The action on a database that is opened.
  run-applies-All :
      (flags : MigrateFlags) (loaded : Result Str (List Migration)) (ms : List Migration)
      (db : a.Db) (honest : Honest a (engine_of a open_error flags))
      → All (λ m. Leaves a (engine_of a open_error flags) honest m.up_sql) ms
      → loaded ≡ ok ms
      → limit_of flags.steps ≡ 0
      → (opened a open_error flags [] db (on_loaded a open_error (str "up") flags loaded db)).error
        ≡ none
      → All
          (λ m.
            member m.version (
              honest.view
                (opened a open_error flags [] db
                  (on_loaded a open_error (str "up") flags loaded db)).state)
            ≡ true)
          ms
  unfolding migrate_action str_eq
  run-applies-All flags loaded ms db honest quiet same unlimited h =
      elim (Option-cases (open_error flags.driver flags.dsn)) [
        | inr (e, q) ↦ let no : some (message e) ≡ none = rw (q, opened) at h in cc
        | inl q ↦
            let run = up a (engine_of a open_error flags) ms 0 db in
            let (fine, left) =
              reported-none (str "applied") [] run (rw (q, same, unlimited, opened) at h) in
            rw (q, same, unlimited, opened, left)
              (up-applies-All a (engine_of a open_error flags) honest ms db quiet fine)
      ]

  -- `elgon migrate up` without a limit, which ends without an error, leaves every migration that was
  -- loaded in the table of versions, on a database that does what the engine relies on, if no script
  -- that was loaded writes to that table.
  pub cmd_migrate-applies-All :
      (parse_flags : List Str → Result Str MigrateFlags)
      (generate : MigrateFlags → Result Str GeneratedMigration)
      (load : MigrateFlags → Result Str (List Migration)) (args : List Str) (flags : MigrateFlags)
      (ms : List Migration) (db : a.Db) (honest : Honest a (engine_of a open_error flags))
      → All (λ m. Leaves a (engine_of a open_error flags) honest m.up_sql) ms
      → parse_flags args ≡ ok flags
      → load flags ≡ ok ms
      → limit_of flags.steps ≡ 0
      → (cmd_migrate a open_error parse_flags generate load (str "up" ∷ args) db).error ≡ none
      → All
          (λ m.
            member m.version (
              honest.view
                (cmd_migrate a open_error parse_flags generate load (str "up" ∷ args) db).state)
            ≡ true)
          ms
  unfolding cmd_migrate migrate_action str_eq
  cmd_migrate-applies-All parse_flags generate load args flags ms db honest quiet parsed loaded
        unlimited h =
      let e = engine_of a open_error flags in
      let result =
        opened a open_error flags [] db (on_loaded a open_error (str "up") flags (load flags) db) in
      let no_error : result.error ≡ none = rw parsed at h in
      let there = run-applies-All flags (load flags) ms db honest quiet loaded unlimited no_error in
      rw parsed there

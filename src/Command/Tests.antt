-- ===== src/Command/Tests.antt =====
-- Runs of the command line, and the theorem about new projects at a concrete system.
use elgon.Base.{◌≡◌, refl, false, none, some, [], ◌∷◌}
use elgon.Base.Text.{str, str_eq}
use elgon.Base.Dict
use elgon.Command.{World, System, cmd_new}
use elgon.Command.Laws.{OnSuccess, Created, cmd_new-Keeps}

-- A system that refuses nothing, and paths that are clean already.
abbrev willing : System
willing = record {
  mkdir_error = λ path. none;
  stat_error = λ path. none;
  write_error = λ path. none;
  run_error = λ command. none;
  has_program = λ name. false;
  ancestors = λ path. [];
  clean = λ path. path;
}

abbrev with_readme : World
with_readme = record {
  files = (str "shop/README.md", str "mine") ∷ [];
  dirs = [];
  runs = [];
  printed = [];
}

cmd_new-Keeps_example :
    (Dict.lookup (str "shop/README.md") (cmd_new willing (str "shop" ∷ []) with_readme).1.files
      ≡ some (str "mine"))
    × OnSuccess (Created willing (str "shop" ∷ [])) (cmd_new willing (str "shop" ∷ []) with_readme)
unfolding Dict.lookup str_eq
cmd_new-Keeps_example = cmd_new-Keeps willing (str "shop" ∷ []) with_readme (str "shop/README.md")

cmd_new_runs : (cmd_new willing (str "shop" ∷ []) with_readme).0 ≡ none
unfolding cmd_new str_eq
cmd_new_runs = refl

-- A directory at the path of a file stays, and no file is written there.
abbrev with_dir : World
with_dir = record { files = []; dirs = str "shop/go.mod" ∷ []; runs = []; printed = [] }

cmd_new_skips_directory :
    (Dict.lookup (str "shop/go.mod") (cmd_new willing (str "shop" ∷ []) with_dir).1.files ≡ none)
    × ((cmd_new willing (str "shop" ∷ []) with_dir).0 ≡ none)
unfolding cmd_new str_eq
cmd_new_skips_directory = (refl, refl)

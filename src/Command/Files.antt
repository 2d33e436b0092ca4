-- ===== src/Command/Files.antt =====
-- cmd/elgon/main.go: the model files of `elgon migrate generate`, and `elgon openapi`.
pub mod Models
pub mod Valid
use elgon.Base.{
  ℕ, Bool, true, false, not, ◌||◌, ◌&&◌, Option, none, some, List, [], ◌∷◌, ◌++◌, ◌==◌,
  if◌then◌else◌,
}
use elgon.Base.Text.{Str, str, str_eq, split, trim_space, to_lower}
use elgon.Base.Dict
use elgon.Base.Result.{Result, ok, err, ◌>>=◌}
use elgon.Orm.Records.{sort_texts}
use elgon.Command.{World, Outcome, System, print, write_file}

unfoldable pub has_slash : Str → Bool
has_slash [] = false
has_slash (c ∷ s) = c == b'/' || has_slash s

abbrev or_suffix : Str → Str → Str
or_suffix [] here = here
or_suffix (c ∷ s) here = c ∷ s

-- `filepath.Ext`: from the last dot of the last element.
unfoldable pub ext : Str → Str
unfolding has_slash
ext [] = []
ext (c ∷ s) =
    let rest = ext s in or_suffix rest (if c == b'.' && not (has_slash s) then c ∷ s else [])

-- A path whose extension is that of a Go file, in any case.
unfoldable pub is_go_file : Str → Bool
unfolding ext to_lower str_eq
is_go_file path = str_eq (to_lower (ext path)) (str ".go")

-- The errors of `resolveModelFiles`.
pub data ResolveError : Type 0 where
  requires_models : ResolveError
  bad_pattern : Str → ResolveError
  no_match : Str → ResolveError

unfoldable pub listed : Str → List Str → Bool
unfolding str_eq
listed s [] = false
listed s (t ∷ ts) = str_eq t s || listed s ts

-- The loop over the matches: `found` has the same paths as `out`.
unfoldable pub add_matches : List Str → List Str → List Str
unfolding is_go_file listed
add_matches [] out = out
add_matches (m ∷ ms) out =
    let keep = add_matches ms (out ++ m ∷ []) in
    let skip = add_matches ms out in if not (is_go_file m) || listed m out then skip else keep

abbrev sorted_files : Str → List Str → Result ResolveError (List Str)
sorted_files raw [] = err (no_match raw)
sorted_files raw (f ∷ fs) = ok (sort_texts (f ∷ fs))

-- `filepath.Glob` and `os.Stat` are parameters.
module _ (glob : Str → Result Str (List Str)) (exists : Str → Bool) where
  -- What a pattern matches: itself, if it is a file that no glob gives.
  abbrev matches_of : Str → List Str → List Str
  matches_of part [] = if exists part then part ∷ [] else []
  matches_of part (m ∷ ms) = m ∷ ms

  abbrev globbed : Str → Result ResolveError (List Str)
  globbed part = elim (glob part) [ err e ↦ err (bad_pattern e) | ok ms ↦ ok (matches_of part ms) ]

  -- The loop over the parts.
  unfoldable pub add_parts : List Str → List Str → Result ResolveError (List Str)
  unfolding add_matches trim_space str_eq
  add_parts [] out = ok out
  add_parts (p ∷ ps) out =
      let part = trim_space p in
      let skip = add_parts ps out in
      let used = globbed part >>= (λ ms. add_parts ps (add_matches ms out)) in
      if str_eq part (str "") then skip else used

  -- `resolveModelFiles`
  unfoldable pub resolve_model_files : Str → Result ResolveError (List Str)
  unfolding add_parts split trim_space str_eq sort_texts
  resolve_model_files raw =
      if str_eq (trim_space raw) (str "")
      then err requires_models
      else add_parts (split b',' raw) [] >>= (λ out. sorted_files raw out)

-- What `json.Unmarshal` makes of a member of a document, as far as the test of its type goes.
pub data Member : Type 0 where
  text object other : Member

abbrev is_text : Option Member → Bool
is_text (some text) = true
is_text (some object) = false
is_text (some other) = false
is_text none = false

abbrev is_object : Option Member → Bool
is_object (some object) = true
is_object (some text) = false
is_object (some other) = false
is_object none = false

-- The tests of `elgon openapi validate` on the members of the document.
unfoldable pub check_document : List (Str × Member) → World → Outcome
unfolding Dict.lookup
check_document doc w =
    if not (is_text (Dict.lookup (str "openapi") doc))
    then (some (str "openapi field missing or invalid"), w)
    else if not (is_object (Dict.lookup (str "info") doc))
    then (some (str "info field missing or invalid"), w)
    else if not (is_object (Dict.lookup (str "paths") doc))
    then (some (str "paths field missing or invalid"), w)
    else (none, print (str "openapi document is valid") w)

-- The flags of `openapi` behind its action.
pub record OpenApiFlags : Type 0 where
  pub file : Str
  pub title : Str
  pub version : Str

-- The members of the document that `elgon openapi generate` writes.
abbrev pub skeleton : List (Str × Member)
skeleton = (str "openapi", text) ∷ (str "info", object) ∷ (str "paths", object) ∷ []

-- The error of reading a file, the text of the skeleton with a title and a version, and the
-- members of a text are parameters.
module _ (sys : System) (parse_flags : List Str → Result Str OpenApiFlags) (read_error : Str → Str)
    (marshal : Str → Str → Str) (unmarshal : Str → Result Str (List (Str × Member))) where
  abbrev checked : Result Str (List (Str × Member)) → World → Outcome
  checked (err e) w = (some e, w)
  checked (ok doc) w = check_document doc w

  abbrev validate : Str → Option Str → World → Outcome
  validate file none w = (some (read_error file), w)
  validate file (some content) w = checked (unmarshal content) w

  abbrev run_action : Str → Result Str OpenApiFlags → World → Outcome
  run_action action (err e) w = (some e, w)
  run_action action (ok flags) w =
      if str_eq action (str "generate")
      then write_file sys flags.file (marshal flags.title flags.version) w
      else if str_eq action (str "validate")
      then validate flags.file (Dict.lookup flags.file w.files) w
      else (some (str "unknown openapi action: " ++ action), w)

  -- `cmdOpenAPI`
  unfoldable pub cmd_openapi : List Str → World → Outcome
  unfolding check_document Dict.lookup Dict.insert str_eq
  cmd_openapi [] w = (some (str "usage: elgon openapi generate|validate [flags]"), w)
  cmd_openapi (action ∷ args) w = run_action action (parse_flags args) w

-- ===== src/Migrate/Names.antt =====
-- migrate/migrate.go and migrate/generate.go: the names of the migration files.
pub mod Chars
pub mod Printed
use mathlib.Core.List.{reverse}
use mathlib.Core.Option
use elgon.Base.{
  ℕ, zero, suc, ◌+◌, ◌-◌, ◌*◌, Bool, true, false, not, ◌&&◌, ◌||◌, Option, none, some, List, [],
  ◌∷◌, ◌++◌, ltb, leb, ◌==◌, if◌then◌else◌,
}
use elgon.Base.Int.{ℤ, pos, negsuc, two_63}
use elgon.Base.Text.Atoi.{atoi}
use elgon.Base.Text.{
  Str, str, str_eq, split, trim, trim_space, trim_right, to_lower, decimal, is_decimal, cut,
}

unfoldable pub strip_prefix : Str → Str → Option Str
strip_prefix [] s = some s
strip_prefix (p ∷ ps) [] = none
strip_prefix (p ∷ ps) (c ∷ s) = let rest = strip_prefix ps s in if c == p then rest else none

-- `strings.HasSuffix` with `strings.TrimSuffix`.
unfoldable pub cut_suffix : Str → Str → Option Str
unfolding strip_prefix
cut_suffix suffix s = Option.map reverse (strip_prefix (reverse suffix) (reverse s))

abbrev pub is_slash : ℕ → Bool
is_slash c = c == b'/'

abbrev pub last_part : List Str → Str
last_part [] = []
last_part (p ∷ []) = p
last_part (p ∷ q ∷ ps) = last_part (q ∷ ps)

abbrev pub base_of : Str → Str
base_of [] = str "/"
base_of (c ∷ s) = last_part (split b'/' (c ∷ s))

-- `filepath.Base`, where the separator is a slash.
unfoldable pub base_name : Str → Str
unfolding split trim_right
base_name [] = str "."
base_name (c ∷ s) = base_of (trim_right is_slash (c ∷ s))

-- What is read from the name of a file.
pub record FileName : Type 0 where
  pub version : ℤ
  pub name : Str
  pub direction : Str

abbrev file_of : Str → Str → Option ℤ → Option FileName
file_of name direction none = none
file_of name direction (some v) = some (record { version = v; name = name; direction = direction })

abbrev pub versioned : Str → Option (Str × Str) → Option FileName
versioned direction none = none
versioned direction (some ([], name)) = none
versioned direction (some (c ∷ v, [])) = none
versioned direction (some (c ∷ v, d ∷ name)) = file_of (d ∷ name) direction (atoi (c ∷ v))

abbrev pub is_direction : Str → Bool
is_direction d = str_eq d (str "up") || str_eq d (str "down")

abbrev pub of_parts : Str → List Str → Option FileName
of_parts dialect (left ∷ direction ∷ []) =
    if is_direction direction then versioned direction (cut b'_' left) else none
of_parts dialect (left ∷ for_dialect ∷ direction ∷ []) =
    if not (is_direction direction)
    then none
    else if not (str_eq dialect (str "")) && not (str_eq for_dialect dialect)
    then none
    else versioned direction (cut b'_' left)
of_parts dialect _ = none

abbrev pub of_trimmed : Str → Option Str → Option FileName
of_trimmed dialect none = none
of_trimmed dialect (some trimmed) = of_parts dialect (split b'.' trimmed)

-- `ParseMigrationFileName`
unfoldable pub parse_migration_file_name : Str → Str → Option FileName
unfolding base_name cut_suffix split cut atoi str_eq
parse_migration_file_name filename dialect =
    of_trimmed dialect (cut_suffix (str ".sql") (base_name filename))

unfoldable pub is_name_char : ℕ → Bool
is_name_char c = leb b'a' c && leb c b'z' || leb b'0' c && leb c b'9'

-- The loop of `normalizeName`: what is no letter or digit gives one underscore for each run.
unfoldable pub normalize_from : Bool → Str → Str
unfolding is_name_char
normalize_from last_underscore [] = []
normalize_from last_underscore (c ∷ s) =
    let kept = normalize_from false s in
    let dropped = normalize_from true s in
    if is_name_char c then c ∷ kept else if last_underscore then dropped else b'_' ∷ dropped

abbrev pub is_underscore : ℕ → Bool
is_underscore c = c == b'_'

abbrev pub or_autogen : Str → Str
or_autogen [] = str "autogen"
or_autogen (c ∷ s) = c ∷ s

abbrev pub normalize_lower : Str → Str
normalize_lower [] = str "autogen"
normalize_lower (c ∷ s) = or_autogen (trim is_underscore (normalize_from false (c ∷ s)))

-- `normalizeName`
unfoldable pub normalize_name : Str → Str
unfolding normalize_from to_lower trim_space trim
normalize_name name = normalize_lower (trim_space (to_lower name))

-- The name of a generated file: the version, the name and the random suffix, and the direction.
unfoldable pub file_name : ℕ → Str → Str → Str → Str
unfolding decimal normalize_name
file_name version name suffix direction =
    decimal version
    ++ (str "_"
        ++ (normalize_name name ++ (str "_" ++ (suffix ++ (str "." ++ (direction ++ str ".sql"))))))

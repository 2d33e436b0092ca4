-- ===== src/Migrate/Names/Printed.antt =====
-- The names of generated files, read back.
use mathlib.Core.List.{reverse, reverse-append, reverse-reverse}
use mathlib.Core.Option
use elgon.Base.{
  ℕ, ◌<◌, ◌≡◌, ◌≢◌, refl, sym, ap, ◌∙◌, Bool, true, false, some, [], ◌∷◌, ◌++◌, append_assoc, All,
  All-append, All-weaken, arith, ◌==◌,
}
use elgon.Base.Int.{ℤ, pos, two_63}
use elgon.Base.Text.{Str, str, str_eq, split, decimal, is_decimal, cut}
use elgon.Base.Text.Atoi.{atoi}
use elgon.Base.Text.Numbers.{atoi-decimal}
use elgon.Base.Text.Decimal.{decimal-digits, decimal-ne-nil}
use elgon.Base.Text.Splits.{Avoids, cut-append, Ends, trim_right-keep, split-last, split-append}
use elgon.Migrate.Names.Chars.{
  is_file_char, IsFile, file_char-other, IsFile-Avoids, normalize_name-IsFile, underscore-IsFile,
}
use elgon.Migrate.Names.{
  strip_prefix, cut_suffix, is_slash, base_of, last_part, base_name, of_trimmed, of_parts,
  versioned, parse_migration_file_name, is_name_char, normalize_name, file_name,
}

strip_prefix-append : (p t : Str) → strip_prefix p (p ++ t) ≡ some t
unfolding strip_prefix
strip_prefix-append [] t = refl
strip_prefix-append (c ∷ p) t = ground (arith, strip_prefix-append p t)

cut_suffix-append : (suffix s : Str) → cut_suffix suffix (s ++ suffix) ≡ some s
unfolding cut_suffix
cut_suffix-append suffix s =
    ap (λ t. Option.map reverse (strip_prefix (reverse suffix) t)) (reverse-append s suffix)
    ∙ ap (Option.map reverse) (strip_prefix-append (reverse suffix) (reverse s))
    ∙ ap some (reverse-reverse s)

-- A file name that has no slash and an end is its own base.
base_name-keep : (s : Str) → s ≢ [] → Avoids is_slash s → Ends is_slash s → base_name s ≡ s
unfolding base_name
base_name-keep [] ne h end = absurd (ne refl)
base_name-keep (c ∷ s) ne h end =
    ap base_of (trim_right-keep is_slash (c ∷ s) end) ∙ ap last_part (split-last b'/' (c ∷ s) h)

-- The two directions.
abbrev pub direction_of : Bool → Str
direction_of true = str "up"
direction_of false = str "down"

direction-IsFile : (up : Bool) → IsFile (direction_of up)
unfolding is_name_char
direction-IsFile true = (refl, (refl, tt))
direction-IsFile false = (refl, (refl, (refl, (refl, tt))))

of_parts-two :
    (dialect left name : Str) (v : ℤ) (up : Bool)
    → versioned (direction_of up) (cut b'_' left)
      ≡ some (record { version = v; name = name; direction = direction_of up })
    → of_parts dialect (left ∷ direction_of up ∷ [])
      ≡ some (record { version = v; name = name; direction = direction_of up })
unfolding str_eq
of_parts-two dialect left name v true h = h
of_parts-two dialect left name v false h = h

decimals-IsFile : (s : Str) → All (λ c. is_decimal c ≡ true) s → IsFile s
unfolding is_decimal is_name_char
decimals-IsFile s h = All-weaken (λ c q. ground arith) s h

decimals-Avoids : (s : Str) → All (λ c. is_decimal c ≡ true) s → Avoids (λ c. c == b'_') s
unfolding is_decimal
decimals-Avoids s h = All-weaken (λ c q. ground arith) s h

append-ne-nil : (s t : Str) (c : ℕ) → s ++ c ∷ t ≢ []
append-ne-nil [] t c q = cc
append-ne-nil (x ∷ s) t c q = cc

versioned-some :
    (digits name direction : Str) (v : ℤ)
    → digits ≢ []
    → name ≢ []
    → atoi digits ≡ some v
    → versioned direction (some (digits, name))
      ≡ some (record { version = v; name = name; direction = direction })
versioned-some [] name direction v ne ne' e = absurd (ne refl)
versioned-some (c ∷ digits) [] direction v ne ne' e = absurd (ne' refl)
versioned-some (c ∷ digits) (d ∷ name) direction v ne ne' e = rw e refl

module _ (digits name : Str) (up : Bool) where
  abbrev body : Str
  body = digits ++ b'_' ∷ (name ++ b'.' ∷ direction_of up)

  module _ (all : All (λ c. is_decimal c ≡ true) digits) (hn : IsFile name) where
    hd : IsFile digits
    hd = decimals-IsFile digits all

    body-Avoids :
        (sep : ℕ) → is_file_char sep ≡ false → (b'.' == sep) ≡ false → Avoids (λ c. c == sep) body
    body-Avoids sep h dot =
        All-append (λ c. (c == sep) ≡ false) digits _ (IsFile-Avoids sep digits h hd)
          (
            file_char-other sep b'_' h underscore-IsFile,
            All-append (λ c. (c == sep) ≡ false) name _ (IsFile-Avoids sep name h hn)
                (dot, IsFile-Avoids sep (direction_of up) h (direction-IsFile up)),
          )

    body-base : base_name (body ++ str ".sql") ≡ body ++ str ".sql"
    unfolding is_name_char
    body-base =
        base_name-keep (body ++ str ".sql") (append-ne-nil body _ b'.')
          (All-append (λ c. (c == b'/') ≡ false) body (str ".sql") (body-Avoids b'/' refl refl)
            (refl, (refl, (refl, (refl, tt)))))
          (body ++ str ".sq", b'l', sym (append_assoc body (str ".sq") (str "l")), refl)

    body-split : split b'.' body ≡ (digits ++ b'_' ∷ name) ∷ direction_of up ∷ []
    unfolding is_name_char
    body-split =
        ap (split b'.') (sym (append_assoc digits (b'_' ∷ name) (b'.' ∷ direction_of up)))
        ∙ split-append b'.' (digits ++ b'_' ∷ name) (direction_of up) (
            All-append (λ c. (c == b'.') ≡ false) digits _ (IsFile-Avoids b'.' digits refl hd)
              (refl, IsFile-Avoids b'.' name refl hn))
        ∙ ap (λ ps. (digits ++ b'_' ∷ name) ∷ ps)
            (split-last b'.' (direction_of up)
              (IsFile-Avoids b'.' (direction_of up) refl (direction-IsFile up)))

    parse_migration_file_name-body :
        (dialect : Str) (v : ℤ)
        → digits ≢ []
        → name ≢ []
        → atoi digits ≡ some v
        → parse_migration_file_name (body ++ str ".sql") dialect
          ≡ some (record { version = v; name = name; direction = direction_of up })
    unfolding parse_migration_file_name is_name_char
    parse_migration_file_name-body dialect v ne ne' e =
        ap (λ s. of_trimmed dialect (cut_suffix (str ".sql") s)) body-base
        ∙ ap (of_trimmed dialect) (cut_suffix-append (str ".sql") body)
        ∙ ap (of_parts dialect) body-split
        ∙ of_parts-two dialect (digits ++ b'_' ∷ name) name v up (
            ap (versioned (direction_of up))
              (cut-append b'_' digits name (decimals-Avoids digits all))
            ∙ versioned-some digits name (direction_of up) v ne ne' e)

regroup :
    (digits name suffix direction : Str)
    → digits
        ++ (str "_" ++ (name ++ (str "_" ++ (suffix ++ (str "." ++ (direction ++ str ".sql"))))))
      ≡ (digits ++ b'_' ∷ ((name ++ b'_' ∷ suffix) ++ b'.' ∷ direction)) ++ str ".sql"
regroup digits name suffix direction = simp append_assoc

-- The file that is generated for a version, a name and a random suffix of letters and digits is
-- read back, for every dialect: the version, the name with the suffix, and the direction.
pub parse_migration_file_name-file_name :
    (version : ℕ) (name suffix dialect : Str) (up : Bool)
    → version < two_63
    → All (λ c. is_name_char c ≡ true) suffix
    → parse_migration_file_name (file_name version name suffix (direction_of up)) dialect
      ≡ some (record {
        version = pos version;
        name = normalize_name name ++ b'_' ∷ suffix;
        direction = direction_of up;
      })
unfolding file_name
parse_migration_file_name-file_name version name suffix dialect up small h =
    let full = normalize_name name ++ b'_' ∷ suffix in
    ap (λ s. parse_migration_file_name s dialect)
      (regroup (decimal version) (normalize_name name) suffix (direction_of up))
    ∙ parse_migration_file_name-body (decimal version) full up (decimal-digits version)
        (All-append (λ c. is_file_char c ≡ true) (normalize_name name) (b'_' ∷ suffix)
          (normalize_name-IsFile name) (underscore-IsFile, All-weaken (λ c q. rw q refl) suffix h))
        dialect (pos version) (decimal-ne-nil version)
        (append-ne-nil (normalize_name name) suffix b'_') (atoi-decimal version small)

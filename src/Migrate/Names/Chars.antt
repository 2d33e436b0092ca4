-- ===== src/Migrate/Names/Chars.antt =====
-- The characters of the name of a migration.
use mathlib.Core.List.{reverse, reverse-cons}
use mathlib.Core.Path.{subst}
use elgon.Base.{
  ℕ, ◌≡◌, refl, sym, Bool, true, false, ◌||◌, [], ◌∷◌, All, All-append, All-weaken, Bool-cases, inl,
  inr, ==_iff, ◌==◌, if◌then◌else◌,
}
use elgon.Base.Text.{Str, str, trim, trim_left, trim_right, trim_space, to_lower}
use elgon.Base.Text.Splits.{Avoids}
use elgon.Migrate.Names.{
  is_name_char, normalize_from, is_underscore, normalize_name, normalize_lower, or_autogen,
}

-- A character of the name of a migration.
abbrev pub is_file_char : ℕ → Bool
is_file_char c = is_name_char c || c == b'_'

abbrev pub IsFile : Str → Type 0
IsFile = All (λ c. is_file_char c ≡ true)

-- A character that no test for a separator holds of.
pub file_char-other :
    (sep c : ℕ) → is_file_char sep ≡ false → is_file_char c ≡ true → (c == sep) ≡ false
file_char-other sep c h q = elim (Bool-cases (c == sep)) [
  | inr other ↦ other
  | inl here ↦ let e = (==_iff c sep).0 here in let q' = rw e at q in cc
]

pub IsFile-Avoids :
    (sep : ℕ) (s : Str) → is_file_char sep ≡ false → IsFile s → Avoids (λ c. c == sep) s
IsFile-Avoids sep s h = All-weaken (λ c q. file_char-other sep c h q) s

underscore_first : (b : Bool) (s : Str) → IsFile s → IsFile (if b then s else b'_' ∷ s)
unfolding is_name_char
underscore_first true s h = h
underscore_first false s h = (refl, h)

normalize_from-IsFile : (b : Bool) (s : Str) → IsFile (normalize_from b s)
unfolding normalize_from
normalize_from-IsFile b [] = tt
normalize_from-IsFile b (c ∷ s) = elim (Bool-cases (is_name_char c)) [
  | inl good ↦ rw good (rw good refl, normalize_from-IsFile false s)
  | inr bad ↦ rw bad (underscore_first b _ (normalize_from-IsFile true s))
]

trim_left-IsFile : (q : ℕ → Bool) (s : Str) → IsFile s → IsFile (trim_left q s)
unfolding trim_left
trim_left-IsFile q [] h = tt
trim_left-IsFile q (c ∷ s) h = elim (Bool-cases (q c)) [
  | inl drop ↦ rw drop (trim_left-IsFile q s h.1)
  | inr keep ↦ rw keep h
]

reverse-IsFile : (s : Str) → IsFile s → IsFile (reverse s)
reverse-IsFile [] h = tt
reverse-IsFile (c ∷ s) h =
    subst IsFile (sym (reverse-cons c s)) (
      All-append (λ c. is_file_char c ≡ true) (reverse s) (c ∷ []) (reverse-IsFile s h.1) (h.0, tt))

trim-IsFile : (q : ℕ → Bool) (s : Str) → IsFile s → IsFile (trim q s)
unfolding trim trim_right
trim-IsFile q s h =
    reverse-IsFile _ (trim_left-IsFile q _ (reverse-IsFile _ (trim_left-IsFile q s h)))

autogen-IsFile : IsFile (str "autogen")
unfolding is_name_char
autogen-IsFile = (refl, (refl, (refl, (refl, (refl, (refl, (refl, tt)))))))

or_autogen-IsFile : (s : Str) → IsFile s → IsFile (or_autogen s)
or_autogen-IsFile [] h = autogen-IsFile
or_autogen-IsFile (c ∷ s) h = h

normalize_lower-IsFile : (s : Str) → IsFile (normalize_lower s)
normalize_lower-IsFile [] = autogen-IsFile
normalize_lower-IsFile (c ∷ s) =
    or_autogen-IsFile _ (trim-IsFile is_underscore _ (normalize_from-IsFile false (c ∷ s)))

pub normalize_name-IsFile : (s : Str) → IsFile (normalize_name s)
unfolding normalize_name
normalize_name-IsFile s = normalize_lower-IsFile (trim_space (to_lower s))

pub underscore-IsFile : is_file_char b'_' ≡ true
unfolding is_name_char
underscore-IsFile = refl

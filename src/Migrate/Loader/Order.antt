-- ===== src/Migrate/Loader/Order.antt =====
-- The order of the migrations that are loaded.
use mathlib.Core.Path.{subst}
use elgon.Base.{
  ◌≡◌, refl, sym, ap, ◌∙◌, true, false, List, [], ◌∷◌, arith, All, All-weaken, Bool-cases,
  Option-cases, inl, inr,
}
use elgon.Base.Int.{ℤ, pos, negsuc, int_leb, int_eq, int_ltb}
use elgon.Base.Text.{Str, str, str_eq}
use elgon.Base.Result.{ok, >>=-eq-ok, ok_inj, Result-cases}
use elgon.Migrate.{Migration}
use elgon.Migrate.Names.{FileName, parse_migration_file_name}
use elgon.Migrate.Loader.{DirEntry, with_script, fresh, add_file, read_entries, check_up, load}

int_ltb_trans : (a b c : ℤ) → int_ltb a b ≡ true → int_ltb b c ≡ true → int_ltb a c ≡ true
int_ltb_trans (pos a) (pos b) (pos c) h k = ground arith
int_ltb_trans (pos a) (pos b) (negsuc c) h k = cc
int_ltb_trans (pos a) (negsuc b) c h k = cc
int_ltb_trans (negsuc a) b (pos c) h k = refl
int_ltb_trans (negsuc a) (pos b) (negsuc c) h k = cc
int_ltb_trans (negsuc a) (negsuc b) (negsuc c) h k = ground arith

int_ltb_of : (a b : ℤ) → int_eq a b ≡ false → int_leb a b ≡ true → int_ltb a b ≡ true
int_ltb_of (pos a) (pos b) h k = ground arith
int_ltb_of (pos a) (negsuc b) h k = cc
int_ltb_of (negsuc a) (pos b) h k = refl
int_ltb_of (negsuc a) (negsuc b) h k = ground arith

-- The versions are in strictly ascending order.
pub IsAscending : List Migration → Type 0
IsAscending [] = Unit
IsAscending (m ∷ ms) = All (λ n. int_ltb m.version n.version ≡ true) ms × IsAscending ms

version-with_script :
    (f : FileName) (sql : Str) (m : Migration) → (with_script f sql m).version ≡ m.version
version-with_script f sql m = elim (Bool-cases (str_eq f.direction (str "up"))) [
  | inl up ↦ rw up refl
  | inr down ↦ rw down refl
]

add_file-above :
    (v : ℤ) (f : FileName) (sql : Str) (ms : List Migration)
    → int_ltb v f.version ≡ true
    → All (λ n. int_ltb v n.version ≡ true) ms
    → All (λ n. int_ltb v n.version ≡ true) (add_file f sql ms)
unfolding add_file
add_file-above v f sql [] h k = (ap (int_ltb v) (version-with_script f sql (fresh f)) ∙ h, tt)
add_file-above v f sql (m ∷ ms) h k = elim (Bool-cases (int_eq m.version f.version)) [
  | inl same ↦ rw same (ap (int_ltb v) (version-with_script f sql m) ∙ k.0, k.1)
  | inr other ↦ elim (Bool-cases (int_leb m.version f.version)) [
    | inl before ↦ rw (other, before) (k.0, add_file-above v f sql ms h k.1)
    | inr after ↦ rw (other, after) (ap (int_ltb v) (version-with_script f sql (fresh f)) ∙ h, k)
  ]
]

first-IsAscending :
    (v : ℤ) (x : Migration) (ms : List Migration)
    → x.version ≡ v
    → All (λ n. int_ltb v n.version ≡ true) ms
    → All (λ n. int_ltb x.version n.version ≡ true) ms
first-IsAscending v x ms e h = subst (λ w. All (λ n. int_ltb w n.version ≡ true) ms) (sym e) h

add_file-IsAscending :
    (f : FileName) (sql : Str) (ms : List Migration)
    → IsAscending ms
    → IsAscending (add_file f sql ms)
unfolding add_file IsAscending
add_file-IsAscending f sql [] h = (tt, tt)
add_file-IsAscending f sql (m ∷ ms) h = elim (Bool-cases (int_eq m.version f.version)) [
  | inl same ↦
      rw same (
        first-IsAscending m.version (with_script f sql m) ms (version-with_script f sql m) h.0,
        h.1,
      )
  | inr other ↦ elim (Bool-cases (int_leb m.version f.version)) [
    | inl before ↦
        let less = int_ltb_of m.version f.version other before in
        rw (other, before)
          (add_file-above m.version f sql ms less h.0, add_file-IsAscending f sql ms h.1)
    | inr after ↦
        let less : int_ltb f.version m.version ≡ true = rw after refl in
        rw (other, after)
          (
            first-IsAscending f.version (with_script f sql (fresh f)) (m ∷ ms)
                (version-with_script f sql (fresh f))
                (
                  less,
                  All-weaken (λ n q. int_ltb_trans f.version m.version n.version less q) ms h.0,
                ),
            h,
          )
  ]
]

read_entries-IsAscending :
    {F : Type 0} (dialect : Str) (es : List (DirEntry F)) (ms out : List Migration)
    → IsAscending ms
    → read_entries dialect es ms ≡ ok out
    → IsAscending out
unfolding read_entries
read_entries-IsAscending dialect [] ms out h q = subst IsAscending (ok_inj q) h
read_entries-IsAscending dialect (e ∷ es) ms out h q = elim (Bool-cases e.is_dir) [
  | inl dir ↦ read_entries-IsAscending dialect es ms out h (rw (dir, read_entries) at q)
  | inr file ↦ elim (Option-cases (parse_migration_file_name e.entry_name dialect)) [
    | inl no_name ↦
        read_entries-IsAscending dialect es ms out h (rw (file, no_name, read_entries) at q)
    | inr (f, named) ↦ elim (Result-cases e.content) [
      | inl (sql, read) ↦
          read_entries-IsAscending dialect es (add_file f sql ms) out
            (add_file-IsAscending f sql ms h) (rw (file, named, read, read_entries) at q)
      | inr (failure, failed) ↦ let q' = rw (file, named, failed, read_entries) at q in cc
    ]
  ]
]

-- Each migration has a script.
pub HaveScripts : List Migration → Type 0
HaveScripts = All (λ m. str_eq m.up_sql (str "") ≡ false)

check_up-HaveScripts :
    {F : Type 0} (dialect : Str) (ms out : List Migration)
    → check_up {F = F} dialect ms ≡ ok out
    → (ms ≡ out) × HaveScripts ms
unfolding check_up HaveScripts
check_up-HaveScripts dialect [] out q = (ok_inj q, tt)
check_up-HaveScripts {F} dialect (m ∷ ms) out q = elim (Bool-cases (str_eq m.up_sql (str ""))) [
  | inl missing ↦ let q' = rw (missing, check_up) at q in cc
  | inr there ↦
      let (others, rest, e) =
        >>=-eq-ok (check_up {F = F} dialect ms) _ (rw (there, check_up) at q) in
      let (same, scripts) = check_up-HaveScripts dialect ms others rest in
      (ap (λ x. m ∷ x) same ∙ ok_inj e, (there, scripts))
]

-- What `Load` returns is in strictly ascending order of the versions, so that each version is there
-- once, and each migration has a script to apply it.
pub load-IsAscending :
    {F : Type 0} (dialect : Str) (entries : List (DirEntry F)) (out : List Migration)
    → load dialect (ok entries) ≡ ok out
    → IsAscending out × HaveScripts out
unfolding load IsAscending
load-IsAscending {F} dialect entries out q =
    let (ms, read, checked) = >>=-eq-ok (read_entries {F = F} dialect entries []) _ q in
    let (same, scripts) = check_up-HaveScripts dialect ms out checked in
    (
      subst IsAscending same (read_entries-IsAscending dialect entries [] ms tt read),
      subst HaveScripts same scripts,
    )

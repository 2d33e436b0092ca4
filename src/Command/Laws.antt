-- ===== src/Command/Laws.antt =====
-- cmd/elgon/main.go: what `elgon new` leaves of the files that are there, and what it makes.
use elgon.Base.{
  ◌≡◌, refl, sym, ◌∙◌, inl, inr, Bool, true, false, ◌||◌, Option, none, some, List, [], ◌∷◌, ◌++◌,
  Bool-cases, Option-cases,
}
use elgon.Base.Text.{Str, str, str_eq, str_eq_iff}
use elgon.Base.Dict
use elgon.Command.{
  World, has_dir, Outcome, then_on, ◌and_then◌, System, join_path, mkdir_all, write_file, is_there,
  write_if_missing, go_mod, main_go, readme, create, cmd_new,
}

-- Every file and every directory of the first state is in the second one, the files with their content.
abbrev pub Keeps : World → World → Type 0
Keeps w v =
    ((p t : Str) → Dict.lookup p w.files ≡ some t → Dict.lookup p v.files ≡ some t)
    × ((p : Str) → has_dir p w.dirs ≡ true → has_dir p v.dirs ≡ true)

-- A file or a directory is there.
abbrev pub Exists : Str → World → Type 0
Exists p w = is_there p w ≡ true

-- What a call that succeeds leaves.
abbrev pub OnSuccess : (World → Type 0) → Outcome → Type 0
OnSuccess P (some e, w) = Unit
OnSuccess P (none, w) = P w

OnSuccess-Unit : (o : Outcome) → OnSuccess (λ u. Unit) o
OnSuccess-Unit (some e, v) = tt
OnSuccess-Unit (none, v) = tt

-- The content of a file that was there is the content now.
abbrev pub Kept : Option Str → Option Str → Type 0
Kept none now = Unit
Kept (some content) now = now ≡ some content

Kept-lookup : (old now : Option Str) → ((t : Str) → old ≡ some t → now ≡ some t) → Kept old now
Kept-lookup none now h = tt
Kept-lookup (some t) now h = h t refl

-- A call from states that satisfy `P`: it keeps their files, and what it leaves satisfies `Q`.
abbrev pub Step : (World → Type 0) → (World → Type 0) → (World → Outcome) → Type 0
Step P Q f = (w : World) → P w → Keeps w (f w).1 × OnSuccess Q (f w)

Step-and_then :
    (P Q R : World → Type 0) (f g : World → Outcome)
    → Step P Q f
    → Step Q R g
    → Step P R (f and_then g)
Step-and_then P Q R f g hf hg w hw = onward (f w) (hf w hw)
  where
    onward :
        (o : Outcome)
        → Keeps w o.1 × OnSuccess Q o
        → Keeps w (then_on o g).1 × OnSuccess R (then_on o g)
    onward (some e, v) (k, h) = (k, tt)
    onward (none, v) (k, h) =
        let (l, r) = hg v h in (((λ p t q. l.0 p t (k.0 p t q)), λ p q. l.1 p (k.1 p q)), r)

-- A property that stays when files and directories are added.
abbrev Stable : (World → Type 0) → Type 0
Stable P = (w v : World) → Keeps w v → P w → P v

OnSuccess-both :
    (P Q : World → Type 0)
    → Stable P
    → (w : World) (o : Outcome) → P w
    → Keeps w o.1
    → OnSuccess Q o
    → OnSuccess (λ u. P u × Q u) o
OnSuccess-both P Q stable w (some e, v) h k q = tt
OnSuccess-both P Q stable w (none, v) h k q = (stable w v k h, q)

Exists-file : (p t : Str) (w : World) → Dict.lookup p w.files ≡ some t → Exists p w
Exists-file p t w q = rw q refl

or-true : (a : Bool) → (a || true) ≡ true
or-true true = refl
or-true false = refl

Exists-dir : (p : Str) (w : World) → has_dir p w.dirs ≡ true → Exists p w
Exists-dir p w q = rw q (or-true _)

Exists-Keeps : (p : Str) (w v : World) → Keeps w v → Exists p w → Exists p v
Exists-Keeps p w v k h = elim (Option-cases (Dict.lookup p w.files)) [
  | inl q ↦ Exists-dir p v (k.1 p (rw q at h))
  | inr (t, q) ↦ Exists-file p t v (k.0 p t q)
]

has_dir-append : (p : Str) (ds es : List Str) → has_dir p ds ≡ true → has_dir p (ds ++ es) ≡ true
unfolding has_dir
has_dir-append p [] es h = cc
has_dir-append p (d ∷ ds) es h = elim (Bool-cases (str_eq d p)) [
  | inl q ↦ rw q refl
  | inr q ↦ rw q (has_dir-append p ds es (rw q at h))
]

module _ (sys : System) where
  Keeps-mkdir_all : (path : Str) (w : World) → Keeps w (mkdir_all sys path w).1
  Keeps-mkdir_all path w = elim (Option-cases (sys.mkdir_error path)) [
    | inl e ↦ rw e ((λ p t q. q), λ p q. has_dir-append p w.dirs _ q)
    | inr (e, f) ↦ rw f ((λ p t q. q), λ p q. q)
  ]

  Keeps-insert :
      (path content : Str) (w : World)
      → Dict.lookup path w.files ≡ none
      → Keeps w (record w { files = Dict.insert path content w.files })
  Keeps-insert path content w new = (file, λ p q. q)
    where
      file :
          (p t : Str)
          → Dict.lookup p w.files ≡ some t
          → Dict.lookup p (Dict.insert path content w.files) ≡ some t
      file p t q = elim (Bool-cases (str_eq path p)) [
        | inl e ↦ let no : none ≡ some t = sym (rw ((str_eq_iff path p).0 e) at new) ∙ q in cc
        | inr e ↦ rw (Dict.lookup-insert path p content w.files, e) q
      ]

  write_file-Keeps :
      (path content : Str) (w : World)
      → Dict.lookup path w.files ≡ none
      → Keeps w (write_file sys path content w).1
        × OnSuccess (Exists path) (write_file sys path content w)
  write_file-Keeps path content w new = elim (Option-cases (sys.write_error path)) [
    | inr (e, q) ↦ rw q (((λ p t h. h), λ p h. h), tt)
    | inl q ↦
        rw q
          (Keeps-insert path content w new, rw (Dict.lookup-insert_self path content w.files) refl)
  ]

  not_there : (path : Str) (w : World) → is_there path w ≡ false → Dict.lookup path w.files ≡ none
  not_there path w h = elim (Option-cases (Dict.lookup path w.files)) [
    | inl q ↦ q
    | inr (t, q) ↦ let no = sym h ∙ Exists-file path t w q in cc
  ]

  write_if_missing-Keeps :
      (path content : Str) (w : World)
      → Keeps w (write_if_missing sys path content w).1
        × OnSuccess (Exists path) (write_if_missing sys path content w)
  unfolding write_if_missing
  write_if_missing-Keeps path content w = elim (Option-cases (sys.stat_error path)) [
    | inr (e, r) ↦ rw r (((λ p t h. h), λ p h. h), tt)
    | inl r ↦ elim (Bool-cases (is_there path w)) [
      | inl q ↦ rw (r, q) (((λ p t h. h), λ p h. h), q)
      | inr q ↦ rw (r, q) (write_file-Keeps path content w (not_there path w q))
    ]
  ]

  mkdir_all-Step : (path : Str) → Step (λ w. Unit) (λ w. Unit) (mkdir_all sys path)
  mkdir_all-Step path w h = (Keeps-mkdir_all path w, OnSuccess-Unit _)

  write_if_missing-Step :
      (P : World → Type 0)
      → Stable P
      → (path content : Str) → Step P (λ w. P w × Exists path w) (write_if_missing sys path content)
  write_if_missing-Step P stable path content w h =
      let (kept, there) = write_if_missing-Keeps path content w in
      (kept, OnSuccess-both P (Exists path) stable w _ h kept there)

  abbrev pub mod_path : Str → Str
  mod_path root = join_path sys (root ∷ str "go.mod" ∷ [])

  abbrev pub main_path : Str → Str
  main_path root = join_path sys (root ∷ str "cmd" ∷ str "api" ∷ str "main.go" ∷ [])

  abbrev pub readme_path : Str → Str
  readme_path root = join_path sys (root ∷ str "README.md" ∷ [])

  abbrev WithMod : Str → World → Type 0
  WithMod root w = Unit × Exists (mod_path root) w

  abbrev WithMain : Str → World → Type 0
  WithMain root w = WithMod root w × Exists (main_path root) w

  -- A file or a directory is at each path of the files of a project.
  abbrev pub Project : Str → World → Type 0
  Project root w = WithMain root w × Exists (readme_path root) w

  create-Step : (name root : Str) → Step (λ w. Unit) (Project root) (create sys name root)
  unfolding create
  create-Step name root =
      let free : World → Type 0 = λ w. Unit in
      let stable_mod : Stable (WithMod root) =
        λ w v k h. (tt, Exists-Keeps (mod_path root) w v k h.1) in
      let stable_main : Stable (WithMain root) =
        λ w v k h. (stable_mod w v k h.0, Exists-Keeps (main_path root) w v k h.1) in
      Step-and_then free free (Project root) _ _ (mkdir_all-Step _) (
        Step-and_then free free (Project root) _ _ (mkdir_all-Step _) (
          Step-and_then free free (Project root) _ _ (mkdir_all-Step _) (
            Step-and_then free (WithMod root) (Project root) _ _
              (write_if_missing-Step free (λ w v k h. tt) (mod_path root) (go_mod sys name))
              (Step-and_then (WithMod root) (WithMain root) (Project root) _ _
                (write_if_missing-Step (WithMod root) stable_mod (main_path root) (main_go sys))
                (Step-and_then (WithMain root) (Project root) (Project root) _ _
                  (write_if_missing-Step (WithMain root) stable_main (readme_path root)
                    (readme sys name))
                  (λ w h. (((λ p t q. q), λ p q. q), h)))))))

  -- The root of the project that `elgon new` makes.
  unfoldable pub Created : List Str → World → Type 0
  Created [] w = Unit
  Created (name ∷ args) w = Project (sys.clean name) w

  cmd_new-Step :
      (args : List Str) (w : World)
      → Keeps w (cmd_new sys args w).1 × OnSuccess (Created args) (cmd_new sys args w)
  unfolding cmd_new Created
  cmd_new-Step [] w = (((λ p t h. h), λ p h. h), tt)
  cmd_new-Step ([] ∷ args) w = (((λ p t h. h), λ p h. h), tt)
  cmd_new-Step ((c ∷ name) ∷ args) w = create-Step (c ∷ name) (sys.clean (c ∷ name)) w tt

  -- `elgon new` never changes or removes a file that is there, not even when it fails half way; when it
  -- succeeds, there is a file or a directory at each of the paths of the module file, the main file and
  -- the README of the project.
  pub cmd_new-Keeps :
      (args : List Str) (w : World) (path : Str)
      → Kept (Dict.lookup path w.files) (Dict.lookup path (cmd_new sys args w).1.files)
        × OnSuccess (Created args) (cmd_new sys args w)
  cmd_new-Keeps args w path =
      let (keeps, made) = cmd_new-Step args w in
      (Kept-lookup (Dict.lookup path w.files) _ (keeps.0 path), made)

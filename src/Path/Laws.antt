-- ===== src/Path/Laws.antt =====
-- What `normalizePath` and `splitPath` keep.
use elgon.Base.{
  ℕ, ◌≡◌, refl, sym, ap, ◌∙◌, inl, inr, true, ◌||◌, List, [], ◌∷◌, ◌++◌, arith, ltb, Bool-cases,
  length, All,
}
use elgon.Base.Text.{Str, str, str_eq, str_eq_iff, trim, split, join}
use elgon.Base.Text.Laws.{trim-cons, trim-append}
use elgon.Base.Text.Splits.{Avoids, IsPiece, split-join, trim-join}
use elgon.Path.{
  is_slash, parts_of, split_path, starts_with, ends_with, drop_last, add_slash, drop_slash,
  normalize_path,
}

drop_last-append : (c : ℕ) (s : Str) → ends_with c s ≡ true → s ≡ drop_last s ++ c ∷ []
unfolding ends_with drop_last
drop_last-append c [] h = cc
drop_last-append c (d ∷ []) h = ground arith
drop_last-append c (d ∷ e ∷ s) h = ap (λ t. d ∷ t) (drop_last-append c (e ∷ s) h)

trim-add_slash : (s : Str) → trim is_slash (add_slash s) ≡ trim is_slash s
unfolding add_slash
trim-add_slash s = elim (Bool-cases (starts_with b'/' s)) [
  | inl e ↦ rw e
  | inr e ↦ rw e (trim-cons is_slash b'/' s refl)
]

trim-drop_slash : (s : Str) → trim is_slash (drop_slash s) ≡ trim is_slash s
unfolding drop_slash
trim-drop_slash s = elim (Bool-cases (ends_with b'/' s)) [
  | inl e ↦ elim (Bool-cases (ltb 1 (length s))) [
    | inl l ↦
        rw (l, e)
          (sym (
            ap (trim is_slash) (drop_last-append b'/' s e)
            ∙ trim-append is_slash (drop_last s) b'/' refl))
    | inr l ↦ rw l
  ]
  | inr e ↦ elim (Bool-cases (ltb 1 (length s))) [ inl l ↦ rw (l, e) | inr l ↦ rw l ]
]

trim-root :
    (s : Str)
    → (str_eq s (str "") || str_eq s (str "/")) ≡ true
    → trim is_slash (str "/") ≡ trim is_slash s
trim-root s e = elim (Bool-cases (str_eq s (str ""))) [
  | inl h ↦ rw ((str_eq_iff s _).0 h) (trim-cons is_slash b'/' [] refl)
  | inr h ↦ sym (ap (trim is_slash) ((str_eq_iff s (str "/")).0 (rw h at e)))
]

trim-normalize_path : (s : Str) → trim is_slash (normalize_path s) ≡ trim is_slash s
unfolding normalize_path
trim-normalize_path s = elim (Bool-cases (str_eq s (str "") || str_eq s (str "/"))) [
  | inl e ↦ rw e (trim-root s e)
  | inr e ↦ rw e (trim-drop_slash (add_slash s) ∙ trim-add_slash s)
]

-- Normalising a path keeps its parts, so a route matches the same requests under the path that
-- it was registered with and under the normalised one.
pub split_path-normalize_path : (path : Str) → split_path (normalize_path path) ≡ split_path path
unfolding split_path join
split_path-normalize_path path = ap parts_of (trim-normalize_path path)

-- The parts of a request path: not empty, and without a slash.
abbrev pub IsPart : Str → Type 0
IsPart = IsPiece is_slash

parts_of-join :
    (p : Str) (ps : List Str)
    → All IsPart (p ∷ ps)
    → parts_of (join (str "/") (p ∷ ps)) ≡ split b'/' (join (str "/") (p ∷ ps))
unfolding join
parts_of-join [] ps h = absurd (h.0.0 refl)
parts_of-join (c ∷ p) [] h = refl
parts_of-join (c ∷ p) (q ∷ ps) h = refl

All-Avoids : (ps : List Str) → All IsPart ps → All (Avoids is_slash) ps
All-Avoids [] h = tt
All-Avoids (p ∷ ps) h = (h.0.1, All-Avoids ps h.1)

-- A path built from parts that are not empty and hold no slash is split into the same parts.
pub split_path-join :
    (parts : List Str) → All IsPart parts → split_path (b'/' ∷ join (str "/") parts) ≡ parts
unfolding split_path join
split_path-join [] h = refl
split_path-join (p ∷ ps) h =
    ap parts_of
      (trim-cons is_slash b'/' (join (str "/") (p ∷ ps)) refl ∙ trim-join is_slash b'/' p ps h)
    ∙ parts_of-join p ps h
    ∙ split-join b'/' p ps (All-Avoids (p ∷ ps) h)

-- The paths "/" and "" have no parts.
pub split_path-root :
    (path : Str) → (str_eq path (str "/") || str_eq path (str "")) ≡ true → split_path path ≡ []
unfolding split_path
split_path-root path h = elim (Bool-cases (str_eq path (str "/"))) [
  | inl slash ↦ rw ((str_eq_iff path (str "/")).0 slash)
  | inr long ↦ rw ((str_eq_iff path (str "")).0 (rw long at h))
]

-- ===== src/Base/Text/Joins.antt =====
-- Joining what was split, and texts of URL characters.
use elgon.Base.{
  ℕ, ◌≡◌, ◌≢◌, refl, ap, ◌∙◌, sym, true, false, List, [], ◌∷◌, ◌==◌, ==_iff, Bool-cases, inl, inr,
  All, All-weaken,
}
use elgon.Base.Text.{Str, split, join, cons_first, is_url_char}
use elgon.Base.Text.Splits.{Avoids}

module _ (sep : ℕ) where
  join-cons_first :
      (c : ℕ) (ps : List Str) → join (sep ∷ []) (cons_first c ps) ≡ c ∷ join (sep ∷ []) ps
  unfolding join cons_first
  join-cons_first c [] = refl
  join-cons_first c (p ∷ []) = refl
  join-cons_first c (p ∷ q ∷ ps) = refl

  join-nil_first : (ps : List Str) → ps ≢ [] → join (sep ∷ []) ([] ∷ ps) ≡ sep ∷ join (sep ∷ []) ps
  unfolding join
  join-nil_first [] h = absurd (h refl)
  join-nil_first (p ∷ ps) h = refl

  cons_first-ne-nil : (c : ℕ) (ps : List Str) → cons_first c ps ≢ []
  unfolding cons_first
  cons_first-ne-nil c [] q = cc
  cons_first-ne-nil c (p ∷ ps) q = cc

  split-ne-nil : (s : Str) → split sep s ≢ []
  unfolding split
  split-ne-nil [] q = cc
  split-ne-nil (c ∷ s) q = elim (Bool-cases (c == sep)) [
    | inl here ↦ let q' = rw here at q in cc
    | inr other ↦ cons_first-ne-nil c (split sep s) (rw other at q)
  ]

  -- The parts of a text, joined again, are the text.
  pub join-split : (s : Str) → join (sep ∷ []) (split sep s) ≡ s
  unfolding split
  join-split [] = unfold join in refl
  join-split (c ∷ s) = elim (Bool-cases (c == sep)) [
    | inl here ↦ rw here (
        join-nil_first (split sep s) (split-ne-nil s)
        ∙ ap (λ t. sep ∷ t) (join-split s)
        ∙ ap (λ d. d ∷ s) (sym ((==_iff c sep).0 here)))
    | inr other ↦ rw other (join-cons_first c (split sep s) ∙ ap (λ t. c ∷ t) (join-split s))
  ]

  url-ne : (c : ℕ) → is_url_char sep ≡ false → is_url_char c ≡ true → (c == sep) ≡ false
  url-ne c h q = elim (Bool-cases (c == sep)) [
    | inr other ↦ other
    | inl here ↦ let e = (==_iff c sep).0 here in let q' = rw e at q in cc
  ]

  -- A text of URL characters holds no separator that is none.
  pub url-Avoids :
      (s : Str)
      → is_url_char sep ≡ false
      → All (λ x. is_url_char x ≡ true) s
      → Avoids (λ c. c == sep) s
  url-Avoids s h = All-weaken (λ c q. url-ne c h q) s

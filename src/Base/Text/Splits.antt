-- ===== src/Base/Text/Splits.antt =====
-- Splitting what was joined.
use mathlib.Core.Path.{◌≡◌, refl, ◌∙◌, sym, ap}
use mathlib.Core.Logic.{◌≢◌}
use mathlib.Core.Bool.{Bool, false}
use mathlib.Core.Option.{some}
use mathlib.Core.List.{List, [], ◌∷◌, ◌++◌, append_assoc, reverse, reverse-append, reverse-reverse}
use Prim.Native.Nat.{ℕ}
use native.Mathlib.Omega.{arith}
use elgon.Base.Tests.{◌==◌}
use elgon.Base.Lists.{All}
use elgon.Base.Text.{Str, trim_left, trim_right, trim, split, cut, join}

-- No code point of the text satisfies `p`.
abbrev pub Avoids : (ℕ → Bool) → Str → Type 0
Avoids p = All (λ c. p c ≡ false)

-- A text that is not empty and avoids `p`.
abbrev pub IsPiece : (ℕ → Bool) → Str → Type 0
IsPiece p s = (s ≢ []) × Avoids p s

module _ (sep : ℕ) where
  pub split-last : (s : Str) → Avoids (λ c. c == sep) s → split sep s ≡ s ∷ []
  unfolding split
  split-last [] h = refl
  split-last (c ∷ s) h = rw (h.0, split-last s h.1)

  pub split-append :
      (s t : Str) → Avoids (λ c. c == sep) s → split sep (s ++ sep ∷ t) ≡ s ∷ split sep t
  unfolding split
  split-append [] t h = ground arith
  split-append (c ∷ s) t h = rw (h.0, split-append s t h.1)

  pub cut-append : (s t : Str) → Avoids (λ c. c == sep) s → cut sep (s ++ sep ∷ t) ≡ some (s, t)
  unfolding cut
  cut-append [] t h = ground arith
  cut-append (c ∷ s) t h = rw (h.0, cut-append s t h.1) refl

  pub split-join :
      (p : Str) (ps : List Str)
      → All (Avoids (λ c. c == sep)) (p ∷ ps)
      → split sep (join (sep ∷ []) (p ∷ ps)) ≡ p ∷ ps
  unfolding join
  split-join p [] h = split-last p h.0
  split-join p (q ∷ ps) h =
      split-append p (join (sep ∷ []) (q ∷ ps)) h.0 ∙ ap (λ t. p ∷ t) (split-join q ps h.1)

module _ (p : ℕ → Bool) where
  trim_left-keep : (c : ℕ) (s : Str) → p c ≡ false → trim_left p (c ∷ s) ≡ c ∷ s
  unfolding trim_left
  trim_left-keep c s h = rw h

  -- The text has a last code point, which is not trimmed.
  abbrev pub Ends : Str → Type 0
  Ends s = (t : Str) × (c : ℕ) × (s ≡ t ++ c ∷ []) × (p c ≡ false)

  pub trim_right-keep : (s : Str) → Ends s → trim_right p s ≡ s
  unfolding trim_right
  trim_right-keep s (t, c, e, h) =
      ap (λ u. reverse (trim_left p (reverse u))) e
      ∙ ap (λ u. reverse (trim_left p u)) (reverse-append t (c ∷ []))
      ∙ ap reverse (trim_left-keep c (reverse t) h)
      ∙ ap reverse (sym (reverse-append t (c ∷ [])))
      ∙ reverse-reverse (t ++ c ∷ [])
      ∙ sym e

  Ends-piece : (s : Str) → IsPiece p s → Ends s
  Ends-piece [] h = absurd (h.0 refl)
  Ends-piece (c ∷ []) h = ([], c, refl, h.1.0)
  Ends-piece (c ∷ d ∷ s) h =
      let (t, e, q, k) = Ends-piece (d ∷ s) ((λ r. cc), h.1.1) in (c ∷ t, e, ap (λ u. c ∷ u) q, k)

  Ends-append : (s t : Str) → Ends t → Ends (s ++ t)
  Ends-append s t (u, c, e, h) = (s ++ u, c, rw (e, append_assoc), h)

  Ends-join : (sep p' : Str) (ps : List Str) → All (IsPiece p) (p' ∷ ps) → Ends (join sep (p' ∷ ps))
  unfolding join
  Ends-join sep q [] h = Ends-piece q h.0
  Ends-join sep q (r ∷ ps) h = Ends-append q _ (Ends-append sep _ (Ends-join sep r ps h.1))

  trim_left-join :
      (sep q : Str) (ps : List Str)
      → All (IsPiece p) (q ∷ ps)
      → trim_left p (join sep (q ∷ ps)) ≡ join sep (q ∷ ps)
  unfolding join
  trim_left-join sep [] ps h = absurd (h.0.0 refl)
  trim_left-join sep (c ∷ q) [] h = trim_left-keep c q h.0.1.0
  trim_left-join sep (c ∷ q) (r ∷ ps) h = trim_left-keep c _ h.0.1.0

  -- Nothing is trimmed from pieces that are joined.
  pub trim-join :
      (sep : ℕ) (q : Str) (ps : List Str)
      → All (IsPiece p) (q ∷ ps)
      → trim p (join (sep ∷ []) (q ∷ ps)) ≡ join (sep ∷ []) (q ∷ ps)
  unfolding trim
  trim-join sep q ps h =
      ap (trim_right p) (trim_left-join (sep ∷ []) q ps h)
      ∙ trim_right-keep _ (Ends-join (sep ∷ []) q ps h)

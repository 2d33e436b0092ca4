-- ===== src/Metrics/Text.antt =====
-- observability/metrics.go: reading the lines of samples back.
use elgon.Base.{
  ℕ, ◌≡◌, refl, ap, ◌∙◌, inl, inr, false, Option, none, some, [], ◌∷◌, ◌++◌, Bool-cases, ◌==◌,
  ==_iff, if◌then◌else◌, All,
}
use elgon.Base.Text.{Str}
use elgon.Metrics.{replace_all, escape}

abbrev prepend : ℕ → Option (Str × Str) → Option (Str × Str)
prepend c none = none
prepend c (some (s, rest)) = some (c ∷ s, rest)

-- The value of a label, up to the quote that closes it, as the text format of Prometheus says: a
-- backslash stands before a backslash, a quote, or the n of a line feed, and no line ends inside.
unfoldable pub read_label : Str → Option (Str × Str)
read_label [] = none
read_label (c ∷ []) = if c == b'"' then some ([], []) else none
read_label (c ∷ d ∷ s) =
    let short = read_label s in
    let next = read_label (d ∷ s) in
    let escaped =
      if d == b'n'
      then prepend b'\n' short
      else if d == b'\\'
      then prepend d short
      else if d == b'"'
      then prepend d short
      else none in
    if c == b'"'
    then some ([], d ∷ s)
    else if c == b'\n'
    then none
    else if c == b'\\'
    then escaped
    else prepend c next

read_label-plain :
    (c : ℕ) (t : Str)
    → (c == b'"') ≡ false
    → (c == b'\n') ≡ false
    → (c == b'\\') ≡ false
    → read_label (c ∷ t) ≡ prepend c (read_label t)
unfolding read_label
read_label-plain c [] q n b = rw q refl
read_label-plain c (d ∷ t) q n b = rw (q, n, b) refl

read_label-backslash : (t : Str) → read_label (b'\\' ∷ b'\\' ∷ t) ≡ prepend b'\\' (read_label t)
unfolding read_label
read_label-backslash t = refl

read_label-quote : (t : Str) → read_label (b'\\' ∷ b'"' ∷ t) ≡ prepend b'"' (read_label t)
unfolding read_label
read_label-quote t = refl

read_label-close : (t : Str) → read_label (b'"' ∷ t) ≡ some ([], t)
unfolding read_label
read_label-close [] = refl
read_label-close (d ∷ t) = refl

-- A text that has no line feed.
abbrev pub OneLine : Str → Type 0
OneLine = All (λ c. (c == b'\n') ≡ false)

-- A label's value without line feeds is read back as it was, and the quote behind it closes it.
pub read_label-escape :
    (s rest : Str) → OneLine s → read_label (escape s ++ b'"' ∷ rest) ≡ some (s, rest)
unfolding escape replace_all
read_label-escape [] rest h = read_label-close rest
read_label-escape (c ∷ s) rest (hc, h) = elim (Bool-cases (c == b'\\')) [
  | inl backslash ↦
      rw ((==_iff c b'\\').0 backslash)
        (read_label-backslash _ ∙ ap (prepend b'\\') (read_label-escape s rest h))
  | inr other ↦ elim (Bool-cases (c == b'"')) [
    | inl quote ↦
        rw ((==_iff c b'"').0 quote)
          (read_label-quote _ ∙ ap (prepend b'"') (read_label-escape s rest h))
    | inr plain ↦
        rw (other, plain)
          (read_label-plain c _ plain hc other ∙ ap (prepend c) (read_label-escape s rest h))
  ]
]

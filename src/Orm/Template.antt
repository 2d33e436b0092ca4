-- ===== src/Orm/Template.antt =====
-- What the text of a statement may be: a template of fixed characters with numbered placeholders.
use elgon.Base.{
  ℕ, suc, ◌+◌, ◌≡◌, refl, sym, ap, ◌∙◌, Bool, true, false, ◌||◌, List, [], ◌∷◌, ◌++◌, append_assoc,
  arith, ◌==◌, length, All, All-append, Bool-cases, inl, inr,
}
use elgon.Base.Text.{Str, str, join, equal_fold}
use elgon.Orm.Value.{is_ident_char, all}
use elgon.Orm.Expr.{Part, Parts, ph, is_empty}

-- A stretch of text, or a placeholder for one argument.
pub data Piece : Type 0 where
  raw : Str → Piece
  mark : Piece

abbrev pub marks : List Piece → ℕ
marks [] = 0
marks (raw s ∷ ps) = marks ps
marks (mark ∷ ps) = suc (marks ps)

pub marks-append : (ps qs : List Piece) → marks (ps ++ qs) ≡ marks ps + marks qs
marks-append [] qs = omega arith
marks-append (raw s ∷ ps) qs = marks-append ps qs
marks-append (mark ∷ ps) qs = omega (arith, marks-append ps qs)

-- The characters of identifiers and of the words and signs that the statements are built from:
-- no semicolon, double quote, backslash, dash, question mark or dollar sign.
unfoldable pub is_sql_char : ℕ → Bool
unfolding is_ident_char
is_sql_char c =
    is_ident_char c
    || c == b' '
    || c == b','
    || c == b'('
    || c == b')'
    || c == b'='
    || c == b'<'
    || c == b'>'
    || c == b'*'
    || c == b'\''

abbrev pub IsSafe : Piece → Type 0
IsSafe (raw s) = all is_sql_char s ≡ true
IsSafe mark = Unit

module _ (dialect : Str) where
  -- The text of a template whose placeholders are numbered from the one after `n`.
  unfoldable pub render : ℕ → List Piece → Str
  render n [] = []
  render n (raw s ∷ ps) = s ++ render n ps
  render n (mark ∷ ps) = ph dialect (n + 1) ++ render (n + 1) ps

  pub render-append :
      (n : ℕ) (ps qs : List Piece) → render n (ps ++ qs) ≡ render n ps ++ render (n + marks ps) qs
  unfolding render
  render-append n [] qs = ap (λ k. render k qs) (omega arith)
  render-append n (raw s ∷ ps) qs =
      ap (λ t. s ++ t) (render-append n ps qs) ∙ sym (append_assoc s _ _)
  render-append n (mark ∷ ps) qs =
      ap (λ t. ph dialect (n + 1) ++ t)
        (render-append (n + 1) ps qs ∙ ap (λ k. render (n + 1) ps ++ render k qs) (omega arith))
      ∙ sym (append_assoc (ph dialect (n + 1)) _ _)

  ph-append-ne-nil : (n : ℕ) (s : Str) → is_empty (ph dialect n ++ s) ≡ false
  unfolding ph
  ph-append-ne-nil n s =
      elim (Bool-cases (equal_fold dialect (str "postgres") || equal_fold dialect (str "pg"))) [
        | inl e ↦ rw e
        | inr e ↦ rw e
      ]

  append-empty : (s t : Str) → is_empty (s ++ t) ≡ true → is_empty t ≡ true
  append-empty [] t h = h
  append-empty (c ∷ s) t h = cc

  -- A template that renders to nothing has no placeholder.
  pub marks-empty : (n : ℕ) (ps : List Piece) → is_empty (render n ps) ≡ true → marks ps ≡ 0
  unfolding render
  marks-empty n [] h = refl
  marks-empty n (raw s ∷ ps) h = marks-empty n ps (append-empty s (render n ps) h)
  marks-empty n (mark ∷ ps) h = let q = ph-append-ne-nil (n + 1) (render (n + 1) ps) in cc

  -- The text is a safe template, whose placeholders take the numbers from the one after `start`
  -- up to `next`, in their order, and there is one argument for each.
  pub record Template (start : ℕ) (p : Part) : Type 0 where
    pub pieces : List Piece
    pub rendered : p.sql ≡ render start pieces
    pub safe : All IsSafe pieces
    pub counted : length p.args ≡ marks pieces
    pub ended : p.next ≡ start + marks pieces

  unfoldable pub render_each : ℕ → List (List Piece) → List Str
  unfolding render
  render_each n [] = []
  render_each n (ps ∷ rest) = render n ps ∷ render_each (n + marks ps) rest

  abbrev pub marks_each : List (List Piece) → ℕ
  marks_each [] = 0
  marks_each (ps ∷ rest) = marks ps + marks_each rest

  -- The same of a row of texts.
  pub record Templates (start : ℕ) (ps : Parts) : Type 0 where
    pub rows : List (List Piece)
    pub rendered : ps.texts ≡ render_each start rows
    pub safe : All (All IsSafe) rows
    pub counted : length ps.args ≡ marks_each rows
    pub ended : ps.next ≡ start + marks_each rows

  abbrev join_rows : Str → List (List Piece) → List Piece
  join_rows sep [] = []
  join_rows sep (ps ∷ []) = ps
  join_rows sep (ps ∷ qs ∷ rest) = ps ++ raw sep ∷ join_rows sep (qs ∷ rest)

  marks-join_rows :
      (sep : Str) (rows : List (List Piece)) → marks (join_rows sep rows) ≡ marks_each rows
  marks-join_rows sep [] = refl
  marks-join_rows sep (ps ∷ []) = omega arith
  marks-join_rows sep (ps ∷ qs ∷ rest) = omega (
    arith,
    marks-append ps (raw sep ∷ join_rows sep (qs ∷ rest)),
    marks-join_rows sep (qs ∷ rest),
  )

  render-join_rows :
      (sep : Str) (n : ℕ) (rows : List (List Piece))
      → join sep (render_each n rows) ≡ render n (join_rows sep rows)
  unfolding join render_each
  render-join_rows sep n [] = refl
  render-join_rows sep n (ps ∷ []) = refl
  render-join_rows sep n (ps ∷ qs ∷ rest) =
      ap (λ t. render n ps ++ (sep ++ t)) (render-join_rows sep (n + marks ps) (qs ∷ rest))
      ∙ sym (render-append n ps (raw sep ∷ join_rows sep (qs ∷ rest)))

  All-join_rows :
      (sep : Str) (rows : List (List Piece))
      → all is_sql_char sep ≡ true
      → All (All IsSafe) rows
      → All IsSafe (join_rows sep rows)
  All-join_rows sep [] h hs = tt
  All-join_rows sep (ps ∷ []) h hs = hs.0
  All-join_rows sep (ps ∷ qs ∷ rest) h hs =
      All-append IsSafe ps _ hs.0 (h, All-join_rows sep (qs ∷ rest) h hs.1)

  -- Texts joined by a safe separator are a template.
  pub Template-join :
      (sep : Str) (start : ℕ) (ps : Parts)
      → all is_sql_char sep ≡ true
      → Templates start ps
      → Template start (record { sql = join sep ps.texts; args = ps.args; next = ps.next })
  Template-join sep start ps h t = record {
    pieces = join_rows sep t.rows;
    rendered = ap (join sep) t.rendered ∙ render-join_rows sep start t.rows;
    safe = All-join_rows sep t.rows h t.safe;
    counted = t.counted ∙ sym (marks-join_rows sep t.rows);
    ended = omega (arith, t.ended, marks-join_rows sep t.rows);
  }

-- ===== src/Orm/Expr/Sound.antt =====
-- The expressions of a where clause are safe templates.
use elgon.Base.{
  ℕ, ◌+◌, ◌≡◌, refl, sym, ap, ◌∙◌, Bool, true, false, Option, none, some, List, [], ◌∷◌, ◌++◌,
  append-nil, arith, length, All, All-append, Bool-cases, inl, inr,
}
use mathlib.Core.Path.{subst, ap₂}
use elgon.Base.Text.{Str, str, join}
use elgon.Base.Result.{Result, ok, >>=-eq-ok}
use elgon.Orm.Value.{nil, cons, items_of, Value, null, bool, text, list, Error, all}
use elgon.Orm.Expr.{
  Part, Builder, part, is_empty, ph, wrap, equals_expr, not_field_expr, holders, in_expr,
  compare_expr, string_expr, flag_expr,
}
use elgon.Orm.Template.{
  Piece, raw, mark, is_sql_char, IsSafe, render, render-append, marks-append, Template, Templates,
  render_each, marks_each, Template-join,
}

abbrev pub IsSafeText : Str → Type 0
IsSafeText s = all is_sql_char s ≡ true

abbrev pub plain : Str → List Value → ℕ → Part
plain sql args next = record { sql = sql; args = args; next = next }

module _ (dialect : Str) where
  -- Whatever the number that the builder starts with: if it succeeds, it gives a safe template.
  abbrev pub IsSound : Builder → Type 0
  IsSound b = (start : ℕ) (p : Part) → b start ≡ ok p → Template dialect start p

  pub Template-ok :
      (start : ℕ) (a p : Part)
      → Template dialect start a
      → ◌≡◌ {A = Result Error Part} (ok a) (ok p)
      → Template dialect start p
  Template-ok start a p t h = let q : a ≡ p = cc in subst (Template dialect start) q t

  pub Template-text :
      (start : ℕ) (s : Str) → IsSafeText s → Template dialect start (plain s [] start)
  unfolding render
  Template-text start s hs = record {
    pieces = raw s ∷ [];
    rendered = sym (append-nil s);
    safe = (hs, tt);
    counted = refl;
    ended = omega arith;
  }

  pub Template-mark :
      (start : ℕ) (v : Value)
      → Template dialect start (plain (ph dialect (start + 1)) (v ∷ []) (start + 1))
  unfolding render
  Template-mark start v = record {
    pieces = mark ∷ [];
    rendered = sym (append-nil (ph dialect (start + 1)));
    safe = (tt, tt);
    counted = refl;
    ended = omega arith;
  }

  pub Template-before :
      (start : ℕ) (s : Str) (p : Part)
      → IsSafeText s
      → Template dialect start p
      → Template dialect start (record p { sql = s ++ p.sql })
  unfolding render
  Template-before start s p hs t = record {
    pieces = raw s ∷ t.pieces;
    rendered = ap (λ u. s ++ u) t.rendered;
    safe = (hs, t.safe);
    counted = t.counted;
    ended = t.ended;
  }

  pub Template-after :
      (start : ℕ) (s : Str) (p : Part)
      → IsSafeText s
      → Template dialect start p
      → Template dialect start (record p { sql = p.sql ++ s })
  unfolding render
  Template-after start s p hs t = record {
    pieces = t.pieces ++ raw s ∷ [];
    rendered =
        ap (λ u. u ++ s) t.rendered
        ∙ sym (
            render-append dialect start t.pieces (raw s ∷ [])
            ∙ ap (λ u. render dialect start t.pieces ++ u) (append-nil s));
    safe = All-append IsSafe t.pieces (raw s ∷ []) t.safe (hs, tt);
    counted = omega (arith, t.counted, marks-append t.pieces (raw s ∷ []));
    ended = omega (arith, t.ended, marks-append t.pieces (raw s ∷ []));
  }

  -- A template between two safe texts.
  pub Template-between :
      (start : ℕ) (before after : Str) (p : Part)
      → IsSafeText before
      → IsSafeText after
      → Template dialect start p
      → Template dialect start (record p { sql = before ++ (p.sql ++ after) })
  Template-between start before after p hb ha t =
      Template-before start before (record p { sql = p.sql ++ after }) hb
        (Template-after start after p ha t)

  -- A text that holds no placeholder.
  Template-plain :
      (start : ℕ) (s t : Str) (p : Part)
      → IsSafeText s
      → IsSafeText t
      → part (s ++ t) [] start ≡ ok p
      → Template dialect start p
  Template-plain start s t p hs ht h =
      Template-ok start (plain (s ++ t) [] start) p
        (Template-before start s (plain t [] start) hs (Template-text start t ht)) h

  -- Two safe texts and one placeholder.
  Template-one :
      (start : ℕ) (s t : Str) (v : Value) (p : Part)
      → IsSafeText s
      → IsSafeText t
      → part (s ++ (t ++ ph dialect (start + 1))) (v ∷ []) (start + 1) ≡ ok p
      → Template dialect start p
  Template-one start s t v p hs ht h =
      let m = plain (ph dialect (start + 1)) (v ∷ []) (start + 1) in
      Template-ok start (record m { sql = s ++ (t ++ m.sql) }) p
        (Template-before start s (record m { sql = t ++ m.sql }) hs
          (Template-before start t m ht (Template-mark start v)))
        h

  pub Template-wrap :
      (start : ℕ) (before after : Str) (p : Part)
      → IsSafeText before
      → IsSafeText after
      → Template dialect start p
      → Template dialect start (wrap before after p)
  Template-wrap start before after p hb ha t = elim (Bool-cases (is_empty p.sql)) [
    | inl e ↦ rw e t
    | inr e ↦ rw e (Template-between start before after p hb ha t)
  ]

  module _ (column : Str) (hc : IsSafeText column) where
    pub equals_expr-IsSound : (v : Value) → IsSound (equals_expr dialect column v)
    unfolding equals_expr is_sql_char
    equals_expr-IsSound null start p h = Template-plain start column _ p hc refl h
    equals_expr-IsSound v start p h = Template-one start column (str " = ") v p hc refl h

    pub not_field_expr-IsSound :
        (nested : Option Builder) (v : Value)
        → ((b : Builder) → nested ≡ some b → IsSound b)
        → IsSound (not_field_expr dialect nested column v)
    unfolding not_field_expr is_sql_char
    not_field_expr-IsSound none null hn start p h = Template-plain start column _ p hc refl h
    not_field_expr-IsSound none v hn start p h =
        Template-one start column (str " <> ") v p hc refl h
    not_field_expr-IsSound (some b) v hn start p h =
        let (q, built, done) = >>=-eq-ok (b start) _ h in
        Template-ok start _ p
          (Template-between start (str "NOT (") (str ")") q refl refl (hn b refl start q built))
          done

    pub compare_expr-IsSound :
        (symbol : Str) (v : Value)
        → IsSafeText symbol
        → IsSound (compare_expr dialect column symbol v)
    unfolding compare_expr is_sql_char
    compare_expr-IsSound symbol v hs start p h =
        let m = plain (ph dialect (start + 1)) (v ∷ []) (start + 1) in
        let spaced = record m { sql = str " " ++ m.sql } in
        let signed = record m { sql = symbol ++ spaced.sql } in
        Template-ok start (record m { sql = column ++ (str " " ++ signed.sql) }) p
          (Template-before start column (record m { sql = str " " ++ signed.sql }) hc
            (Template-before start (str " ") signed refl (
              Template-before start symbol spaced hs
                (Template-before start (str " ") m refl (Template-mark start v)))))
          h

    pub string_expr-IsSound :
        (before after : Str) (v : Value) → IsSound (string_expr dialect column before after v)
    unfolding string_expr is_sql_char
    string_expr-IsSound before after (text s) start p h =
        Template-one start column (str " LIKE ") (text (before ++ (s ++ after))) p hc refl h
    string_expr-IsSound before after null start p h = cc
    string_expr-IsSound before after _ start p h = cc

    pub flag_expr-IsSound :
        (yes_text no_text : Str) (v : Value)
        → IsSafeText yes_text
        → IsSafeText no_text
        → IsSound (flag_expr column yes_text no_text v)
    unfolding flag_expr
    flag_expr-IsSound yes_text no_text (bool true) hy hn start p h =
        Template-plain start column _ p hc hy h
    flag_expr-IsSound yes_text no_text (bool false) hy hn start p h =
        Template-plain start column _ p hc hn h
    flag_expr-IsSound yes_text no_text null hy hn start p h = cc
    flag_expr-IsSound yes_text no_text _ hy hn start p h = cc

  abbrev holder_rows : List Value → List (List Piece)
  holder_rows [] = []
  holder_rows (x ∷ xs) = (mark ∷ []) ∷ holder_rows xs

  render_each-holders :
      (items : List Value) (start : ℕ)
      → holders dialect items start ≡ render_each dialect start (holder_rows items)
  unfolding holders render_each
  render_each-holders [] start = refl
  render_each-holders (x ∷ xs) start =
      ap₂ ◌∷◌ (sym (append-nil (ph dialect (start + 1)))) (render_each-holders xs (start + 1))

  marks_each-holders : (items : List Value) → marks_each dialect (holder_rows items) ≡ length items
  marks_each-holders [] = refl
  marks_each-holders (x ∷ xs) = omega (arith, marks_each-holders xs)

  holders-IsSafe : (items : List Value) → All (All IsSafe) (holder_rows items)
  holders-IsSafe [] = tt
  holders-IsSafe (x ∷ xs) = ((tt, tt), holders-IsSafe xs)

  pub holders-Templates :
      (items : List Value) (start : ℕ)
      → Templates dialect start (record {
        texts = holders dialect items start;
        args = items;
        next = start + length items;
      })
  holders-Templates items start = record {
    rows = holder_rows items;
    rendered = render_each-holders items start;
    safe = holders-IsSafe items;
    counted = sym (marks_each-holders items);
    ended = omega (arith, marks_each-holders items);
  }

  in_expr-items :
      (column op : Str) (items : List Value) (start : ℕ) (p : Part)
      → IsSafeText column
      → IsSafeText op
      → part
          (column
            ++ (str " "
                ++ (op
                    ++ (str " (" ++ (join (str ", ") (holders dialect items start) ++ str ")")))))
          items
          (start + length items)
        ≡ ok p
      → Template dialect start p
  unfolding is_sql_char
  in_expr-items column op items start p hc ho h =
      let texts = join (str ", ") (holders dialect items start) in
      let q = plain texts items (start + length items) in
      let inner = record q { sql = str " (" ++ (texts ++ str ")") } in
      let named = record q { sql = op ++ inner.sql } in
      Template-ok start (record q { sql = column ++ (str " " ++ named.sql) }) p
        (Template-before start column (record q { sql = str " " ++ named.sql }) hc
          (Template-before start (str " ") named refl (
            Template-before start op inner ho (
              Template-between start (str " (") (str ")") q refl refl
                (Template-join dialect (str ", ") start _ refl (holders-Templates items start))))))
        h

  pub in_expr-IsSound :
      (column : Str) (v : Value) (negate : Bool)
      → IsSafeText column
      → IsSound (in_expr dialect column v negate)
  unfolding in_expr is_sql_char
  in_expr-IsSound column (list nil) negate hc start p h = cc
  in_expr-IsSound column (list (cons x xs)) true hc start p h =
      in_expr-items column (str "NOT IN") (items_of (cons x xs)) start p hc refl h
  in_expr-IsSound column (list (cons x xs)) false hc start p h =
      in_expr-items column (str "IN") (items_of (cons x xs)) start p hc refl h
  in_expr-IsSound column null negate hc start p h = cc
  in_expr-IsSound column _ negate hc start p h = cc

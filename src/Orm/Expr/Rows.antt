-- ===== src/Orm/Expr/Rows.antt =====
-- The loops that run a row of builders are safe if each builder is.
use mathlib.Core.Path.{subst, ap₂}
use elgon.Base.{
  ℕ, ◌≡◌, refl, sym, ap, ◌∙◌, Bool, true, false, List, [], ◌∷◌, ◌++◌, arith, length-append, All,
  All-append, Bool-cases, inl, inr,
}
use elgon.Base.Text.{Str, str, join}
use elgon.Base.Result.{Result, ok, err, >>=-eq-ok}
use elgon.Orm.Value.{Error, sort_keys, All-sort_keys}
use elgon.Orm.Expr.{
  Part, Parts, Builder, is_empty, add_part, run_all, values_of, join_sorted, logical_list_expr,
  not_expr,
}
use elgon.Orm.Template.{
  is_sql_char, marks-empty, Template, Templates, render, render-append, marks-append, IsSafe,
  render_each, Template-join,
}
use elgon.Orm.Expr.Sound.{IsSafeText, IsSound, Template-ok, Template-wrap}

module _ (dialect : Str) where
  -- Two templates in a row, the second numbered from where the first ends.
  pub Template-append :
      (start : ℕ) (p q : Part)
      → Template dialect start p
      → Template dialect p.next q
      → Template dialect start
          (record { sql = p.sql ++ q.sql; args = p.args ++ q.args; next = q.next })
  Template-append start p q t u = record {
    pieces = t.pieces ++ u.pieces;
    rendered =
        ap₂ ◌++◌ t.rendered (u.rendered ∙ ap (λ n. render dialect n u.pieces) t.ended)
        ∙ sym (render-append dialect start t.pieces u.pieces);
    safe = All-append IsSafe t.pieces u.pieces t.safe u.safe;
    counted =
        omega (
          arith,
          length-append p.args q.args,
          marks-append t.pieces u.pieces,
          t.counted,
          u.counted,
        );
    ended = omega (arith, marks-append t.pieces u.pieces, t.ended, u.ended);
  }

  -- The row that `run_all` gives is a row of templates, if each builder is sound.
  pub Templates-nil :
      (start : ℕ) → Templates dialect start (record { texts = []; args = []; next = start })
  unfolding render_each
  Templates-nil start = record {
    rows = [];
    rendered = refl;
    safe = tt;
    counted = refl;
    ended = omega arith;
  }

  pub Templates-cons :
      (start : ℕ) (p : Part) (rest : Parts)
      → Template dialect start p
      → Templates dialect p.next rest
      → Templates dialect start
          (record rest { texts = p.sql ∷ rest.texts; args = p.args ++ rest.args })
  unfolding render_each
  Templates-cons start p rest t ts = record {
    rows = t.pieces ∷ ts.rows;
    rendered = ap₂ ◌∷◌ t.rendered (ts.rendered ∙ ap (λ n. render_each dialect n ts.rows) t.ended);
    safe = (t.safe, ts.safe);
    counted = omega (arith, length-append p.args rest.args, t.counted, ts.counted);
    ended = omega (arith, t.ended, ts.ended);
  }

  Templates-skip :
      (start : ℕ) (p : Part) (rest : Parts)
      → Template dialect start p
      → is_empty p.sql ≡ true
      → Templates dialect p.next rest
      → Templates dialect start rest
  Templates-skip start p rest t e ts =
      let none_left = marks-empty dialect start t.pieces (rw t.rendered at e) in
      let same : p.next ≡ start = omega (arith, t.ended, none_left) in
      subst (λ n. Templates dialect n rest) same ts

  Templates-add_part :
      (skips : Bool) (start : ℕ) (p : Part) (rest : Parts)
      → Template dialect start p
      → Templates dialect p.next rest
      → Templates dialect start (add_part skips p rest)
  Templates-add_part false start p rest t ts = Templates-cons start p rest t ts
  Templates-add_part true start p rest t ts = elim (Bool-cases (is_empty p.sql)) [
    | inl e ↦ rw e (Templates-skip start p rest t e ts)
    | inr e ↦ rw e (Templates-cons start p rest t ts)
  ]

  pub run_all-Templates :
      (skips : Bool) (bs : List Builder) (start : ℕ) (ps : Parts)
      → All (IsSound dialect) bs
      → run_all skips bs start ≡ ok ps
      → Templates dialect start ps
  unfolding run_all
  run_all-Templates skips [] start ps hs h =
      let q : record { texts = []; args = []; next = start } ≡ ps = cc in
      subst (Templates dialect start) q (Templates-nil start)
  run_all-Templates skips (b ∷ bs) start ps hs h =
      let (p, first, later) = >>=-eq-ok (b start) _ h in
      let (rest, ran, done) = >>=-eq-ok (run_all skips bs p.next) _ later in
      let q : add_part skips p rest ≡ ps = cc in
      subst (Templates dialect start) q (
        Templates-add_part skips start p rest (hs.0 start p first)
          (run_all-Templates skips bs p.next rest hs.1 ran))

  pub join_texts-IsSound :
      (skips : Bool) (sep : Str) (bs : List Builder) (start : ℕ) (ps : Parts)
      → IsSafeText sep
      → All (IsSound dialect) bs
      → run_all skips bs start ≡ ok ps
      → Template dialect start (record { sql = join sep ps.texts; args = ps.args; next = ps.next })
  join_texts-IsSound skips sep bs start ps hsep hs h =
      Template-join dialect sep start ps hsep (run_all-Templates skips bs start ps hs h)

  All-values_of :
      (es : List (Str × Builder))
      → All (λ e. IsSound dialect e.1) es
      → All (IsSound dialect) (values_of es)
  unfolding values_of
  All-values_of [] hs = tt
  All-values_of ((k, b) ∷ es) hs = (hs.0, All-values_of es hs.1)

  pub join_sorted-IsSound :
      (skips : Bool) (es : List (Str × Builder))
      → All (λ e. IsSound dialect e.1) es
      → IsSound dialect (join_sorted skips es)
  unfolding join_sorted is_sql_char
  join_sorted-IsSound skips es hs start p h =
      let bs = values_of (sort_keys es) in
      let (ps, ran, done) = >>=-eq-ok (run_all skips bs start) _ h in
      Template-ok dialect start _ p
        (join_texts-IsSound skips (str " AND ") bs start ps refl
          (All-values_of (sort_keys es) (All-sort_keys (IsSound dialect) es hs)) ran)
        done

  pub logical_list_expr-IsSound :
      (op : Str) (conditions : Result Error (List Builder))
      → IsSafeText (str " " ++ (op ++ str " "))
      → ((bs : List Builder) → conditions ≡ ok bs → All (IsSound dialect) bs)
      → IsSound dialect (logical_list_expr op conditions)
  unfolding logical_list_expr is_sql_char
  logical_list_expr-IsSound op (err e) hop hs start p h = cc
  logical_list_expr-IsSound op (ok bs) hop hs start p h =
      let (ps, ran, done) = >>=-eq-ok (run_all true bs start) _ h in
      Template-ok dialect start _ p
        (Template-wrap dialect start (str "(") (str ")") _ refl refl
          (join_texts-IsSound true (str " " ++ (op ++ str " ")) bs start ps hop (hs bs refl) ran))
        done

  pub not_expr-IsSound : (b : Builder) → IsSound dialect b → IsSound dialect (not_expr b)
  unfolding not_expr is_sql_char
  not_expr-IsSound b hb start p h =
      let (q, ran, done) = >>=-eq-ok (b start) _ h in
      Template-ok dialect start _ p
        (Template-wrap dialect start (str "NOT (") (str ")") q refl refl (hb start q ran)) done

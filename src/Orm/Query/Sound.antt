-- ===== src/Orm/Query/Sound.antt =====
-- Every statement that the repository sends is a safe template.
use mathlib.Core.Path.{subst}
use elgon.Base.{ℕ, zero, suc, ◌+◌, ◌≡◌, refl, Bool, List, [], ◌∷◌, ◌++◌, arith, length, All}
use elgon.Base.Text.{Str, str, join}
use elgon.Base.Result.{Result, ok, >>=-eq-ok}
use elgon.Orm.Value.{Value, int, Fields, end, field, Error, valid_identifier}
use elgon.Orm.Expr.{Part, ph, holders}
use elgon.Orm.Template.{is_sql_char, Template, Templates, Template-join}
use elgon.Orm.Expr.Sound.{
  IsSafeText, plain, Template-text, Template-mark, Template-before, Template-after,
  Template-between, holders-Templates,
}
use elgon.Orm.Expr.Rows.{Template-append, Templates-nil, Templates-cons}
use elgon.Orm.Where.{where_clause}
use elgon.Orm.Where.Sound.{where_clause-IsSound}
use elgon.Orm.Query.{
  Statement, Columns, FindOptions, normalized_values, select_columns, returning_text, order_text,
  set_parts, limit_text, limit_args, insert_query, update_query, select_query, delete_query,
}
use elgon.Orm.Query.Texts.{
  safe-append, safe-join, safe_identifier, CountedColumns, normalized_values-safe,
  select_columns-safe, returning_text-safe, order_text-safe,
}

-- A statement whose text is a template of safe characters, with the placeholders numbered from 1
-- in their order, and with one argument for each.
abbrev pub IsSafeStatement : Str → Statement → Type 0
IsSafeStatement dialect s = Template dialect 0 (plain s.query s.args (length s.args))

module _ (dialect : Str) where
  of_ok :
      (a s : Statement)
      → IsSafeStatement dialect a
      → ◌≡◌ {A = Result Error Statement} (ok a) (ok s)
      → IsSafeStatement dialect s
  of_ok a s t h = let q : a ≡ s = cc in subst (IsSafeStatement dialect) q t

  -- The number of arguments is the number that the template ends with.
  ended-length :
      (p : Part) → Template dialect 0 p → Template dialect 0 (plain p.sql p.args (length p.args))
  ended-length p t = record {
    pieces = t.pieces;
    rendered = t.rendered;
    safe = t.safe;
    counted = t.counted;
    ended = omega (arith, t.counted);
  }

  -- The statement of `Delete` is safe, whatever table and where map are given.
  pub delete_query-IsSafe :
      (name : Str) (w : Fields) (s : Statement)
      → delete_query dialect name w ≡ ok s
      → IsSafeStatement dialect s
  unfolding delete_query is_sql_char
  delete_query-IsSafe name end s h = cc
  delete_query-IsSafe name (field k v fs) s h =
      let (table, valid, later) = >>=-eq-ok (valid_identifier name) _ h in
      let (p, built, done) = >>=-eq-ok (where_clause dialect (field k v fs) 0) _ later in
      of_ok _ s
        (ended-length (record p { sql = str "DELETE FROM " ++ (table ++ p.sql) })
          (Template-before dialect 0 (str "DELETE FROM ") (record p { sql = table ++ p.sql }) refl
            (Template-before dialect 0 table p (safe_identifier name table valid)
              (where_clause-IsSound dialect (field k v fs) 0 p built))))
        done

  holders-Template :
      (args : List Value)
      → Template dialect 0 (plain (join (str ", ") (holders dialect args 0)) args (length args))
  unfolding is_sql_char
  holders-Template args =
      ended-length _ (Template-join dialect (str ", ") 0 _ refl (holders-Templates dialect args 0))

  -- The statement of an insertion is safe, whatever table, values and columns are given.
  pub insert_query-IsSafe :
      (name : Str) (values : Fields) (returning : List Str) (wanted : Bool) (s : Statement)
      → insert_query dialect name values returning wanted ≡ ok s
      → IsSafeStatement dialect s
  unfolding insert_query is_sql_char
  insert_query-IsSafe name values returning wanted s h =
      let (table, valid, later) = >>=-eq-ok (valid_identifier name) _ h in
      let (c, normal, later2) = >>=-eq-ok (normalized_values values) _ later in
      let (clause, ran, done) = >>=-eq-ok (returning_text wanted returning) _ later2 in
      let cols = join (str ", ") c.cols in
      let hs = plain (join (str ", ") (holders dialect c.args 0)) c.args (length c.args) in
      let p1 = record hs { sql = str ") VALUES (" ++ (hs.sql ++ (str ")" ++ clause)) } in
      let p2 = record hs { sql = cols ++ p1.sql } in
      let p3 = record hs { sql = str " (" ++ p2.sql } in
      let p4 = record hs { sql = table ++ p3.sql } in
      of_ok _ s
        (Template-before dialect 0 (str "INSERT INTO ") p4 refl (
          Template-before dialect 0 table p3 (safe_identifier name table valid) (
            Template-before dialect 0 (str " (") p2 refl (
              Template-before dialect 0 cols p1
                (safe-join (str ", ") c.cols refl (normalized_values-safe values c normal).0)
                (Template-between dialect 0 (str ") VALUES (") (str ")" ++ clause) hs refl
                  (safe-append (str ")") clause refl
                    (returning_text-safe wanted returning clause ran))
                  (holders-Template c.args))))))
        done

  set_part-Template :
      (col : Str) (v : Value) (n : ℕ)
      → IsSafeText col
      → Template dialect n (plain (col ++ (str " = " ++ ph dialect (n + 1))) (v ∷ []) (n + 1))
  unfolding is_sql_char
  set_part-Template col v n hc =
      let m = plain (ph dialect (n + 1)) (v ∷ []) (n + 1) in
      Template-before dialect n col (record m { sql = str " = " ++ m.sql }) hc
        (Template-before dialect n (str " = ") m refl (Template-mark dialect n v))

  set_parts-Templates :
      (cols : List Str) (args : List Value) (n : ℕ)
      → All IsSafeText cols
      → length cols ≡ length args
      → Templates dialect n
          (record { texts = set_parts dialect cols n; args = args; next = n + length args })
  unfolding set_parts
  set_parts-Templates [] [] n hs same =
      subst (λ k. Templates dialect n (record { texts = []; args = []; next = k })) (omega arith)
        (Templates-nil dialect n)
  set_parts-Templates [] (v ∷ args) n hs same = absurd (omega arith)
  set_parts-Templates (col ∷ cols) [] n hs same = absurd (omega arith)
  set_parts-Templates (col ∷ cols) (v ∷ args) n hs same =
      subst
        (λ k.
          Templates dialect n
            (record { texts = set_parts dialect (col ∷ cols) n; args = v ∷ args; next = k }))
        (omega arith)
        (Templates-cons dialect n
          (plain (col ++ (str " = " ++ ph dialect (n + 1))) (v ∷ []) (n + 1))
          (record {
            texts = set_parts dialect cols (n + 1);
            args = args;
            next = n + 1 + length args;
          })
          (set_part-Template col v n hs.0)
          (set_parts-Templates cols args (n + 1) hs.1 (omega arith)))

  set_list-Template :
      (c : Columns)
      → CountedColumns c
      → Template dialect 0
          (plain (join (str ", ") (set_parts dialect c.cols 0)) c.args (length c.args))
  unfolding is_sql_char
  set_list-Template c (safe, same) =
      ended-length _
        (Template-join dialect (str ", ") 0 _ refl (set_parts-Templates c.cols c.args 0 safe same))

  -- The statement of an update is safe, and its placeholders run on from the assignments into the
  -- where clause.
  pub update_query-IsSafe :
      (name : Str) (w patch : Fields) (returning : List Str) (wanted : Bool) (s : Statement)
      → update_query dialect name w patch returning wanted ≡ ok s
      → IsSafeStatement dialect s
  unfolding update_query is_sql_char
  update_query-IsSafe name end patch returning wanted s h =
      let (table, valid, later) = >>=-eq-ok (valid_identifier name) _ h in cc
  update_query-IsSafe name (field k v fs) patch returning wanted s h =
      let (table, valid, later) = >>=-eq-ok (valid_identifier name) _ h in
      let (c, normal, later2) = >>=-eq-ok (normalized_values patch) _ later in
      let (w, built, later3) =
        >>=-eq-ok (where_clause dialect (field k v fs) (length c.args)) _ later2 in
      let (clause, ran, done) = >>=-eq-ok (returning_text wanted returning) _ later3 in
      let sets = plain (join (str ", ") (set_parts dialect c.cols 0)) c.args (length c.args) in
      let tail = record w { sql = w.sql ++ clause } in
      let p1 = plain (sets.sql ++ tail.sql) (c.args ++ w.args) w.next in
      let p2 = record p1 { sql = str " SET " ++ p1.sql } in
      let p3 = record p1 { sql = table ++ p2.sql } in
      of_ok _ s
        (ended-length (record p1 { sql = str "UPDATE " ++ p3.sql })
          (Template-before dialect 0 (str "UPDATE ") p3 refl (
            Template-before dialect 0 table p2 (safe_identifier name table valid) (
              Template-before dialect 0 (str " SET ") p1 refl (
                Template-append dialect 0 sets tail
                  (set_list-Template c (normalized_values-safe patch c normal))
                  (Template-after dialect (length c.args) clause w
                    (returning_text-safe wanted returning clause ran)
                    (where_clause-IsSound dialect (field k v fs) (length c.args) w built)))))))
        done

  limit-Template :
      (word : Str) (n k : ℕ)
      → IsSafeText word
      → Template dialect n (
          plain
            (limit_text dialect word n k)
            (limit_args dialect k)
            (n + length (limit_args dialect k)))
  unfolding limit_text
  limit-Template word n zero hw =
      subst (λ j. Template dialect n (plain (str "") [] j)) (omega arith)
        (Template-text dialect n (str "") refl)
  limit-Template word n (suc k) hw =
      let m = plain (ph dialect (n + 1)) (int (suc k) ∷ []) (n + 1) in
      Template-before dialect n word m hw (Template-mark dialect n (int (suc k)))

  -- The statement of a search is safe, with its order, limit and offset.
  pub select_query-IsSafe :
      (name : Str) (opts : FindOptions) (s : Statement)
      → select_query dialect name opts ≡ ok s
      → IsSafeStatement dialect s
  unfolding select_query is_sql_char
  select_query-IsSafe name opts s h =
      let (table, valid, later) = >>=-eq-ok (valid_identifier name) _ h in
      let (columns, ran, later2) = >>=-eq-ok (select_columns opts.columns) _ later in
      let (w, built, later3) = >>=-eq-ok (where_clause dialect opts.filter 0) _ later2 in
      let (order, sorted, done) = >>=-eq-ok (order_text opts.order_by) _ later3 in
      let n = length w.args in
      let la = limit_args dialect opts.limit in
      let m = n + length la in
      let limit = plain (limit_text dialect (str " LIMIT ") n opts.limit) la m in
      let oa = limit_args dialect opts.offset in
      let offset = plain (limit_text dialect (str " OFFSET ") m opts.offset) oa (m + length oa) in
      let ends = plain (limit.sql ++ offset.sql) (la ++ oa) (m + length oa) in
      let p1 = record ends { sql = order ++ ends.sql } in
      let p2 = plain (w.sql ++ p1.sql) (w.args ++ (la ++ oa)) (m + length oa) in
      let p3 = record p2 { sql = table ++ p2.sql } in
      let p4 = record p2 { sql = str " FROM " ++ p3.sql } in
      let p5 = record p2 { sql = columns ++ p4.sql } in
      of_ok _ s
        (ended-length (record p2 { sql = str "SELECT " ++ p5.sql })
          (Template-before dialect 0 (str "SELECT ") p5 refl (
            Template-before dialect 0 columns p4 (select_columns-safe opts.columns columns ran) (
              Template-before dialect 0 (str " FROM ") p3 refl (
                Template-before dialect 0 table p2 (safe_identifier name table valid) (
                  Template-append dialect 0 (plain w.sql w.args n) p1
                    (ended-length w (where_clause-IsSound dialect opts.filter 0 w built))
                    (Template-before dialect n order ends
                      (order_text-safe opts.order_by order sorted)
                      (Template-append dialect n limit offset
                        (limit-Template (str " LIMIT ") n opts.limit refl)
                        (limit-Template (str " OFFSET ") m opts.offset refl)))))))))
        done

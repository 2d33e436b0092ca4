-- ===== src/Orm/Where/Sound.antt =====
-- Every where clause that is built is a safe template: no key or value of the caller stands in the
-- text, but for identifiers.
use mathlib.Core.Path.{subst}
use elgon.Base.{
  ℕ, ◌≡◌, refl, Bool, true, false, Option, none, some, List, [], ◌∷◌, arith, All, Bool-cases, inl,
  inr, if◌then◌else◌,
}
use elgon.Base.Text.{Str, str}
use elgon.Base.Result.{Result, ok, err, >>=-eq-ok}
use elgon.Orm.Value.{
  Value, null, list, object, Items, nil, cons, Fields, end, field, Error, is_ident_char, all,
  valid_identifier, valid_identifier-all,
}
use elgon.Orm.Expr.{Part, Builder, is_empty, join_sorted}
use elgon.Orm.Template.{is_sql_char, Template}
use elgon.Orm.Expr.Sound.{
  IsSafeText, IsSound, Template-ok, Template-before, Template-text, equals_expr-IsSound,
  not_field_expr-IsSound, compare_expr-IsSound, string_expr-IsSound, flag_expr-IsSound,
  in_expr-IsSound,
}
use elgon.Orm.Expr.Rows.{join_sorted-IsSound, logical_list_expr-IsSound, not_expr-IsSound}
use elgon.Orm.Where.{
  operator_part, field_expr, where_part, contains_any_operator_key, when_fields, operator_entries,
  nested_ops, operator_expr, field_ops, where_entries, condition, condition_list, conditions,
  build_where_map, where_text, where_clause,
}

-- An identifier is safe text.
pub identifier-IsSafeText : (s : Str) → all is_ident_char s ≡ true → IsSafeText s
unfolding is_sql_char
identifier-IsSafeText [] h = refl
identifier-IsSafeText (c ∷ s) h = ground (arith, identifier-IsSafeText s)

-- Both branches of a test.
either_branch {ℓ κ} :
    {A : Type ℓ} {T : Type κ} (test : Bool) {x y r : A}
    → (x ≡ r → T)
    → (y ≡ r → T)
    → (if test then x else y) ≡ r
    → T
either_branch true f g h = f h
either_branch false f g h = g h

failing {ℓ} : {T : Type ℓ} {e : Error} {p : Part} → ◌≡◌ {A = Result Error Part} (err e) (ok p) → T
failing h = cc

module _ (dialect : Str) where
  pub operator_part-IsSound :
      (column key : Str) (v : Value) (nested : Option Builder)
      → IsSafeText column
      → ((b : Builder) → nested ≡ some b → IsSound dialect b)
      → IsSound dialect (operator_part dialect column key v nested)
  unfolding operator_part is_sql_char
  operator_part-IsSound column key v nested hc hn start p =
      let cmp = λ (symbol : Str) (hs : IsSafeText symbol).
        compare_expr-IsSound dialect column hc symbol v hs start p in
      let like =
        λ (before after : Str). string_expr-IsSound dialect column hc before after v start p in
      either_branch _ (equals_expr-IsSound dialect column hc v start p) (
        either_branch _ (not_field_expr-IsSound dialect column hc nested v hn start p) (
          either_branch _ (in_expr-IsSound dialect column v false hc start p) (
            either_branch _ (in_expr-IsSound dialect column v true hc start p) (
              either_branch _ (cmp (str "<") refl) (
                either_branch _ (cmp (str "<=") refl) (
                  either_branch _ (cmp (str ">") refl) (
                    either_branch _ (cmp (str ">=") refl) (
                      either_branch _ (like (str "%") (str "%")) (
                        either_branch _ (like (str "") (str "%")) (
                          either_branch _ (like (str "%") (str "")) (
                            either_branch _
                              (flag_expr-IsSound dialect column hc (str " IS NOT NULL")
                                (str " IS NULL") v refl refl start p)
                              (either_branch _
                                (flag_expr-IsSound dialect column hc (str " = ''") (str " <> ''") v
                                  refl refl start p)
                                (either_branch _ failing failing)))))))))))))

  pub field_expr-IsSound :
      (column : Str) (v : Value) (ops : Option (Str → Builder))
      → ((build : Str → Builder) (col : Str)
          → ops ≡ some build
          → IsSafeText col
          → IsSound dialect (build col))
      → IsSound dialect (field_expr dialect column v ops)
  unfolding field_expr
  field_expr-IsSound column v none ho start p h =
      let (col, valid, done) = >>=-eq-ok (valid_identifier column) _ h in
      equals_expr-IsSound dialect col
        (identifier-IsSafeText col (valid_identifier-all column col valid)) v start p done
  field_expr-IsSound column v (some build) ho start p h =
      let (col, valid, done) = >>=-eq-ok (valid_identifier column) _ h in
      ho build col refl (identifier-IsSafeText col (valid_identifier-all column col valid)) start p
        done

  pub where_part-IsSound :
      (key : Str) (v : Value) (cs : Result Error (List Builder)) (c : Builder)
      (ops : Option (Str → Builder))
      → ((bs : List Builder) → cs ≡ ok bs → All (IsSound dialect) bs)
      → IsSound dialect c
      → ((build : Str → Builder) (col : Str)
          → ops ≡ some build
          → IsSafeText col
          → IsSound dialect (build col))
      → IsSound dialect (where_part dialect key v cs c ops)
  unfolding where_part is_sql_char
  where_part-IsSound key v cs c ops hcs hc ho start p =
      either_branch _ (logical_list_expr-IsSound dialect (str "AND") cs refl hcs start p) (
        either_branch _ (logical_list_expr-IsSound dialect (str "OR") cs refl hcs start p) (
          either_branch _ (not_expr-IsSound dialect c hc start p)
            (field_expr-IsSound key v ops ho start p)))

  when_fields-IsSound :
      (fs : Fields) (column : Str)
      → All (λ e. IsSound dialect e.1) (operator_entries dialect fs column)
      → (b : Builder)
      → when_fields fs (join_sorted false (operator_entries dialect fs column)) ≡ some b
      → IsSound dialect b
  when_fields-IsSound end column hs b h = cc
  when_fields-IsSound (field k v fs) column hs b h =
      let ops = join_sorted false (operator_entries dialect (field k v fs) column) in
      let q : ops ≡ b = cc in subst (IsSound dialect) q (join_sorted-IsSound dialect false _ hs)

  mutual
    unfolding operator_entries

    operator_entries-IsSound :
        (fs : Fields) (column : Str)
        → IsSafeText column
        → All (λ e. IsSound dialect e.1) (operator_entries dialect fs column)
    operator_entries-IsSound end column hc = tt
    operator_entries-IsSound (field k v fs) column hc = (
      operator_part-IsSound column k v (nested_ops dialect v column) hc
          (nested_ops-IsSound v column hc),
      operator_entries-IsSound fs column hc,
    )

    nested_ops-IsSound :
        (v : Value) (column : Str)
        → IsSafeText column
        → (b : Builder) → nested_ops dialect v column ≡ some b
        → IsSound dialect b
    nested_ops-IsSound (object fs) column hc b h =
        let hs = operator_entries-IsSound fs column hc in when_fields-IsSound fs column hs b h
    nested_ops-IsSound null column hc b h = cc
    nested_ops-IsSound _ column hc b h = cc

  field_ops-IsSound :
      (v : Value) (build : Str → Builder) (col : Str)
      → field_ops dialect v ≡ some build
      → IsSafeText col
      → IsSound dialect (build col)
  unfolding field_ops
  field_ops-IsSound (object fs) build col h hc = elim (Bool-cases (contains_any_operator_key fs)) [
    | inl e ↦
        let found : some (operator_expr dialect fs) ≡ some build = rw e at h in
        let q : operator_expr dialect fs ≡ build = cc in
        subst (λ f. IsSound dialect (f col)) q
          (unfold operator_expr in
            join_sorted-IsSound dialect false _ (operator_entries-IsSound fs col hc))
    | inr e ↦ let found : none ≡ some build = rw e at h in cc
  ]
  field_ops-IsSound null build col h hc = cc
  field_ops-IsSound _ build col h hc = cc

  mutual
    unfolding where_entries

    where_entries-IsSound :
        (fs : Fields) → All (λ e. IsSound dialect e.1) (where_entries dialect fs)
    where_entries-IsSound end = tt
    where_entries-IsSound (field k v fs) = (
      where_part-IsSound k v (condition_list dialect v) (condition dialect v) (field_ops dialect v)
          (condition_list-IsSound v) (condition-IsSound v) (field_ops-IsSound v),
      where_entries-IsSound fs,
    )

    condition-IsSound : (v : Value) → IsSound dialect (condition dialect v)
    condition-IsSound (object fs) =
        join_sorted-IsSound dialect true (where_entries dialect fs) (where_entries-IsSound fs)
    condition-IsSound null = λ start p h. cc
    condition-IsSound _ = λ start p h. cc

    condition_list-IsSound :
        (v : Value) (bs : List Builder)
        → condition_list dialect v ≡ ok bs
        → All (IsSound dialect) bs
    condition_list-IsSound null bs h = let q : [] ≡ bs = cc in subst (All (IsSound dialect)) q tt
    condition_list-IsSound (object fs) bs h =
        let q : join_sorted true (where_entries dialect fs) ∷ [] ≡ bs = cc in
        subst (All (IsSound dialect)) q (
          join_sorted-IsSound dialect true (where_entries dialect fs) (where_entries-IsSound fs),
          tt,
        )
    condition_list-IsSound (list xs) bs h =
        let q : conditions dialect xs ≡ bs = cc in
        subst (All (IsSound dialect)) q (conditions-IsSound xs)
    condition_list-IsSound _ bs h = cc

    conditions-IsSound : (xs : Items) → All (IsSound dialect) (conditions dialect xs)
    conditions-IsSound nil = tt
    conditions-IsSound (cons x xs) = (condition-IsSound x, conditions-IsSound xs)

  where_text-IsSound :
      (start : ℕ) (q : Part) → Template dialect start q → Template dialect start (where_text q)
  unfolding is_sql_char
  where_text-IsSound start q t = elim (Bool-cases (is_empty q.sql)) [
    | inl e ↦ rw e t
    | inr e ↦ rw e (Template-before dialect start (str " WHERE ") q refl t)
  ]

  -- Whatever where map the caller passes: if it is translated, the text is a template of safe
  -- characters, its placeholders are numbered from the one after `start` in their order, and there
  -- is one argument for each.
  pub where_clause-IsSound : (w : Fields) → IsSound dialect (where_clause dialect w)
  unfolding where_clause
  where_clause-IsSound end start p h =
      Template-ok dialect start _ p (Template-text dialect start (str "") refl) h
  where_clause-IsSound (field k v fs) start p h =
      let (q, built, done) = >>=-eq-ok (build_where_map dialect (field k v fs) start) _ h in
      Template-ok dialect start _ p
        (where_text-IsSound start q (
          unfold build_where_map in
          join_sorted-IsSound dialect true (where_entries dialect (field k v fs))
            (where_entries-IsSound (field k v fs)) start q built))
        done

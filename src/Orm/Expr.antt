-- ===== src/Orm/Expr.antt =====
-- orm/table.go: the expressions of a where clause, and the loops that join them.
pub mod Sound
pub mod Rows
use elgon.Base.{
  ℕ, suc, ◌+◌, ◌≡◌, refl, Bool, true, false, ◌&&◌, ◌||◌, Option, none, some, List, [], ◌∷◌, ◌++◌,
  map, length, if◌then◌else◌,
}
use elgon.Base.Text.{Str, str, str_eq, trim_space, join, to_upper, to_lower, equal_fold, decimal}
use elgon.Base.Result.{Result, ok, err, ◌>>=◌}
use elgon.Orm.Value.{
  Value, null, bool, text, opaque, list, object, Items, nil, cons, Fields, end, field, Error,
  invalid_input, unsupported_operator, to_any_slice, valid_identifier, sort_keys,
}

-- What a builder returns beside its error: SQL text, arguments and the number of placeholders
-- used so far.
pub record Part : Type 0 where
  pub sql : Str
  pub args : List Value
  pub next : ℕ

abbrev pub Builder : Type 0
Builder = ℕ → Result Error Part

abbrev pub part : Str → List Value → Builder
part sql args next = ok (record { sql = sql; args = args; next = next })

abbrev pub fail : Builder
fail start = err invalid_input

-- `ph`
unfoldable pub ph : Str → ℕ → Str
unfolding equal_fold decimal
ph dialect n =
    if equal_fold dialect (str "postgres") || equal_fold dialect (str "pg")
    then str "$" ++ decimal n
    else str "?"

abbrev pub is_empty : Str → Bool
is_empty [] = true
is_empty (c ∷ s) = false

-- The texts, arguments and the last number of a row of builders, run from left to right. Where
-- `skips` is true, a part without text is left out.
pub record Parts : Type 0 where
  pub texts : List Str
  pub args : List Value
  pub next : ℕ

abbrev pub add_part : Bool → Part → Parts → Parts
add_part skips p rest =
    if skips && is_empty p.sql
    then rest
    else record rest { texts = p.sql ∷ rest.texts; args = p.args ++ rest.args }

unfoldable pub run_all : Bool → List Builder → ℕ → Result Error Parts
run_all skips [] next = ok (record { texts = []; args = []; next = next })
run_all skips (b ∷ bs) next = do
  p ← b next
  rest ← run_all skips bs p.next
  ok (add_part skips p rest)

unfoldable pub values_of {ℓ} : {A : Type ℓ} → List (Str × A) → List A
values_of [] = []
values_of ((k, a) ∷ es) = a ∷ values_of es

-- The loop of `buildWhereMap` over the builders of its entries.
unfoldable pub join_sorted : Bool → List (Str × Builder) → Builder
unfolding run_all sort_keys values_of join
join_sorted skips entries start = do
  ps ← run_all skips (values_of (sort_keys entries)) start
  part (join (str " AND ") ps.texts) ps.args ps.next

abbrev pub wrap : Str → Str → Part → Part
wrap before after p = if is_empty p.sql then p else record p { sql = before ++ (p.sql ++ after) }

-- `buildLogicalListExpr` over the builders of its conditions.
unfoldable pub logical_list_expr : Str → Result Error (List Builder) → Builder
unfolding run_all join
logical_list_expr op conditions start = do
  bs ← conditions
  ps ← run_all true bs start
  ok (
      wrap (str "(") (str ")") (record {
        sql = join (str " " ++ (op ++ str " ")) ps.texts;
        args = ps.args;
        next = ps.next;
      }))

-- `buildNotExpr` over the builder of its condition.
unfoldable pub not_expr : Builder → Builder
not_expr condition start = do p ← condition start; ok (wrap (str "NOT (") (str ")") p)

module _ (dialect : Str) where
  -- `buildEqualsExpr`, and the last lines of `buildFieldExpr`.
  unfoldable pub equals_expr : Str → Value → Builder
  unfolding ph
  equals_expr column null start = part (column ++ str " IS NULL") [] start
  equals_expr column value start =
      part (column ++ (str " = " ++ ph dialect (start + 1))) (value ∷ []) (start + 1)

  -- `buildNotFieldExpr`; the first argument is the builder of the operators in a nested object.
  unfoldable pub not_field_expr : Option Builder → Str → Value → Builder
  unfolding ph
  not_field_expr (some nested) column value start = do
    p ← nested start
    part (str "NOT (" ++ (p.sql ++ str ")")) p.args p.next
  not_field_expr none column null start = part (column ++ str " IS NOT NULL") [] start
  not_field_expr none column value start =
      part (column ++ (str " <> " ++ ph dialect (start + 1))) (value ∷ []) (start + 1)

  -- The placeholders of `items`, numbered from the one after `next`.
  unfoldable pub holders : List Value → ℕ → List Str
  unfolding ph
  holders [] next = []
  holders (x ∷ xs) next = ph dialect (next + 1) ∷ holders xs (next + 1)

  -- `buildInExpr`
  unfoldable pub in_expr : Str → Value → Bool → Builder
  unfolding to_any_slice holders join
  in_expr column value negate start = elim (to_any_slice value) [
    | none ↦ err invalid_input
    | some items ↦ elim items [
      | [] ↦ err invalid_input
      | x ∷ xs ↦
          part
            (column
              ++ (str " "
                  ++ ((if negate then str "NOT IN" else str "IN")
                      ++ (str " (" ++ (join (str ", ") (holders (x ∷ xs) start) ++ str ")")))))
            (x ∷ xs) (start + length (x ∷ xs))
    ]
  ]

  -- `buildCompareExpr`
  unfoldable pub compare_expr : Str → Str → Value → Builder
  unfolding ph
  compare_expr column symbol value start =
      part (column ++ (str " " ++ (symbol ++ (str " " ++ ph dialect (start + 1))))) (value ∷ [])
        (start + 1)

  -- `buildStringExpr`, with the marks that the operator puts before and after the text.
  unfoldable pub string_expr : Str → Str → Str → Value → Builder
  unfolding ph
  string_expr column before after (text s) start =
      part (column ++ (str " LIKE " ++ ph dialect (start + 1))) (text (before ++ (s ++ after)) ∷ [])
        (start + 1)
  string_expr column before after null start = err invalid_input
  string_expr column before after _ start = err invalid_input

-- `buildIsSetExpr` and `buildIsEmptyExpr`: the texts for true and for false.
unfoldable pub flag_expr : Str → Str → Str → Value → Builder
flag_expr column yes_text no_text (bool b) start =
    part (column ++ (if b then yes_text else no_text)) [] start
flag_expr column yes_text no_text null start = err invalid_input
flag_expr column yes_text no_text _ start = err invalid_input

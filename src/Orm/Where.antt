-- ===== src/Orm/Where.antt =====
-- orm/table.go: the recursion over where clauses, `buildWhereMap` and its callees. Go sorts the keys
-- and then reads each value; here each entry gives its builder, and the builders are sorted.
pub mod Sound
use elgon.Base.{
  ℕ, ◌≡◌, refl, Bool, true, false, ◌&&◌, ◌||◌, Option, none, some, List, [], ◌∷◌, ◌++◌,
  if◌then◌else◌,
}
use elgon.Base.Text.{Str, str, str_eq, trim_space, to_upper, to_lower}
use elgon.Base.Result.{Result, ok, err, ◌>>=◌}
use elgon.Orm.Value.{
  Value, null, bool, text, opaque, list, object, Items, nil, cons, Fields, end, field, Error,
  invalid_input, unsupported_operator, valid_identifier,
}
use elgon.Orm.Expr.{
  Part, part, is_empty, Builder, fail, join_sorted, logical_list_expr, not_expr, equals_expr,
  not_field_expr, in_expr, compare_expr, string_expr, flag_expr,
}

-- Whether `op` is one of the words.
unfoldable pub one_of : Str → List Str → Bool
unfolding str_eq
one_of op [] = false
one_of op (w ∷ ws) = str_eq op w || one_of op ws

abbrev pub list_operators : List Str
list_operators =
    str "some" ∷ str "every" ∷ str "none" ∷ str "has" ∷ str "hasevery" ∷ str "hassome" ∷ []

abbrev pub operators : List Str
operators =
    str "equals"
    ∷ str "is"
    ∷ str "not"
    ∷ str "isnot"
    ∷ str "in"
    ∷ str "notin"
    ∷ str "lt"
    ∷ str "lte"
    ∷ str "gt"
    ∷ str "gte"
    ∷ str "contains"
    ∷ str "startswith"
    ∷ str "endswith"
    ∷ str "isset"
    ∷ str "isempty"
    ∷ list_operators

-- `strings.ToLower(strings.TrimSpace(key))`
unfoldable pub operator_of : Str → Str
unfolding to_lower trim_space
operator_of key = to_lower (trim_space key)

-- `containsAnyOperatorKey`
unfoldable pub contains_any_operator_key : Fields → Bool
unfolding one_of operator_of
contains_any_operator_key end = false
contains_any_operator_key (field k v fs) =
    one_of (operator_of k) operators || contains_any_operator_key fs

module _ (dialect : Str) where
  -- One case of the switch in `buildOperatorExpr`; `nested` builds the operators in a nested object
  -- that is not empty.
  unfoldable pub operator_part : Str → Str → Value → Option Builder → Builder
  unfolding one_of operator_of equals_expr not_field_expr in_expr compare_expr string_expr flag_expr
  operator_part column key value nested start =
      let op = operator_of key in
      if one_of op (str "equals" ∷ str "is" ∷ [])
      then equals_expr dialect column value start
      else if one_of op (str "not" ∷ str "isnot" ∷ [])
      then not_field_expr dialect nested column value start
      else if str_eq op (str "in")
      then in_expr dialect column value false start
      else if str_eq op (str "notin")
      then in_expr dialect column value true start
      else if str_eq op (str "lt")
      then compare_expr dialect column (str "<") value start
      else if str_eq op (str "lte")
      then compare_expr dialect column (str "<=") value start
      else if str_eq op (str "gt")
      then compare_expr dialect column (str ">") value start
      else if str_eq op (str "gte")
      then compare_expr dialect column (str ">=") value start
      else if str_eq op (str "contains")
      then string_expr dialect column (str "%") (str "%") value start
      else if str_eq op (str "startswith")
      then string_expr dialect column (str "") (str "%") value start
      else if str_eq op (str "endswith")
      then string_expr dialect column (str "%") (str "") value start
      else if str_eq op (str "isset")
      then flag_expr column (str " IS NOT NULL") (str " IS NULL") value start
      else if str_eq op (str "isempty")
      then flag_expr column (str " = ''") (str " <> ''") value start
      else if one_of op list_operators
      then err unsupported_operator
      else err invalid_input

  -- `buildFieldExpr`: `ops` builds the operators of a value that is an object with some operator.
  unfoldable pub field_expr : Str → Value → Option (Str → Builder) → Builder
  unfolding valid_identifier equals_expr
  field_expr column value ops start = do
    col ← valid_identifier column
    elim ops [ none ↦ equals_expr dialect col value start | some build ↦ build col start ]

  -- One case of the switch in `buildWhereMap`.
  unfoldable pub where_part :
      Str → Value → Result Error (List Builder) → Builder → Option (Str → Builder) → Builder
  unfolding to_upper trim_space str_eq logical_list_expr not_expr field_expr
  where_part key value conditions condition ops start =
      let up = to_upper (trim_space key) in
      if str_eq up (str "AND")
      then logical_list_expr (str "AND") conditions start
      else if str_eq up (str "OR")
      then logical_list_expr (str "OR") conditions start
      else if str_eq up (str "NOT")
      then not_expr condition start
      else field_expr key value ops start

abbrev pub when_fields {ℓ} : {A : Type ℓ} → Fields → A → Option A
when_fields end a = none
when_fields (field k v fs) a = some a

unfoldable mutual
  -- The builders of the operators in an object, by key.
  pub operator_entries : Str → Fields → Str → List (Str × Builder)
  operator_entries dialect end column = []
  operator_entries dialect (field k v fs) column =
      (k, operator_part dialect column k v (nested_ops dialect v column))
      ∷ operator_entries dialect fs column

  -- `buildOperatorExpr` on a value that is an object which is not empty.
  pub nested_ops : Str → Value → Str → Option Builder
  nested_ops dialect (object fs) column =
      when_fields fs (join_sorted false (operator_entries dialect fs column))
  nested_ops dialect null column = none
  nested_ops dialect _ column = none

-- `buildOperatorExpr`
unfoldable pub operator_expr : Str → Fields → Str → Builder
unfolding operator_entries join_sorted operator_part
operator_expr dialect fs column = join_sorted false (operator_entries dialect fs column)

unfoldable pub field_ops : Str → Value → Option (Str → Builder)
unfolding contains_any_operator_key operator_expr
field_ops dialect (object fs) =
    if contains_any_operator_key fs then some (operator_expr dialect fs) else none
field_ops dialect null = none
field_ops dialect _ = none

unfoldable mutual
  -- The builders of the entries of a where map, by key.
  pub where_entries : Str → Fields → List (Str × Builder)
  where_entries dialect end = []
  where_entries dialect (field k v fs) =
      (
        k,
        where_part dialect k v (condition_list dialect v) (condition dialect v)
            (field_ops dialect v),
      )
      ∷ where_entries dialect fs

  -- `buildConditionValue`
  pub condition : Str → Value → Builder
  condition dialect (object fs) = join_sorted true (where_entries dialect fs)
  condition dialect null = fail
  condition dialect _ = fail

  -- `asConditionList`, with the builder of each condition.
  pub condition_list : Str → Value → Result Error (List Builder)
  condition_list dialect null = ok []
  condition_list dialect (object fs) = ok (join_sorted true (where_entries dialect fs) ∷ [])
  condition_list dialect (list xs) = ok (conditions dialect xs)
  condition_list dialect _ = err invalid_input

  pub conditions : Str → Items → List Builder
  conditions dialect nil = []
  conditions dialect (cons x xs) = condition dialect x ∷ conditions dialect xs

-- `buildWhereMap`
unfoldable pub build_where_map : Str → Fields → Builder
unfolding where_entries join_sorted where_part field_ops
build_where_map dialect fs = join_sorted true (where_entries dialect fs)

abbrev where_text : Part → Part
where_text p = if is_empty p.sql then p else record p { sql = str " WHERE " ++ p.sql }

-- `whereClause`
unfoldable pub where_clause : Str → Fields → Builder
unfolding build_where_map
where_clause dialect end start = part (str "") [] start
where_clause dialect (field k v fs) start = do
  p ← build_where_map dialect (field k v fs) start
  ok (where_text p)

-- ===== src/Orm/Query/Texts.antt =====
-- The texts that stand beside the where clause in a statement are safe.
use mathlib.Core.Path.{subst}
use mathlib.Core.Bool.{and-eq-true_iff}
use elgon.Base.{
  suc, ◌≡◌, refl, ap, Bool, true, false, List, [], ◌∷◌, ◌++◌, length, All, All-append, Bool-cases,
  inl, inr, if◌then◌else◌,
}
use elgon.Base.Text.{Str, str, str_eq, trim_space, join}
use elgon.Base.Result.{ok, >>=-eq-ok}
use elgon.Orm.Value.{Value, Fields, end, field, valid_identifier, valid_identifier-all, sort_keys}
use elgon.Orm.Template.{is_sql_char}
use elgon.Orm.Expr.Sound.{IsSafeText}
use elgon.Orm.Where.Sound.{identifier-IsSafeText}
use elgon.Orm.Query.{
  Columns, OrderBy, entries_of, valid_columns, normalized_values, select_columns_from,
  select_columns, build_returning_clause, returning_text, order_parts, order_text,
}

pub safe-append : (s t : Str) → IsSafeText s → IsSafeText t → IsSafeText (s ++ t)
safe-append [] t hs ht = ht
safe-append (c ∷ s) t hs ht =
    let (here, later) = (and-eq-true_iff _ _).0 hs in
    (and-eq-true_iff _ _).1 (here, safe-append s t later ht)

pub safe-join :
    (sep : Str) (ss : List Str) → IsSafeText sep → All IsSafeText ss → IsSafeText (join sep ss)
unfolding join
safe-join sep [] h hs = refl
safe-join sep (s ∷ []) h hs = hs.0
safe-join sep (s ∷ t ∷ ss) h hs =
    safe-append s _ hs.0 (safe-append sep _ h (safe-join sep (t ∷ ss) h hs.1))

pub safe_identifier : (name s : Str) → valid_identifier name ≡ ok s → IsSafeText s
safe_identifier name s h = identifier-IsSafeText s (valid_identifier-all name s h)

-- The columns are safe, and there is a value for each.
abbrev pub CountedColumns : Columns → Type 0
CountedColumns c = All IsSafeText c.cols × (length c.cols ≡ length c.args)

valid_columns-safe :
    (es : List (Str × Value)) (c : Columns) → valid_columns es ≡ ok c → CountedColumns c
unfolding valid_columns
valid_columns-safe [] c h =
    let q : record { cols = []; args = [] } ≡ c = cc in subst CountedColumns q (tt, refl)
valid_columns-safe ((k, v) ∷ es) c h =
    let (col, valid, later) = >>=-eq-ok (valid_identifier k) _ h in
    let (rest, ran, done) = >>=-eq-ok (valid_columns es) _ later in
    let q : record { cols = col ∷ rest.cols; args = v ∷ rest.args } ≡ c = cc in
    let (safe, same) = valid_columns-safe es rest ran in
    subst CountedColumns q ((safe_identifier k col valid, safe), ap suc same)

pub normalized_values-safe :
    (fs : Fields) (c : Columns) → normalized_values fs ≡ ok c → CountedColumns c
unfolding normalized_values
normalized_values-safe end c h = cc
normalized_values-safe (field k v fs) c h =
    valid_columns-safe (sort_keys (entries_of (field k v fs))) c h

select_columns_from-safe :
    (accepted cs : List Str) (s : Str)
    → All IsSafeText accepted
    → select_columns_from accepted cs ≡ ok s
    → IsSafeText s
unfolding select_columns_from is_sql_char
select_columns_from-safe accepted [] s hs h =
    let q : join (str ", ") accepted ≡ s = cc in
    subst IsSafeText q (safe-join (str ", ") accepted refl hs)
select_columns_from-safe accepted (c ∷ cs) s hs h =
    elim (Bool-cases (str_eq (trim_space c) (str "*"))) [
      | inl star ↦
          let found : ok (str "*") ≡ ok s = rw star at h in
          let q : str "*" ≡ s = cc in subst IsSafeText q refl
      | inr name ↦
          let (v, valid, later) = >>=-eq-ok (valid_identifier (trim_space c)) _ (rw name at h) in
          select_columns_from-safe (accepted ++ v ∷ []) cs s
            (All-append IsSafeText accepted _ hs (safe_identifier (trim_space c) v valid, tt)) later
    ]

pub select_columns-safe : (cs : List Str) (s : Str) → select_columns cs ≡ ok s → IsSafeText s
unfolding select_columns is_sql_char
select_columns-safe [] s h = let q : str "*" ≡ s = cc in subst IsSafeText q refl
select_columns-safe (c ∷ cs) s h = select_columns_from-safe [] (c ∷ cs) s tt h

pub returning_text-safe :
    (wanted : Bool) (cs : List Str) (s : Str) → returning_text wanted cs ≡ ok s → IsSafeText s
unfolding build_returning_clause is_sql_char
returning_text-safe false cs s h = let q : str "" ≡ s = cc in subst IsSafeText q refl
returning_text-safe true cs s h =
    let (cols, ran, done) = >>=-eq-ok (select_columns cs) _ h in
    let q : str " RETURNING " ++ cols ≡ s = cc in
    subst IsSafeText q (safe-append (str " RETURNING ") cols refl (select_columns-safe cs cols ran))

direction-safe :
    (desc : Bool) (col : Str)
    → IsSafeText col
    → IsSafeText (if desc then col ++ str " DESC" else col ++ str " ASC")
unfolding is_sql_char
direction-safe true col h = safe-append col (str " DESC") h refl
direction-safe false col h = safe-append col (str " ASC") h refl

order_parts-safe : (os : List OrderBy) (ss : List Str) → order_parts os ≡ ok ss → All IsSafeText ss
unfolding order_parts
order_parts-safe [] ss h = let q : [] ≡ ss = cc in subst (All IsSafeText) q tt
order_parts-safe (o ∷ os) ss h =
    let (col, valid, later) = >>=-eq-ok (valid_identifier o.column) _ h in
    let (rest, ran, done) = >>=-eq-ok (order_parts os) _ later in
    let part = if o.desc then col ++ str " DESC" else col ++ str " ASC" in
    let q : part ∷ rest ≡ ss = cc in
    let safe = direction-safe o.desc col (safe_identifier o.column col valid) in
    subst (All IsSafeText) q (safe, order_parts-safe os rest ran)

pub order_text-safe : (os : List OrderBy) (s : Str) → order_text os ≡ ok s → IsSafeText s
unfolding order_text is_sql_char
order_text-safe [] s h = let q : str "" ≡ s = cc in subst IsSafeText q refl
order_text-safe (o ∷ os) s h =
    let (parts, ran, done) = >>=-eq-ok (order_parts (o ∷ os)) _ h in
    let q : str " ORDER BY " ++ join (str ", ") parts ≡ s = cc in
    subst IsSafeText q (
      safe-append (str " ORDER BY ") (join (str ", ") parts) refl
        (safe-join (str ", ") parts refl (order_parts-safe (o ∷ os) parts ran)))

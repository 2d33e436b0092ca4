-- ===== src/Orm/Table/Laws.antt =====
-- What the repository's operations guarantee.
use elgon.Base.{ℕ, ◌≡◌, refl, ap, ◌∙◌, Option, none, some, List, [], ◌∷◌, map, Bool-cases, inl, inr}
use elgon.Base.Text.{Str, str_eq}
use elgon.Base.Dict
use elgon.Base.Result.{Result, ok, err}
use elgon.Orm.Value.{Value, Fields, end, field, Error}
use elgon.Orm.Query.{entries_of}
use elgon.Orm.Records.{Record, put_all, apply_patch, merged_entries, merge_create_and_where}
use elgon.Orm.Table.{
  Database, after, unique_of, unique_options, find_many, find_unique, create, update_if_any,
}

-- The first value, and where there is none the second.
abbrev pub or_else : Option Value → Option Value → Option Value
or_else none w = w
or_else (some v) w = some v

or_else-none : (o : Option Value) → or_else o none ≡ o
or_else-none none = refl
or_else-none (some v) = refl

lookup-put_all :
    (j : Str) (es : List (Str × Value)) (row : Record)
    → Dict.lookup j (put_all es row) ≡ or_else (Dict.lookup j es) (Dict.lookup j row)
unfolding put_all Dict.lookup
lookup-put_all j [] row = refl
lookup-put_all j ((k, v) ∷ es) row = elim (Bool-cases (str_eq k j)) [
  | inl same ↦ rw (Dict.lookup-insert k j v (put_all es row), same)
  | inr other ↦ rw (Dict.lookup-insert k j v (put_all es row), other) (lookup-put_all j es row)
]

-- The values that an upsert creates a row from: those to create, and for the columns that they lack
-- those of the where map.
pub lookup-merged_entries :
    (j : Str) (create_values w : Fields)
    → Dict.lookup j (merged_entries create_values w)
      ≡ or_else (Dict.lookup j (entries_of create_values)) (Dict.lookup j (entries_of w))
unfolding merged_entries
lookup-merged_entries j create_values w =
    lookup-put_all j (entries_of create_values) (put_all (entries_of w) [])
    ∙ ap (or_else (Dict.lookup j (entries_of create_values))) (
        lookup-put_all j (entries_of w) []
        ∙ unfold Dict.lookup in or_else-none (Dict.lookup j (entries_of w)))

-- A patch is applied to each record, in their order: a column has the value of the patch, and where
-- the patch lacks it the value of the record.
pub lookup-apply_patch :
    (j : Str) (patch : Fields) (rows : List Record)
    → map (Dict.lookup j) (apply_patch rows patch)
      ≡ map (λ row. or_else (Dict.lookup j (entries_of patch)) (Dict.lookup j row)) rows
unfolding apply_patch
lookup-apply_patch j patch [] = refl
lookup-apply_patch j patch (row ∷ rows) =
    rw (lookup-put_all j (entries_of patch) row, lookup-apply_patch j patch rows) refl

after-eq-ok :
    {S A B : Type 0} (m : Result Error A × S) (next : A → S → Result Error B × S) {b : B} {s' : S}
    → after m next ≡ (ok b, s')
    → (a : A) × (s1 : S) × (m ≡ (ok a, s1)) × (next a s1 ≡ (ok b, s'))
after-eq-ok (err e, s) next q = let h = ap (λ t. t.0) q in cc
after-eq-ok (ok a, s) next q = (a, s, refl, q)

unique_of-eq-some : (rs : List Record) {r : Record} → unique_of rs ≡ ok (some r) → rs ≡ r ∷ []
unique_of-eq-some [] q = cc
unique_of-eq-some (x ∷ []) q = cc
unique_of-eq-some (x ∷ y ∷ rs) q = cc

module _ (d : Database) (dialect name : Str) where
  open d use {Db}

  -- The search of `FindUnique` gives this record and no other.
  abbrev pub IsUnique : Fields → List Str → Record → Db → Db → Type 0
  IsUnique w columns r s s' =
      find_many d dialect name (unique_options w columns) s ≡ (ok (r ∷ []), s')

  -- `FindUnique` returns a record only if it is the one that the search gives, with no second one.
  pub find_unique-IsUnique :
      (w : Fields) (columns : List Str) (r : Record) (s s' : Db)
      → find_unique d dialect name w columns s ≡ (ok (some r), s')
      → IsUnique w columns r s s'
  unfolding find_unique
  find_unique-IsUnique end columns r s s' q = let h = ap (λ t. t.0) q in cc
  find_unique-IsUnique (field k v fs) columns r s s' q =
      let (rs, s1, found, last) =
        after-eq-ok (find_many d dialect name (unique_options (field k v fs) columns) s) _ q in
      let only : rs ≡ r ∷ [] = unique_of-eq-some rs (ap (λ t. t.0) last) in
      let state : s1 ≡ s' = ap (λ t. t.1) last in rw (← only, ← state) found

  -- What `Upsert` writes behind a search that found nothing, or a record, from one state to another.
  abbrev pub Written : Fields → Fields → Fields → Option Record → Db → Db → Type 0
  Written w create_values update none s s' =
      (res : Result Error ℕ) × (create d dialect name (merge_create_and_where create_values w) s
        ≡ (ok res, s'))
  Written w create_values update (some x) s s' =
      (affected : ℕ) × (update_if_any d dialect name w update s ≡ (ok affected, s'))

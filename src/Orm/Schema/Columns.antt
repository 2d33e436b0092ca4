-- ===== src/Orm/Schema/Columns.antt =====
-- What the statement that creates a table holds.
use mathlib.Core.Path.{subst}
use elgon.Base.{
  ◌≡◌, ◌≢◌, refl, sym, ◌∙◌, true, false, not, ◌||◌, List, [], ◌∷◌, ◌++◌, Bool-cases, inl, inr,
}
use elgon.Base.Text.{Str, str, str_eq, trim_space, join}
use elgon.Base.Result.{ok, err, ◌>>=◌, >>=-eq-ok, ok_inj}
use elgon.Orm.Value.{invalid_input, is_identifier, valid_identifier}
use elgon.Orm.Schema.{
  GoType, StructField, SchemaFieldOptions, schema_field_tag_raw, parse_schema_field_tag,
}
use elgon.Orm.Schema.Sql.{
  Unicode, constraints, generated_parts, is_integer_type, normalize_dialect, infer_sql_type,
  build_column_def, column_or, field_column, columns,
}

pub valid_identifier-is : (name s : Str) → valid_identifier name ≡ ok s → is_identifier s ≡ true
unfolding valid_identifier
valid_identifier-is name s h = elim (Bool-cases (is_identifier (trim_space name))) [
  | inl e ↦
      let q : ok (trim_space name) ≡ ok s = rw e at h in
      let same : trim_space name ≡ s = cc in rw (← same) e
  | inr e ↦ let q : err invalid_input ≡ ok s = rw e at h in cc
]

join-first :
    (sep first : Str) (parts : List Str)
    → parts ≢ []
    → join sep (first ∷ parts) ≡ first ++ (sep ++ join sep parts)
unfolding join
join-first sep first [] h = absurd (h refl)
join-first sep first (p ∷ ps) h = refl

generated_parts-ne-nil :
    (column sql : Str) (opts : SchemaFieldOptions) (dialect : Str)
    → generated_parts column sql opts dialect ≢ []
generated_parts-ne-nil column sql opts dialect =
    elim (Bool-cases (str_eq dialect (str "sqlite") || str_eq dialect (str "sqlite3"))) [
      | inl sqlite ↦ rw sqlite (λ q. cc)
      | inr other ↦
          elim (Bool-cases (str_eq dialect (str "postgres") || str_eq dialect (str "pg"))) [
            | inl postgres ↦ rw (other, postgres) (λ q. cc)
            | inr third ↦ rw (other, third) (λ q. cc)
          ]
    ]

-- The definition of a column starts with its name.
build_column_def-parts :
    (column sql : Str) (base : GoType) (opts : SchemaFieldOptions) (dialect out : Str)
    → build_column_def column sql base opts dialect ≡ ok out
    → (rest : Str) × (out ≡ column ++ (str " " ++ rest))
unfolding build_column_def
build_column_def-parts column sql base opts dialect out h = elim (Bool-cases opts.auto_increment) [
  | inr given ↦
      let parts = sql ∷ constraints opts false in
      let h' : ok (join (str " ") (column ∷ parts)) ≡ ok out = rw given at h in
      (join (str " ") parts, sym (ok_inj h') ∙ join-first (str " ") column parts (λ q. cc))
  | inl generated ↦ elim (Bool-cases (is_integer_type base)) [
    | inr bad ↦ let h' = rw (generated, bad) at h in cc
    | inl good ↦
        let parts = generated_parts column sql opts (normalize_dialect dialect) in
        let h' : ok (join (str " ") (column ∷ parts)) ≡ ok out = rw (generated, good) at h in
        (
          join (str " ") parts,
          sym (ok_inj h')
              ∙ join-first (str " ") column parts
                  (generated_parts-ne-nil column sql opts (normalize_dialect dialect)),
        )
  ]
]

module _ (u : Unicode) (dialect : Str) where
  -- The columns of the fields: none for a field that is not exported, is embedded or is skipped by
  -- its tag, and one for each other field, in order, whose definition starts with a valid name: that
  -- of the tag, or else that of the field in snake case.
  pub data ColumnsOf : List StructField → List Str → Type 0 where
    no_fields : ColumnsOf [] []
    hidden :
        {fs : List StructField} {cols : List Str} (f : StructField)
        → (not f.exported || f.anonymous) ≡ true
        → ColumnsOf fs cols
        → ColumnsOf (f ∷ fs) cols
    skipped :
        {fs : List StructField} {cols : List Str} (f : StructField) (opts : SchemaFieldOptions)
        → parse_schema_field_tag (schema_field_tag_raw f) ≡ ok opts
        → opts.skip ≡ true
        → ColumnsOf fs cols
        → ColumnsOf (f ∷ fs) cols
    column :
        {fs : List StructField} {cols : List Str} (f : StructField) (opts : SchemaFieldOptions)
        (name rest : Str)
        → parse_schema_field_tag (schema_field_tag_raw f) ≡ ok opts
        → opts.skip ≡ false
        → (not f.exported || f.anonymous) ≡ false
        → valid_identifier (column_or u opts.column f.name) ≡ ok name
        → is_identifier name ≡ true
        → ColumnsOf fs cols
        → ColumnsOf (f ∷ fs) ((name ++ (str " " ++ rest)) ∷ cols)

  -- The column of a field that is migrated.
  IsColumn : StructField → SchemaFieldOptions → Str → Type 0
  IsColumn f opts col =
      (name rest : Str) × (valid_identifier (column_or u opts.column f.name) ≡ ok name)
      × (name ++ (str " " ++ rest) ≡ col)

  field_column-IsColumn :
      (f : StructField) (opts : SchemaFieldOptions) (col : Str)
      → field_column u f opts dialect ≡ ok col
      → IsColumn f opts col
  unfolding field_column IsColumn
  field_column-IsColumn f opts col h =
      let (name, valid, h1) = >>=-eq-ok (valid_identifier (column_or u opts.column f.name)) _ h in
      let (t, inferred, h2) = >>=-eq-ok (infer_sql_type f.go_type opts) _ h1 in
      let (after, e) = build_column_def-parts name t.0 t.1 opts dialect col h2 in
      (name, after, valid, sym e)

  column-ColumnsOf :
      (f : StructField) (opts : SchemaFieldOptions) (col : Str) (fs : List StructField)
      (cols : List Str)
      → parse_schema_field_tag (schema_field_tag_raw f) ≡ ok opts
      → opts.skip ≡ false
      → (not f.exported || f.anonymous) ≡ false
      → IsColumn f opts col
      → ColumnsOf fs cols
      → ColumnsOf (f ∷ fs) (col ∷ cols)
  unfolding IsColumn
  column-ColumnsOf f opts col fs cols parsed keep seen (name, after, valid, e) h =
      subst (λ c. ColumnsOf (f ∷ fs) (c ∷ cols)) e
        (column f opts name after parsed keep seen valid (valid_identifier-is _ name valid) h)

  kept-ColumnsOf :
      (f : StructField) (opts : SchemaFieldOptions) (fs : List StructField) (cols : List Str)
      → parse_schema_field_tag (schema_field_tag_raw f) ≡ ok opts
      → opts.skip ≡ false
      → (not f.exported || f.anonymous) ≡ false
      → (field_column u f opts dialect >>= λ col. columns u fs dialect >>= λ rest. ok (col ∷ rest))
        ≡ ok cols
      → ((rest : List Str) → columns u fs dialect ≡ ok rest → ColumnsOf fs rest)
      → ColumnsOf (f ∷ fs) cols
  kept-ColumnsOf f opts fs cols parsed keep seen h more =
      let (col, built, h1) = >>=-eq-ok (field_column u f opts dialect) _ h in
      let (rest, others, h2) = >>=-eq-ok (columns u fs dialect) _ h1 in
      subst (ColumnsOf (f ∷ fs)) (ok_inj h2) (
        column-ColumnsOf f opts col fs rest parsed keep seen
          (field_column-IsColumn f opts col built) (more rest others))

  pub columns-ColumnsOf :
      (fs : List StructField) (cols : List Str) → columns u fs dialect ≡ ok cols → ColumnsOf fs cols
  unfolding columns
  columns-ColumnsOf [] cols h = subst (ColumnsOf []) (ok_inj h) no_fields
  columns-ColumnsOf (f ∷ fs) cols h = elim (Bool-cases (not f.exported || f.anonymous)) [
    | inl away ↦ hidden f away (columns-ColumnsOf fs cols (rw away at h))
    | inr seen ↦
        let (opts, parsed, h1) =
          >>=-eq-ok (parse_schema_field_tag (schema_field_tag_raw f)) _ (rw seen at h) in
        elim (Bool-cases opts.skip) [
          | inl skip ↦ skipped f opts parsed skip (columns-ColumnsOf fs cols (rw skip at h1))
          | inr keep ↦
              kept-ColumnsOf f opts fs cols parsed keep seen (rw keep at h1)
                (λ rest. columns-ColumnsOf fs rest)
        ]
  ]

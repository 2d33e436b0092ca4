-- ===== src/Orm/Records.antt =====
-- orm/table.go: records as maps, their projection and patches, and the rows of a query.
use elgon.Base.{Bool, false, ◌||◌, Option, none, some, List, [], ◌∷◌, ◌++◌, map, if◌then◌else◌}
use elgon.Base.Text.{Str, str, str_eq, trim_space, to_lower}
use elgon.Base.Dict
use elgon.Base.Result.{Result, ok, err, ◌>>=◌}
use elgon.Orm.Value.{Value, Fields, end, field, Error, no_columns, valid_identifier, str_leb}
use elgon.Orm.Query.{entries_of}

-- `Record`
abbrev pub Record : Type 0
Record = List (Str × Value)

-- `hasStar`
unfoldable pub has_star : List Str → Bool
unfolding trim_space str_eq
has_star [] = false
has_star (c ∷ cs) = str_eq (trim_space c) (str "*") || has_star cs

-- The assignments of all entries of a map, which Go makes in any order.
unfoldable pub put_all : List (Str × Value) → Record → Record
unfolding Dict.insert
put_all [] row = row
put_all ((k, v) ∷ es) row = Dict.insert k v (put_all es row)

-- `applyPatch`
unfoldable pub apply_patch : List Record → Fields → List Record
unfolding put_all
apply_patch rows patch = map (put_all (entries_of patch)) rows

abbrev fields_of : List (Str × Value) → Fields
fields_of [] = end
fields_of ((k, v) ∷ es) = field k v (fields_of es)

-- `mergeCreateAndWhere`, as a map.
unfoldable pub merged_entries : Fields → Fields → List (Str × Value)
unfolding put_all
merged_entries create_values w = put_all (entries_of create_values) (put_all (entries_of w) [])

unfoldable pub merge_create_and_where : Fields → Fields → Fields
unfolding merged_entries
merge_create_and_where create_values w = fields_of (merged_entries create_values w)

unfoldable pub insert_text : Str → List Str → List Str
unfolding str_leb
insert_text s [] = s ∷ []
insert_text s (t ∷ ts) = if str_leb s t then s ∷ t ∷ ts else t ∷ insert_text s ts

unfoldable pub sort_texts : List Str → List Str
unfolding insert_text
sort_texts [] = []
sort_texts (s ∷ ts) = insert_text s (sort_texts ts)

-- The keys of the second map that the first one lacks.
unfoldable pub new_keys : List (Str × Value) → List (Str × Value) → List Str
unfolding Dict.lookup
new_keys seen [] = []
new_keys seen ((k, v) ∷ es) =
    let later = new_keys seen es in elim (Dict.lookup k seen) [ some w ↦ later | none ↦ k ∷ later ]

-- `columnHints`
unfoldable pub column_hints : Fields → Fields → List Str
unfolding new_keys sort_texts
column_hints w patch =
    sort_texts (map (λ e. e.0) (entries_of w) ++ new_keys (entries_of w) (entries_of patch))

abbrev put_found : Str → Option Value → Record → Record
put_found col none next = next
put_found col (some v) next = Dict.insert col v next

-- The loop of `projectRecords` over the columns.
unfoldable pub project_record : List Str → Record → Record → Result Error Record
unfolding valid_identifier Dict.lookup Dict.insert
project_record [] row next = ok next
project_record (c ∷ cs) row next = do
  col ← valid_identifier c
  project_record cs row (put_found col (Dict.lookup col row) next)

unfoldable pub project_each : List Str → List Record → Result Error (List Record)
unfolding project_record
project_each columns [] = ok []
project_each columns (row ∷ rows) = do
  next ← project_record columns row []
  rest ← project_each columns rows
  ok (next ∷ rest)

-- `projectRecords`
unfoldable pub project_records : List Record → List Str → Result Error (List Record)
unfolding has_star project_each
project_records rows [] = ok rows
project_records rows (c ∷ cs) = if has_star (c ∷ cs) then ok rows else project_each (c ∷ cs) rows

-- `supportsReturning`
unfoldable pub supports_returning : Str → Bool
unfolding trim_space to_lower str_eq
supports_returning dialect =
    let d = to_lower (trim_space dialect) in
    str_eq d (str "postgres")
    || str_eq d (str "pg")
    || str_eq d (str "sqlite")
    || str_eq d (str "sqlite3")

-- The rows of a query: `Columns`, if the type has it, then what `Scan` gives for each row that
-- `Next` finds, with bytes as text already, and `Err`.
pub record Rows : Type 0 where
  pub columns : Option (Result Error (List Str))
  pub scans : List (Result Error (List Value))
  pub failure : Option Error

-- `record[cols[i]] = values[i]` for each column; a later column of the same name overwrites.
unfoldable pub record_of : List Str → List Value → Record → Record
unfolding Dict.insert
record_of [] vs row = row
record_of (c ∷ cs) [] row = row
record_of (c ∷ cs) (v ∷ vs) row = record_of cs vs (Dict.insert c v row)

-- The loop of `scanRecords`.
unfoldable pub scan_each :
    List Str → List (Result Error (List Value)) → Option Error → Result Error (List Record)
unfolding record_of
scan_each cols [] none = ok []
scan_each cols [] (some e) = err e
scan_each cols (scan ∷ scans) failure = do
  vs ← scan
  rest ← scan_each cols scans failure
  ok (record_of cols vs [] ∷ rest)

abbrev scan_columns : Option (Result Error (List Str)) → List Str → Result Error (List Str)
scan_columns (some cols) hint = cols
scan_columns none [] = err no_columns
scan_columns none (c ∷ cs) = if has_star (c ∷ cs) then err no_columns else ok (c ∷ cs)

-- `scanRecords`, with no records beside an error.
unfoldable pub scan_records : Rows → List Str → Result Error (List Record)
unfolding has_star scan_each
scan_records rows hint = do
  cols ← scan_columns rows.columns hint
  scan_each cols rows.scans rows.failure

-- ===== src/Migrate/Models/Generate.antt =====
-- migrate/generate.go: migrations from model files. The file system, random numbers and the clock are
-- parameters.
use elgon.Base.{
  ℕ, zero, suc, Bool, not, ◌&&◌, ◌||◌, Option, none, some, List, [], ◌∷◌, ◌++◌, map, if◌then◌else◌,
}
use mathlib.Core.List.{reverse}
use elgon.Base.Text.{Str, str, str_eq, split, join, trim_space}
use elgon.Base.Dict
use elgon.Base.Result.{Result, ok, err, ◌>>=◌}
use elgon.Orm.Value.{Error, str_leb}
use elgon.Orm.Schema.{StructField}
use elgon.Orm.Schema.Sql.{Unicode, struct, build_create_table_sql}
use elgon.Migrate.Names.{file_name, normalize_name}
use elgon.Migrate.Models.{
  TypeSpec, ImportSpec, File, ModelEntity, ModelError, not_unquoted, not_parsed,
  parse_struct_table_name, build_reflect_fields,
}

abbrev last_part : List Str → Str
last_part [] = []
last_part (p ∷ []) = p
last_part (p ∷ q ∷ ps) = last_part (q ∷ ps)

abbrev import_name : Str → Option Str → Str
import_name path none = last_part (split b'/' path)
import_name path (some alias) =
    if str_eq alias (str "_") || str_eq alias (str ".") || str_eq alias (str "")
    then last_part (split b'/' path)
    else alias

-- The map from the names of packages to their paths.
unfoldable pub imports_from :
    List ImportSpec → List (Str × Str) → Result ModelError (List (Str × Str))
unfolding split str_eq Dict.insert
imports_from [] known = ok known
imports_from (i ∷ is) known = elim i.path [
  | none ↦ err not_unquoted
  | some path ↦ imports_from is (Dict.insert (import_name path i.alias) path known)
]

-- `sort.SliceStable` by table: an entity goes before those that are not less, which came after it.
unfoldable pub insert_entity : ModelEntity → List ModelEntity → List ModelEntity
unfolding str_leb
insert_entity e [] = e ∷ []
insert_entity e (x ∷ xs) =
    let rest = insert_entity e xs in if str_leb e.table x.table then e ∷ x ∷ xs else x ∷ rest

unfoldable pub sort_entities : List ModelEntity → List ModelEntity
unfolding insert_entity
sort_entities [] = []
sort_entities (e ∷ es) = insert_entity e (sort_entities es)

abbrev add_entity : Str → List StructField → List ModelEntity → List ModelEntity
add_entity table [] rest = rest
add_entity table (f ∷ fs) rest = record { table = table; value = f ∷ fs } ∷ rest

-- The entities of the types of a file: exported structs with at least one field.
unfoldable pub entities_of : List (Str × Str) → List TypeSpec → Result ModelError (List ModelEntity)
unfolding parse_struct_table_name build_reflect_fields
entities_of imports [] = ok []
entities_of imports (t ∷ ts) =
    let rest = entities_of imports ts in
    if not t.is_exported then rest else elim t.fields [
      | none ↦ rest
      | some fields ↦ parse_struct_table_name fields t.type_name >>= λ table.
          build_reflect_fields imports fields >>= λ value.
          rest >>= λ others. ok (add_entity table value others)
    ]

-- `parseModelEntitiesFromFile`; a file that the Go parser refuses is `none`.
unfoldable pub parse_model_entities_from_file : Option File → Result ModelError (List ModelEntity)
unfolding imports_from entities_of sort_entities
parse_model_entities_from_file none = err not_parsed
parse_model_entities_from_file (some file) = imports_from file.imports [] >>= λ imports.
    entities_of imports file.types >>= λ entities. ok (sort_entities entities)

unfoldable pub entities_of_files : List (Option File) → Result ModelError (List ModelEntity)
unfolding parse_model_entities_from_file
entities_of_files [] = ok []
entities_of_files (f ∷ fs) = parse_model_entities_from_file f >>= λ here.
    entities_of_files fs >>= λ others. ok (here ++ others)

-- `parseModelEntities`
unfoldable pub parse_model_entities : List (Option File) → Result ModelError (List ModelEntity)
unfolding entities_of_files sort_entities
parse_model_entities files = entities_of_files files >>= λ all. ok (sort_entities all)

-- The statements that create the tables, and those that drop them, in the opposite order.
unfoldable pub up_lines : Unicode → Str → List ModelEntity → Result Error (List Str)
unfolding build_create_table_sql
up_lines u dialect [] = ok []
up_lines u dialect (e ∷ es) =
    build_create_table_sql u (struct [] e.value none none) dialect e.table >>= λ stmt.
    up_lines u dialect es >>= λ rest. ok ((stmt ++ str ";") ∷ rest)

abbrev drop_line : ModelEntity → Str
drop_line e = str "DROP TABLE IF EXISTS " ++ (e.table ++ str ";")

unfoldable pub down_lines : List ModelEntity → List Str
down_lines entities = map drop_line (reverse entities)

-- `GeneratedMigration`
pub record GeneratedMigration : Type 0 where
  pub version : ℕ
  pub name : Str
  pub up_path : Str
  pub down_path : Str
  pub up_sql : Str
  pub down_sql : Str

-- What the code uses of packages `os`, `filepath` and `crypto/rand`: `absent` is `os.Stat` with
-- `os.IsNotExist`, and `random_token` is nothing if no bytes can be read.
pub record Files : Type 1 where
  pub State : Type 0
  pub Failure : Type 0
  pub mkdir_all : Str → State → Option Failure × State
  pub absent : Str → State → Bool
  pub write_file : Str → Str → State → Option Failure × State
  pub remove : Str → State → State
  pub join_path : Str → Str → Str
  pub random_token : State → Option Str × State

pub data GenerateError (F : Type 0) : Type 0 where
  no_model_files no_structs no_unique_name no_random : GenerateError F
  bad_model : ModelError → GenerateError F
  bad_schema : Error → GenerateError F
  file_system : F → GenerateError F

module _ (fs : Files) where
  open fs use {State, Failure, mkdir_all, absent, write_file, remove, join_path, random_token}

  -- The loop that looks for a name: the suffix that it finds.
  unfoldable pub allocate :
      (tries version : ℕ) → (dir name : Str) → State → Result (GenerateError Failure) Str × State
  unfolding file_name
  allocate zero version dir name s = (err no_unique_name, s)
  allocate (suc tries) version dir name s =
      let (token, s') = random_token s in
      let rest = allocate tries version dir name s' in
      elim token [
        | none ↦ (err no_random, s')
        | some suffix ↦
            if absent (join_path dir (file_name version name suffix (str "up"))) s'
              && absent (join_path dir (file_name version name suffix (str "down"))) s'
            then (ok suffix, s')
            else rest
      ]

  -- The two files: the first one is removed if the second one cannot be written.
  unfoldable pub write_pair :
      GeneratedMigration → State → Result (GenerateError Failure) GeneratedMigration × State
  write_pair m s =
      let (up_failed, s1) = write_file m.up_path m.up_sql s in
      let (down_failed, s2) = write_file m.down_path m.down_sql s1 in
      elim up_failed [
        | some f ↦ (err (file_system f), s1)
        | none ↦ elim down_failed [
          | some f ↦ (err (file_system f), remove m.up_path s2)
          | none ↦ (ok m, s2)
        ]
      ]

  abbrev generated : ℕ → (dir name suffix up down : Str) → GeneratedMigration
  generated version dir name suffix up down = record {
    version = version;
    name = normalize_name name ++ (str "_" ++ suffix);
    up_path = join_path dir (file_name version name suffix (str "up"));
    down_path = join_path dir (file_name version name suffix (str "down"));
    up_sql = up;
    down_sql = down;
  }

  abbrev lines : List Str → Str
  lines ls = join (str "\n") ls ++ str "\n"

  abbrev allocated :
      ℕ
      → (dir name up down : Str) → State
      → Result (GenerateError Failure) GeneratedMigration × State
  allocated version dir name up down s =
      let (found, s') = allocate 16 version dir name s in
      elim found [
        | err e ↦ (err e, s')
        | ok suffix ↦ write_pair (generated version dir name suffix up down) s'
      ]

  abbrev statements :
      Unicode → Str → List (Option File) → Result (GenerateError Failure) (Str × Str)
  statements u dialect files = elim (parse_model_entities files) [
    | err e ↦ err (bad_model e)
    | ok [] ↦ err no_structs
    | ok (e ∷ es) ↦ elim (up_lines u dialect (e ∷ es)) [
      | err f ↦ err (bad_schema f)
      | ok ups ↦ ok (lines ups, lines (down_lines (e ∷ es)))
    ]
  ]

  abbrev or_migrations : Str → Str
  or_migrations dir = if str_eq (trim_space dir) (str "") then str "migrations" else dir

  -- `GenerateFromModelFiles`, at the version that the clock gives.
  unfoldable pub generate_from_model_files :
      Unicode
      → ℕ
      → (dir dialect name : Str) → List (Option File)
      → State
      → Result (GenerateError Failure) GeneratedMigration × State
  unfolding parse_model_entities up_lines down_lines allocate write_pair normalize_name file_name
      join trim_space str_eq
  generate_from_model_files u version dir dialect name [] s = (err no_model_files, s)
  generate_from_model_files u version dir dialect name (f ∷ files) s =
      let (failed, s1) = mkdir_all (or_migrations dir) s in
      elim failed [
        | some e ↦ (err (file_system e), s1)
        | none ↦ elim (statements u dialect (f ∷ files)) [
          | err e ↦ (err e, s1)
          | ok (up, down) ↦ allocated version (or_migrations dir) name up down s1
        ]
      ]

-- ===== src/OpenApi/Tests.antt =====
-- Documents of concrete programs, and the theorems about them at such.
use elgon.Base.{ℕ, zero, suc, ◌≡◌, refl, inr, true, Option, none, some, List, [], ◌∷◌, map, arith}
use elgon.Base.Int.{ℤ}
use elgon.Base.Text.{Str, str, str_eq, join}
use elgon.App.{RouteInfo}
use elgon.Path.{parse_segments}
use elgon.OpenApi.Schema.{
  integer, text, GoType, basic, array, pointer, struct, StructField, Program, Json, json_field_name,
}
use elgon.OpenApi.Build.{build_schema}
use elgon.OpenApi.Build.Closed.{Valid}
use elgon.OpenApi.Build.Depth.{depth, Ranked}
use elgon.OpenApi.Build.Endless.{Holds, build_schema-diverges}
use elgon.OpenApi.Paths.{to_openapi_path, path_params}
use elgon.OpenApi.Paths.Laws.{names_of, path_params-names}
use elgon.OpenApi.Generator.{
  Operation, no_operation, Generator, Document, new_generator, add_operation,
}
use elgon.OpenApi.Document.{register_schema, build}
use elgon.OpenApi.Document.Reach.{Made, created, described, registered, Made-Valid}
use elgon.OpenApi.Document.Returns.{Modelled, Within}
use elgon.OpenApi.Document.Complete.{Describes, build-Describes}

abbrev field : Str → GoType → Str → StructField
field name t tag = record {
  name = name;
  exported = true;
  go_type = t;
  json_tag = tag;
  description_tag = [];
  example_tag = [];
  openapi_tag = [];
}

-- A user has an address.
abbrev shop : Program
shop = record {
  struct_name = λ id. elim id [ zero ↦ str "User" | suc n ↦ str "Address" ];
  fields = λ id. elim id [
    | zero ↦
        field (str "ID") (basic integer (str "int")) (str "id")
        ∷ field (str "Home") (pointer (struct 1)) (str "home,omitempty")
        ∷ []
    | suc n ↦ field (str "City") (basic text (str "string")) [] ∷ []
  ];
}

abbrev shop_rank : ℕ → ℕ
shop_rank id = elim id [ zero ↦ 2 | suc n ↦ 1 ]

abbrev no_float : Str → Option ℕ
no_float s = none

abbrev no_json : Str → Option Json
no_json s = none

abbrev ok_text : ℤ → Str
ok_text n = str "OK"

shop-Ranked : Ranked shop no_float no_json shop_rank
unfolding Ranked depth
shop-Ranked zero = (inr (omega arith), (inr (omega arith), tt))
shop-Ranked (suc n) = (inr (omega arith), tt)

abbrev show_user : Operation
show_user = record no_operation { requires_auth = true; response_model = some (pointer (struct 0)) }

abbrev generator : Generator
generator = add_operation (str "GET") (str "/users/:id") show_user (new_generator [] [])

abbrev shop_routes : List RouteInfo
shop_routes = record { method = str "GET"; path = str "/users/:id" } ∷ []

generator-Made : Made shop no_float no_json ok_text generator
generator-Made = described (str "GET") (str "/users/:id") show_user (created [] [])

build-Describes_example :
    (d : Document) × (h : Generator) × (build shop no_float no_json ok_text 3 shop_routes generator
      ≡ some (d, h))
    × Describes shop no_float no_json ok_text generator shop_routes d
unfolding Modelled Within depth add_operation new_generator
build-Describes_example =
    build-Describes shop no_float no_json ok_text shop_rank 3 shop_routes generator shop-Ranked
      ((tt, omega arith), tt) generator-Made

-- A generator with the schema of a user under a name of its own.
abbrev or_generator : Option Generator → Generator
or_generator none = generator
or_generator (some g) = g

unfoldable customers : Generator
unfolding register_schema
customers =
    or_generator
      (register_schema shop no_float no_json ok_text 3 (str "Customer") (some (struct 0)) generator)

Made-Valid_example : Valid customers.schemas
unfolding customers register_schema add_operation new_generator
Made-Valid_example =
    Made-Valid shop no_float no_json ok_text customers
      (registered 3 (str "Customer") (some (struct 0)) generator-Made refl)

-- A node has nodes.
abbrev tree : Program
tree = record {
  struct_name = λ id. str "Node";
  fields = λ id.
      field (str "Name") (basic text (str "string")) []
      ∷ field (str "Children") (array [] (struct id)) []
      ∷ [];
}

build_schema-diverges_example :
    build_schema tree no_float no_json 1000 (pointer (struct 0)) [] ≡ none
unfolding Holds str_eq json_field_name
build_schema-diverges_example =
    build_schema-diverges tree no_float no_json 0
      (field (str "Name") (basic text (str "string")) [] ∷ []) []
      (field (str "Children") (array [] (struct 0)) []) refl refl refl 1000 (pointer (struct 0)) []
      refl

path_params-names_example :
    map (λ q. q.name) (path_params (to_openapi_path (str "/u/:id/*f"))) ≡ str "id" ∷ str "f" ∷ []
unfolding names_of parse_segments join
path_params-names_example =
    path_params-names (str "u" ∷ str ":id" ∷ str "*f" ∷ [])
      (
        ((λ q. cc), (refl, tt)),
        (((λ q. cc), (refl, (refl, (refl, tt)))), (((λ q. cc), (refl, (refl, tt))), tt)),
      )
      (((λ q. ground arith), (λ q. ground arith)), ((λ q. ground arith), ((λ q. ground arith), tt)))

-- A parameter without a name and a literal in braces: the document names parameters that the router
-- does not bind.
path_params_nameless :
    map (λ q. q.name) (path_params (to_openapi_path (str "/a/:/{b}"))) ≡ [] ∷ str "b" ∷ []
unfolding path_params to_openapi_path
path_params_nameless = refl

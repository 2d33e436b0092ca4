-- ===== src/OpenApi/Generator.antt =====
-- openapi/openapi.go: the generator with its operations by method and path, and what a document holds.
use elgon.Base.{zero, suc, Bool, true, false, Option, none, some, List, [], ◌∷◌, ◌++◌}
use elgon.Base.Int.{ℤ, pos, negsuc}
use elgon.Base.Text.{Str, str, decimal}
use elgon.Base.Dict
use elgon.App.{RouteInfo}
use elgon.OpenApi.Schema.{GoType, Json}
use elgon.OpenApi.Build.{Components}
use elgon.OpenApi.Paths.{key, Parameter}

-- `Operation`: of a model, the type is kept.
pub record Operation : Type 0 where
  pub summary : Str
  pub description : Str
  pub operation_id : Str
  pub tags : List Str
  pub requires_auth : Bool
  pub deprecated : Bool
  pub request_model : Option GoType
  pub response_model : Option GoType
  pub response_code : ℤ
  pub request_example : Option Json
  pub response_example : Option Json

abbrev pub no_operation : Operation
no_operation = record {
  summary = [];
  description = [];
  operation_id = [];
  tags = [];
  requires_auth = false;
  deprecated = false;
  request_model = none;
  response_model = none;
  response_code = pos 0;
  request_example = none;
  response_example = none;
}

-- `Generator`
pub record Generator : Type 0 where
  pub title : Str
  pub version : Str
  pub description : Str
  pub server_urls : List Str
  pub bearer_auth : Bool
  pub opts : List (Str × Operation)
  pub schemas : Components

abbrev pub or_text : Str → Str → Str
or_text default [] = default
or_text default (c ∷ s) = c ∷ s

-- `NewGenerator`
unfoldable pub new_generator : Str → Str → Generator
new_generator title version = record {
  title = or_text (str "elgon API") title;
  version = or_text (str "0.1.0") version;
  description = [];
  server_urls = str "/" ∷ [];
  bearer_auth = false;
  opts = [];
  schemas = [];
}

-- `EnableBearerAuth`
unfoldable pub enable_bearer_auth : Generator → Generator
enable_bearer_auth g = record g { bearer_auth = true }

-- `AddOperation`
unfoldable pub add_operation : Str → Str → Operation → Generator → Generator
unfolding key Dict.insert
add_operation method path op g = record g { opts = Dict.insert (key method path) op g.opts }

-- The value of "application/json": the name that its schema refers to.
pub record Content : Type 0 where
  pub schema_name : Str
  pub example : Option Json

-- The object of an operation in the document; a key that is not set is `none`, `false` or `[]`.
pub record Entry : Type 0 where
  pub summary : Option Str
  pub description : Option Str
  pub operation_id : Option Str
  pub tags : List Str
  pub deprecated : Bool
  pub secured : Bool
  pub parameters : List Parameter
  pub request_body : Option Content
  pub response_code : Str
  pub response_description : Str
  pub response_body : Option Content

-- The entries of methods under the templates of paths: both maps of the code.
abbrev pub Paths : Type 0
Paths = List (Str × List (Str × Entry))

-- What the document says of the generator and the routes.
pub record Document : Type 0 where
  pub title : Str
  pub version : Str
  pub description : Str
  pub servers : List Str
  pub paths : Paths
  pub schemas : Components
  pub bearer_scheme : Bool

abbrev pub set_text : Str → Option Str
set_text [] = none
set_text (c ∷ s) = some (c ∷ s)

-- `%d`
abbrev pub int_text : ℤ → Str
int_text (pos n) = decimal n
int_text (negsuc n) = str "-" ++ decimal (suc n)

abbrev pub code_of : ℤ → ℤ
code_of (pos zero) = pos 200
code_of (pos (suc n)) = pos (suc n)
code_of (negsuc n) = negsuc n

abbrev pub or_operation : Option Operation → Operation
or_operation none = no_operation
or_operation (some op) = op

-- `g.opts[key(r.Method, r.Path)]`
unfoldable pub operation_of : List (Str × Operation) → RouteInfo → Operation
unfolding key Dict.lookup
operation_of opts r = or_operation (Dict.lookup (key r.method r.path) opts)

abbrev pub methods_of : Option (List (Str × Entry)) → List (Str × Entry)
methods_of none = []
methods_of (some m) = m

-- `paths[tpl][method] = entry`, with the map of a template that is new.
unfoldable pub put_entry : Str → Str → Entry → Paths → Paths
unfolding Dict.lookup Dict.insert
put_entry tpl method e paths =
    Dict.insert tpl (Dict.insert method e (methods_of (Dict.lookup tpl paths))) paths

abbrev pub named_content : Option Json → Str → Option Content
named_content example [] = none
named_content example (c ∷ s) = some (record { schema_name = c ∷ s; example = example })

-- The state of the loop over the routes.
pub record Progress : Type 0 where
  pub paths : Paths
  pub schemas : Components
  pub bearer : Bool

abbrev pub servers_of : List Str → List Str
servers_of [] = str "/" ∷ []
servers_of (u ∷ us) = u ∷ us

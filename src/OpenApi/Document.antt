-- ===== src/OpenApi/Document.antt =====
-- openapi/openapi.go: the generator, and the document that it builds of the routes of an application.
-- `http.StatusText` is a parameter, with those of the schemas.
pub mod Closed
pub mod Complete
pub mod Reach
pub mod Returns
use elgon.Base.{
  ℕ, zero, suc, Bool, true, false, ◌||◌, Option, none, some, List, [], ◌∷◌, ◌++◌, if◌then◌else◌,
}
use elgon.Base.Optional.{◌>>=◌}
use elgon.Base.Int.{ℤ, pos, negsuc}
use elgon.Base.Text.{Str, str, str_eq, to_lower, decimal}
use elgon.Base.Dict
use elgon.App.{RouteInfo}
use elgon.OpenApi.Schema.{
  GoType, basic, array, dict, pointer, struct, time, opaque, Program, Json, no_notes, Schema,
  schema, reference,
}
use elgon.OpenApi.Build.{Components, unwrap, has_schema, Built, build_schema}
use elgon.OpenApi.Paths.{key, to_openapi_path, Parameter, path_params}
use elgon.OpenApi.Generator.{
  Operation, no_operation, Generator, or_text, new_generator, enable_bearer_auth, add_operation,
  Content, Entry, Paths, Document, set_text, int_text, code_of, or_operation, operation_of,
  methods_of, put_entry, named_content, Progress, servers_of,
}

module _ (p : Program) (parse_float : Str → Option ℕ) (parse_json : Str → Option Json)
    (status_text : ℤ → Str) where
  -- `t.Name()`
  abbrev pub type_name : GoType → Str
  type_name (basic b name) = name
  type_name (array name t) = name
  type_name (dict name t) = name
  type_name (pointer t) = str ""
  type_name (struct id) = p.struct_name id
  type_name time = str "Time"
  type_name (opaque name) = name

  abbrev pub store : Str → Built → Option Components
  store name none = none
  store name (some (s, c)) = some (Dict.insert name s c)

  -- The schema of a type under a name, unless the name is taken; `none` where `buildSchema` nests
  -- deeper than the fuel.
  unfoldable pub store_schema : ℕ → Str → GoType → Components → Option Components
  unfolding build_schema Dict.lookup Dict.insert
  store_schema fuel name t c =
      if has_schema (Dict.lookup name c)
      then some c
      else store name (build_schema p parse_float parse_json fuel t c)

  abbrev pub with_schemas : Generator → Option Components → Option Generator
  with_schemas g none = none
  with_schemas g (some c) = some (record g { schemas = c })

  -- `RegisterSchema`
  unfoldable pub register_schema : ℕ → Str → Option GoType → Generator → Option Generator
  unfolding store_schema
  register_schema fuel [] model g = some g
  register_schema fuel (c ∷ s) none g = some g
  register_schema fuel (c ∷ s) (some t) g = with_schemas g (store_schema fuel (c ∷ s) t g.schemas)

  abbrev pub under : Str → Option Components → Option (Str × Components)
  under name none = none
  under name (some c) = some (name, c)

  -- `ensureSchema`
  unfoldable pub ensure_schema : ℕ → GoType → Components → Option (Str × Components)
  unfolding store_schema unwrap str_eq
  ensure_schema fuel model c =
      let t = unwrap model in
      if str_eq (type_name t) (str "")
      then some (str "", c)
      else under (type_name t) (store_schema fuel (type_name t) t c)

  abbrev pub content_of :
      Option Json → Option (Str × Components) → Option (Option Content × Components)
  content_of example none = none
  content_of example (some (name, c)) = some (named_content example name, c)

  -- The body of a request or of a response, if the operation has a model for it.
  unfoldable pub body_content :
      ℕ → Option GoType → Option Json → Components → Option (Option Content × Components)
  unfolding ensure_schema
  body_content fuel none example c = some (none, c)
  body_content fuel (some t) example c = content_of example (ensure_schema fuel t c)

  -- The entry of a route with the contents of its bodies.
  unfoldable pub entry_of : RouteInfo → Operation → Option Content → Option Content → Entry
  unfolding path_params to_openapi_path decimal
  entry_of r op request response = record {
    summary = set_text op.summary;
    description = set_text op.description;
    operation_id = set_text op.operation_id;
    tags = op.tags;
    deprecated = op.deprecated;
    secured = op.requires_auth;
    parameters = path_params (to_openapi_path r.path);
    request_body = request;
    response_code = int_text (code_of op.response_code);
    response_description = status_text (code_of op.response_code);
    response_body = response;
  }

  abbrev pub progressed :
      RouteInfo → Operation → Progress → Option Content → Option Content → Components → Progress
  progressed r op s request response c = record {
    paths =
        put_entry (to_openapi_path r.path) (to_lower r.method) (entry_of r op request response)
          s.paths;
    schemas = c;
    bearer = s.bearer || op.requires_auth;
  }

  -- One round of the loop in `Build`.
  unfoldable pub build_route : ℕ → List (Str × Operation) → RouteInfo → Progress → Option Progress
  unfolding operation_of body_content entry_of put_entry to_openapi_path to_lower
  build_route fuel opts r s =
      let op = operation_of opts r in
      do
        (request, c) ← body_content fuel op.request_model op.request_example s.schemas
        (response, d) ← body_content fuel op.response_model op.response_example c
        some (progressed r op s request response d)

  -- The loop over the routes.
  unfoldable pub build_routes :
      ℕ → List (Str × Operation) → List RouteInfo → Progress → Option Progress
  unfolding build_route
  build_routes fuel opts [] s = some s
  build_routes fuel opts (r ∷ rs) s = do t ← build_route fuel opts r s; build_routes fuel opts rs t

  -- `Build`, on the routes of the application: the document, and the generator with its schemas as
  -- they are then. The copy of the paths in the order of their keys is the same map.
  unfoldable pub build : ℕ → List RouteInfo → Generator → Option (Document × Generator)
  unfolding build_routes
  build fuel routes g = do
    s ←
        build_routes fuel g.opts routes
          (record { paths = []; schemas = g.schemas; bearer = g.bearer_auth })
    some (
      record {
        title = g.title;
        version = g.version;
        description = g.description;
        servers = servers_of g.server_urls;
        paths = s.paths;
        schemas = s.schemas;
        bearer_scheme = s.bearer;
      },
      record g { schemas = s.schemas },
    )

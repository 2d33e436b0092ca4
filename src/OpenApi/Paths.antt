-- ===== src/OpenApi/Paths.antt =====
-- openapi/openapi.go: the keys of operations, and paths as templates.
pub mod Laws
use elgon.Base.{
  ℕ, Bool, true, false, ◌&&◌, Option, none, some, List, [], ◌∷◌, ◌++◌, map, ltb, if◌then◌else◌,
  length,
}
use elgon.Base.Text.{Str, str, str_eq, split, join, has_prefix, to_upper}
use elgon.Path.{tail_of, starts_with, ends_with, drop_last}
use elgon.OpenApi.Schema.{Schema}
use elgon.OpenApi.Build.{simple_schema}

-- `key`, of an ASCII method.
unfoldable pub key : Str → Str → Str
unfolding to_upper
key method path = to_upper method ++ str " " ++ path

-- `"{" + strings.TrimPrefix(part, prefix) + "}"`, where the part has a prefix of one character.
abbrev pub braces : Str → Str
braces part = str "{" ++ tail_of part ++ str "}"

-- One round of the loop in `toOpenAPIPath`: the second test is on what the first one stored.
unfoldable pub template_part : Str → Str
unfolding has_prefix
template_part p =
    let q = if has_prefix p (str ":") then braces p else p in
    if has_prefix q (str "*") then braces q else q

abbrev pub or_root : Str → Str
or_root [] = str "/"
or_root (c ∷ s) = c ∷ s

-- `toOpenAPIPath`
unfoldable pub to_openapi_path : Str → Str
unfolding template_part split join
to_openapi_path path = or_root (join (str "/") (map template_part (split b'/' path)))

-- What `pathParams` says of a parameter.
pub record Parameter : Type 0 where
  pub name : Str
  pub within : Str
  pub required : Bool
  pub schema : Schema

abbrev pub path_param : Str → Parameter
path_param name = record {
  name = name;
  within = str "path";
  required = true;
  schema = simple_schema (str "string");
}

unfoldable pub is_template : Str → Bool
unfolding starts_with ends_with
is_template p = ltb 1 (length p) && starts_with b'{' p && ends_with b'}' p

-- The loop of `pathParams`.
unfoldable pub params_of : List Str → List Parameter
unfolding is_template drop_last
params_of [] = []
params_of (p ∷ ps) =
    let rest = params_of ps in
    if is_template p then path_param (drop_last (tail_of p)) ∷ rest else rest

-- `pathParams`
unfoldable pub path_params : Str → List Parameter
unfolding params_of split
path_params path = params_of (split b'/' path)

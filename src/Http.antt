-- ===== src/Http.antt =====
-- ctx.go and errors.go: the request context, the response that it writes, and typed errors.
pub mod Bind
use elgon.Base.{ℕ, Option, none, some, List, [], ◌∷◌, ◌++◌, if◌then◌else◌}
use elgon.Base.Text.{Str, str, str_eq}
use elgon.Base.Dict
use elgon.Router.{RouteParam}

-- `Principal` of auth/auth.go.
pub record Principal : Type 0 where
  pub id : Str
  pub email : Str
  pub roles : List Str
  pub perms : List Str

-- The values that a context stores, and the details of an error.
pub data Any : Type 0 where
  text : Str → Any
  principal : Principal → Any
  strings : List (Str × Str) → Any
  other : ℕ → Any

-- `HTTPError`
pub record HttpError : Type 0 where
  pub code : Str
  pub message : Str
  pub details : Option Any
  pub status : ℕ

-- An `error`: one of the package's, one that wraps another, and any other with its text.
pub data Error : Type 0 where
  http : HttpError → Error
  wrapped : Str → Error → Error
  plain : Str → Error

-- `newHTTPError`
abbrev pub new_http_error : Str → Str → Option Any → ℕ → Error
new_http_error code message details status =
    http (record { code = code; message = message; details = details; status = status })

abbrev pub err_bad_request : Str → Option Any → Error
err_bad_request msg details = new_http_error (str "BAD_REQUEST") msg details 400

abbrev pub err_unauthorized : Str → Error
err_unauthorized msg = new_http_error (str "UNAUTHORIZED") msg none 401

abbrev pub err_forbidden : Str → Error
err_forbidden msg = new_http_error (str "FORBIDDEN") msg none 403

abbrev pub err_not_found : Str → Error
err_not_found msg = new_http_error (str "NOT_FOUND") msg none 404

abbrev pub err_conflict : Str → Error
err_conflict msg = new_http_error (str "CONFLICT") msg none 409

abbrev pub err_internal : Str → Error
err_internal msg = new_http_error (str "INTERNAL_ERROR") msg none 500

-- `asHTTPError`: `errors.As` walks through the errors that are wrapped.
unfoldable pub as_http_error : Error → Option HttpError
as_http_error (http e) = some e
as_http_error (wrapped msg e) = as_http_error e
as_http_error (plain msg) = none

-- `ErrorBody`
pub record ErrorBody : Type 0 where
  pub code : Str
  pub message : Str
  pub details : Option Any
  pub request_id : Str

-- What is written to a response: an error payload, another JSON value, or bytes.
pub data Chunk : Type 0 where
  error_json : ErrorBody → Chunk
  json_value : Any → Chunk
  bytes : Str → Chunk

-- The `http.ResponseWriter`: the first status that is written stays.
pub record Response : Type 0 where
  pub headers : List (Str × Str)
  pub status : Option ℕ
  pub body : List Chunk

-- `Ctx`, with what the code reads of the request.
pub record Ctx : Type 0 where
  pub method : Str
  pub path : Str
  pub request_headers : List (Str × Str)
  pub params : List RouteParam
  pub values : List (Str × Any)
  pub route_pattern : Str
  pub response : Response

-- A handler returns, with an error or without, or panics; the context keeps what was written.
pub data Reply : Type 0 where
  returned : Option Error → Ctx → Reply
  panicked : Str → Ctx → Reply

-- `HandlerFunc` and `Middleware`
abbrev pub HandlerFunc : Type 0
HandlerFunc = Ctx → Reply

abbrev pub Middleware : Type 0
Middleware = HandlerFunc → HandlerFunc

-- `Param`
unfoldable pub param : Str → List RouteParam → Str
unfolding str_eq
param name [] = str ""
param name (p ∷ ps) = if str_eq p.key name then p.value else param name ps

-- `Header`: the first value of a header, or nothing.
unfoldable pub header : Str → Ctx → Str
unfolding Dict.lookup
header name c = elim (Dict.lookup name c.request_headers) [ none ↦ str "" | some v ↦ v ]

-- `Set` and `Get`
unfoldable pub set_value : Str → Any → Ctx → Ctx
unfolding Dict.insert
set_value key v c = record c { values = Dict.insert key v c.values }

unfoldable pub get_value : Str → Ctx → Option Any
unfolding Dict.lookup
get_value key c = Dict.lookup key c.values

-- `c.Writer.Header().Set(key, value)`: of no effect once the status is written.
unfoldable pub set_header : Str → Str → Ctx → Ctx
unfolding Dict.insert
set_header key v c = elim c.response.status [
  | none ↦ record c {
    response = record c.response { headers = Dict.insert key v c.response.headers };
  }
  | some s ↦ c
]

unfoldable pub write_header : ℕ → Ctx → Ctx
write_header status c = elim c.response.status [
  | none ↦ record c { response = record c.response { status = some status } }
  | some s ↦ c
]

unfoldable pub write_chunk : Chunk → Ctx → Ctx
unfolding write_header
write_chunk chunk c =
    let c' = write_header 200 c in
    record c' { response = record c'.response { body = c'.response.body ++ chunk ∷ [] } }

-- `JSON` with the value as a chunk; the encoder's error is not modelled.
unfoldable pub json : ℕ → Chunk → Ctx → Ctx
unfolding set_header write_header write_chunk
json status chunk c =
    write_chunk chunk
      (write_header status (set_header (str "Content-Type") (str "application/json") c))

-- `Text`
unfoldable pub text_reply : ℕ → Str → Ctx → Ctx
unfolding set_header write_header write_chunk
text_reply status msg c =
    write_chunk (bytes msg)
      (write_header status (set_header (str "Content-Type") (str "text/plain; charset=utf-8") c))

-- `anyToString`
abbrev pub any_to_string : Option Any → Str
any_to_string (some (text s)) = s
any_to_string (some (principal p)) = str ""
any_to_string (some (other n)) = str ""
any_to_string (some (strings m)) = str ""
any_to_string none = str ""

abbrev pub error_status : Option HttpError → ℕ
error_status none = 500
error_status (some e) = e.status

abbrev pub error_body : Option HttpError → Str → ErrorBody
error_body none request_id = record {
  code = str "INTERNAL_ERROR";
  message = str "internal server error";
  details = none;
  request_id = request_id;
}
error_body (some e) request_id = record {
  code = e.code;
  message = e.message;
  details = e.details;
  request_id = request_id;
}

-- `writeError` of app.go, on an error.
unfoldable pub write_error : Error → Ctx → Ctx
unfolding as_http_error get_value json
write_error e c =
    json (error_status (as_http_error e))
      (error_json (error_body (as_http_error e) (any_to_string (get_value (str "request_id") c)))) c

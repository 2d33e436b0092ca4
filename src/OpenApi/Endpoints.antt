-- ===== src/OpenApi/Endpoints.antt =====
-- openapi/openapi.go: the two endpoints of a generator. The JSON text of a document is a parameter.
use elgon.Base.{ℕ, Option, none, some, [], ◌∷◌, ◌++◌}
use elgon.Base.Int.{ℤ}
use elgon.Base.Text.{Str, str, join}
use elgon.Base.Optional.{◌>>=◌}
use elgon.Http.{bytes, Ctx, returned, HandlerFunc, set_header, write_chunk}
use elgon.App.{App}
use elgon.App.Setup.{get, app_verb, routes}
use elgon.OpenApi.Schema.{Program, Json}
use elgon.OpenApi.Generator.{Document, Generator}
use elgon.OpenApi.Document.{build}

-- `swaggerHTML`
unfoldable pub swagger_html : Str → Str
unfolding join
swagger_html spec_path = join (str "\n") (
    str "<!doctype html>"
    ∷ str "<html>"
    ∷ str "<head>"
    ∷ str "  <meta charset=\"utf-8\" />"
    ∷ str "  <meta name=\"viewport\" content=\"width=device-width, initial-scale=1\" />"
    ∷ str "  <title>elgon docs</title>"
    ∷ str
        "  <link rel=\"stylesheet\" href=\"https://unpkg.com/swagger-ui-dist@5/swagger-ui.css\" />"
    ∷ str "</head>"
    ∷ str "<body>"
    ∷ str "  <div id=\"swagger-ui\"></div>"
    ∷ str "  <script src=\"https://unpkg.com/swagger-ui-dist@5/swagger-ui-bundle.js\"></script>"
    ∷ str "  <script>"
    ∷ str "    window.ui = SwaggerUIBundle({"
    ∷ (str "      url: '" ++ (spec_path ++ str "',"))
    ∷ str "      dom_id: '#swagger-ui'"
    ∷ str "    });"
    ∷ str "  </script>"
    ∷ str "</body>"
    ∷ str "</html>"
    ∷ [])

-- The handler of the documentation page.
unfoldable pub serve_docs : Str → HandlerFunc
unfolding swagger_html set_header write_chunk
serve_docs json_path c = returned none (
    write_chunk (bytes (swagger_html json_path))
      (set_header (str "Content-Type") (str "text/html; charset=utf-8") c))

abbrev or_path : Str → Str → Str
or_path default [] = default
or_path default (c ∷ s) = c ∷ s

-- `Register`, with the handler of the document.
unfoldable pub register : HandlerFunc → Str → Str → App → Option App
unfolding app_verb serve_docs
register serve_json json_path docs_path a =
    let json_at = or_path (str "/openapi.json") json_path in
    do
      b ← app_verb get json_at serve_json [] a
      app_verb get (or_path (str "/docs") docs_path) (serve_docs json_at) [] b

module _ (p : Program) (parse_float : Str → Option ℕ) (parse_json : Str → Option Json)
    (status_text : ℤ → Str) (encode : Document → Str) where
  -- The handler of the document, on the application and the generator as they are at the request.
  unfoldable pub serve_json : ℕ → App → Generator → Ctx → Option (Ctx × Generator)
  unfolding build set_header write_chunk
  serve_json fuel a g c = do
    (d, h) ← build p parse_float parse_json status_text fuel (routes a) g
    some (
      write_chunk (bytes (encode d)) (set_header (str "Content-Type") (str "application/json") c),
      h,
    )

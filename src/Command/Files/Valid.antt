-- ===== src/Command/Files/Valid.antt =====
-- cmd/elgon/main.go: `elgon openapi validate` on what `elgon openapi generate` wrote.
use elgon.Base.{◌≡◌, refl, none, List, ◌∷◌}
use elgon.Base.Text.{Str, str}
use elgon.Base.Dict
use elgon.Base.Result.{Result, ok}
use elgon.Command.{World, System}
use elgon.Command.Files.{Member, OpenApiFlags, skeleton, check_document, cmd_openapi}

module _ (sys : System) (parse_flags : List Str → Result Str OpenApiFlags) (read_error : Str → Str)
    (marshal : Str → Str → Str) (unmarshal : Str → Result Str (List (Str × Member))) where
  -- When the file can be written, and the text of the generated document is read as the members that
  -- it was written with, a validation of the same file behind the generation finds no error.
  pub cmd_openapi-validate :
      (args later : List Str) (generated validated : OpenApiFlags) (w : World)
      → parse_flags args ≡ ok generated
      → parse_flags later ≡ ok validated
      → validated.file ≡ generated.file
      → sys.write_error generated.file ≡ none
      → unmarshal (marshal generated.title generated.version) ≡ ok skeleton
      → (cmd_openapi sys parse_flags read_error marshal unmarshal
          (str "validate" ∷ later)
          (cmd_openapi sys parse_flags read_error marshal unmarshal (str "generate" ∷ args) w).1).0
        ≡ none
  unfolding cmd_openapi check_document
  cmd_openapi-validate args later generated validated w first second same written read =
      rw
        (
          second,
          first,
          same,
          written,
          Dict.lookup-insert_self generated.file (marshal generated.title generated.version)
              w.files,
          read,
        )
        refl

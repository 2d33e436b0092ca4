-- ===== src/Path/Tests.antt =====
-- Runs of the path functions, and the theorems about them at concrete paths.
use elgon.Base.{◌≡◌, refl, [], ◌∷◌}
use elgon.Base.Text.{str}
use elgon.Path.{static, param, wildcard, parse_segments, normalize_path}

normalize_path_runs : normalize_path (str "users/") ≡ str "/users"
unfolding normalize_path
normalize_path_runs = refl

normalize_path_one_slash : normalize_path (str "a//") ≡ str "/a/"
unfolding normalize_path
normalize_path_one_slash = refl

parse_segments_runs :
    parse_segments (str "/users/:id/*rest/:")
    ≡ static (str "users") ∷ param (str "id") ∷ wildcard (str "rest") ∷ static (str ":") ∷ []
unfolding parse_segments
parse_segments_runs = refl

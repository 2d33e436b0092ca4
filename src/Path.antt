-- ===== src/Path.antt =====
-- route.go and `normalizePath` of app.go: paths of requests and patterns of routes.
pub mod Laws
mod Tests
use elgon.Base.{
  ℕ, ◌≡◌, refl, Bool, true, false, not, ◌&&◌, ◌||◌, List, [], ◌∷◌, ◌++◌, map, ltb, ◌==◌,
  if◌then◌else◌, length,
}
use elgon.Base.Text.{Str, str, str_eq, trim, split, has_prefix}

-- `routeSegment`: the kind is the constructor, the value its argument.
pub data RouteSegment : Type 0 where
  static param wildcard : Str → RouteSegment

abbrev pub is_slash : ℕ → Bool
is_slash c = c == b'/'

abbrev pub parts_of : Str → List Str
parts_of [] = []
parts_of (c ∷ s) = split b'/' (c ∷ s)

-- `splitPath`
unfoldable pub split_path : Str → List Str
unfolding trim split
split_path path = parts_of (trim is_slash path)

-- `p[1:]`
abbrev pub tail_of : Str → Str
tail_of [] = []
tail_of (c ∷ s) = s

-- One round of the loop in `parseSegments`.
unfoldable pub parse_segment : Str → RouteSegment
unfolding has_prefix
parse_segment p =
    if has_prefix p (str ":") && ltb 1 (length p)
    then param (tail_of p)
    else if has_prefix p (str "*") && ltb 1 (length p)
    then wildcard (tail_of p)
    else static p

-- `parseSegments`
unfoldable pub parse_segments : Str → List RouteSegment
unfolding split_path parse_segment
parse_segments path = map parse_segment (split_path path)

-- `path[0] == c`, false on the empty text.
unfoldable pub starts_with : ℕ → Str → Bool
starts_with c [] = false
starts_with c (d ∷ s) = d == c

-- `path[len(path)-1] == c`
unfoldable pub ends_with : ℕ → Str → Bool
ends_with c [] = false
ends_with c (d ∷ []) = d == c
ends_with c (d ∷ e ∷ s) = ends_with c (e ∷ s)

-- `path[:len(path)-1]`
unfoldable pub drop_last : Str → Str
drop_last [] = []
drop_last (d ∷ []) = []
drop_last (d ∷ e ∷ s) = d ∷ drop_last (e ∷ s)

unfoldable pub add_slash : Str → Str
unfolding starts_with
add_slash path = if not (starts_with b'/' path) then b'/' ∷ path else path

unfoldable pub drop_slash : Str → Str
unfolding ends_with drop_last
drop_slash path = if ltb 1 (length path) && ends_with b'/' path then drop_last path else path

-- `normalizePath`
unfoldable pub normalize_path : Str → Str
unfolding str_eq add_slash drop_slash
normalize_path path =
    if str_eq path (str "") || str_eq path (str "/") then str "/" else drop_slash (add_slash path)

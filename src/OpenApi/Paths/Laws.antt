-- ===== src/OpenApi/Paths/Laws.antt =====
-- The parameters that a document names, against those of the segments of the path.
use elgon.Base.{
  ℕ, ◌≡◌, ◌≢◌, refl, sym, ap, ◌∙◌, inl, inr, true, false, List, [], ◌∷◌, ◌++◌, map, arith,
  Bool-cases, if◌then◌else◌, length-append, All, All-append, All-weaken, ◌==◌, ==_iff,
}
use elgon.Base.Text.{Str, str, split, join, has_prefix}
use elgon.Base.Text.Splits.{Avoids, split-join}
use elgon.Path.{
  RouteSegment, static, param, wildcard, is_slash, parse_segment, parse_segments, starts_with,
  ends_with, drop_last,
}
use elgon.Path.Laws.{IsPart, split_path-join}
use elgon.OpenApi.Paths.{
  braces, template_part, or_root, to_openapi_path, path_param, is_template, params_of, path_params,
}

-- A part that is not ":" or "*" alone, nor a literal that begins like a template.
abbrev pub IsPlain : Str → Type 0
IsPlain [] = ⊥
IsPlain (c ∷ []) = (c ≢ b':') × (c ≢ b'*')
IsPlain (c ∷ d ∷ s) = c ≢ b'{'

-- The names of the parameters and of the wildcard among segments, in order.
unfoldable pub names_of : List RouteSegment → List Str
names_of [] = []
names_of (static s ∷ ss) = names_of ss
names_of (param name ∷ ss) = name ∷ names_of ss
names_of (wildcard name ∷ ss) = name ∷ names_of ss

ends_with-append : (c : ℕ) (s : Str) → ends_with c (s ++ c ∷ []) ≡ true
unfolding ends_with
ends_with-append c [] = ground arith
ends_with-append c (d ∷ []) = ground arith
ends_with-append c (d ∷ e ∷ s) = ends_with-append c (e ∷ s)

drop_last-append : (c : ℕ) (s : Str) → drop_last (s ++ c ∷ []) ≡ s
unfolding drop_last
drop_last-append c [] = refl
drop_last-append c (d ∷ []) = refl
drop_last-append c (d ∷ e ∷ s) = ap (λ t. d ∷ t) (drop_last-append c (e ∷ s))

is_template-braces : (s : Str) → is_template (b'{' ∷ (s ++ str "}")) ≡ true
unfolding is_template ends_with starts_with
is_template-braces [] = refl
is_template-braces (d ∷ s) =
    rw (ends_with-append b'}' (d ∷ s), length-append s (str "}")) ground arith

params_of-braces :
    (c : ℕ) (s : Str) (ps : List Str)
    → params_of (braces (c ∷ s) ∷ ps) ≡ path_param s ∷ params_of ps
unfolding params_of
params_of-braces c s ps = rw (is_template-braces s, drop_last-append b'}' s) refl

names_of-cons :
    (seg : RouteSegment) (segs : List RouteSegment)
    → names_of (seg ∷ segs) ≡ names_of (seg ∷ []) ++ names_of segs
unfolding names_of
names_of-cons (static s) segs = refl
names_of-cons (param name) segs = refl
names_of-cons (wildcard name) segs = refl

template_part-colon : (s : Str) → template_part (b':' ∷ s) ≡ braces (b':' ∷ s)
unfolding template_part has_prefix
template_part-colon s = refl

template_part-star : (s : Str) → template_part (b'*' ∷ s) ≡ braces (b'*' ∷ s)
unfolding template_part has_prefix
template_part-star s = refl

-- A part that begins with another character than ":" and "*".
abbrev IsOther : ℕ → Type 0
IsOther c = ((c == b':') ≡ false) × ((c == b'*') ≡ false)

template_part-other : (c : ℕ) (s : Str) → IsOther c → template_part (c ∷ s) ≡ c ∷ s
unfolding template_part has_prefix
template_part-other c s (a, b) = rw (a, b) refl

parse_segment-other : (c : ℕ) (s : Str) → IsOther c → parse_segment (c ∷ s) ≡ static (c ∷ s)
unfolding parse_segment has_prefix
parse_segment-other c s (a, b) = rw (a, b) refl

parse_segment-colon : (d : ℕ) (s : Str) → parse_segment (b':' ∷ d ∷ s) ≡ param (d ∷ s)
unfolding parse_segment has_prefix
parse_segment-colon d s = ground arith

parse_segment-star : (d : ℕ) (s : Str) → parse_segment (b'*' ∷ d ∷ s) ≡ wildcard (d ∷ s)
unfolding parse_segment has_prefix
parse_segment-star d s = ground arith

params_of-short : (c : ℕ) (ps : List Str) → params_of ((c ∷ []) ∷ ps) ≡ params_of ps
unfolding params_of is_template
params_of-short c ps = refl

params_of-plain :
    (c d : ℕ) (s : Str) (ps : List Str)
    → IsPlain (c ∷ d ∷ s)
    → params_of ((c ∷ d ∷ s) ∷ ps) ≡ params_of ps
unfolding params_of is_template starts_with
params_of-plain c d s ps h = ground (arith, h)

-- The template of a part is a parameter exactly when the router reads one.
params_of-part :
    (p : Str) (ps : List Str)
    → IsPlain p
    → map (λ q. q.name) (params_of (template_part p ∷ ps))
      ≡ names_of (parse_segment p ∷ []) ++ map (λ q. q.name) (params_of ps)
unfolding names_of
params_of-part [] ps h = absurd h
params_of-part (c ∷ []) ps h =
    let other : IsOther c = (ground (arith, h.0), ground (arith, h.1)) in
    rw (template_part-other c [] other, parse_segment-other c [] other, params_of-short c ps) refl
params_of-part (c ∷ d ∷ s) ps h = elim (Bool-cases (c == b':')) [
  | inl colon ↦
      rw
        (
          (==_iff c b':').0 colon,
          template_part-colon (d ∷ s),
          parse_segment-colon d s,
          params_of-braces b':' (d ∷ s) ps,
        )
        refl
  | inr plain ↦ elim (Bool-cases (c == b'*')) [
    | inl star ↦
        rw
          (
            (==_iff c b'*').0 star,
            template_part-star (d ∷ s),
            parse_segment-star d s,
            params_of-braces b'*' (d ∷ s) ps,
          )
          refl
    | inr rest ↦
        rw
          (
            template_part-other c (d ∷ s) (plain, rest),
            parse_segment-other c (d ∷ s) (plain, rest),
            params_of-plain c d s ps h,
          )
          refl
  ]
]

params_of-parts :
    (ps : List Str)
    → All IsPlain ps
    → map (λ q. q.name) (params_of (map template_part ps)) ≡ names_of (map parse_segment ps)
unfolding params_of names_of
params_of-parts [] h = refl
params_of-parts (p ∷ ps) (hp, h) =
    params_of-part p (map template_part ps) hp
    ∙ ap (λ names. names_of (parse_segment p ∷ []) ++ names) (params_of-parts ps h)
    ∙ sym (names_of-cons (parse_segment p) (map parse_segment ps))

Avoids-braces : (s : Str) → Avoids is_slash s → Avoids is_slash (braces s)
Avoids-braces [] h = (refl, (refl, tt))
Avoids-braces (c ∷ s) h = (refl, All-append (λ d. is_slash d ≡ false) s (str "}") h.1 (refl, tt))

Avoids-starred :
    (q : Str) → Avoids is_slash q → Avoids is_slash (if has_prefix q (str "*") then braces q else q)
Avoids-starred q h = elim (Bool-cases (has_prefix q (str "*"))) [
  | inl star ↦ rw star (Avoids-braces q h)
  | inr rest ↦ rw rest h
]

Avoids-template_part : (p : Str) → Avoids is_slash p → Avoids is_slash (template_part p)
unfolding template_part
Avoids-template_part p h = elim (Bool-cases (has_prefix p (str ":"))) [
  | inl colon ↦ rw colon (Avoids-starred (braces p) (Avoids-braces p h))
  | inr rest ↦ rw rest (Avoids-starred p h)
]

Avoids-templates : (ps : List Str) → All IsPart ps → All (Avoids is_slash) (map template_part ps)
Avoids-templates [] h = tt
Avoids-templates (p ∷ ps) (hp, h) = (Avoids-template_part p hp.1, Avoids-templates ps h)

split-path :
    (p : Str) (ps : List Str)
    → All (Avoids is_slash) (p ∷ ps)
    → split b'/' (b'/' ∷ join (str "/") (p ∷ ps)) ≡ [] ∷ p ∷ ps
unfolding split
split-path p ps h = ap (λ parts. [] ∷ parts) (split-join b'/' p ps h)

All-Avoids : (ps : List Str) → All IsPart ps → All (Avoids is_slash) ps
All-Avoids = All-weaken (λ p h. h.1)

-- The template of a path of parts is the path of the parts' templates.
to_openapi_path-parts :
    (p : Str) (ps : List Str)
    → All IsPart (p ∷ ps)
    → to_openapi_path (b'/' ∷ join (str "/") (p ∷ ps))
      ≡ b'/' ∷ join (str "/") (map template_part (p ∷ ps))
unfolding to_openapi_path join template_part has_prefix
to_openapi_path-parts p ps h =
    ap (λ parts. or_root (join (str "/") (map template_part parts)))
      (split-path p ps (All-Avoids (p ∷ ps) h))

-- The document names, for a path of parts that are neither ":" nor "*" alone nor literals that begin
-- with "{", the parameters and the wildcard of the segments that the router parses the path into, in
-- the same order.
pub path_params-names :
    (parts : List Str)
    → All IsPart parts
    → All IsPlain parts
    → map (λ q. q.name) (path_params (to_openapi_path (b'/' ∷ join (str "/") parts)))
      ≡ names_of (parse_segments (b'/' ∷ join (str "/") parts))
unfolding path_params parse_segments params_of is_template names_of to_openapi_path
path_params-names [] h plain = refl
path_params-names (p ∷ ps) h plain =
    rw (to_openapi_path-parts p ps h, split_path-join (p ∷ ps) h)
      (ap (λ parts. map (λ q. q.name) (params_of parts))
          (split-path (template_part p) (map template_part ps) (Avoids-templates (p ∷ ps) h))
        ∙ params_of-parts (p ∷ ps) plain)

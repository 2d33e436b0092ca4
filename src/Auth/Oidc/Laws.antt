-- ===== src/Auth/Oidc/Laws.antt =====
-- Which ID tokens are accepted.
use mathlib.Core.Path.{subst}
use elgon.Base.{
  ap, ◌∙◌, Bool, ℕ, ◌≡◌, refl, true, false, ◌⊎◌, Option, some, List, [], ◌∷◌, not, ◌&&◌, Bool-cases,
  Option-cases, inl, inr,
}
use elgon.Base.Text.{Str, str, str_eq, str_eq_iff, split}
use elgon.Base.Dict
use elgon.Base.Result.{ok, ok_inj}
use elgon.Auth.Oidc.{
  Json, audience_contains, text_of, id_token_expired, check_claims, parse_parts,
  parse_id_token_claims,
}

-- One of two tests that are not both false.
one_of_two : (a b : Bool) → (not a && not b) ≡ false → (a ≡ true) ⊎ (b ≡ true)
one_of_two true b h = inl refl
one_of_two false true h = inr refl
one_of_two false false h = cc

module _ (decode : Str → Option Str) (parse : Str → Option (List (Str × Json)))
    (issuer audience : Str) (now : ℕ) where
  -- What the claims of an accepted ID token satisfy. An issuer or an audience that is empty is not
  -- checked.
  pub record Trusted (claims : List (Str × Json)) : Type 0 where
    pub from_issuer : (issuer ≡ []) ⊎ (text_of (Dict.lookup (str "iss") claims) ≡ issuer)
    pub for_audience :
        (audience ≡ []) ⊎ (audience_contains (Dict.lookup (str "aud") claims) audience ≡ true)
    pub fresh : id_token_expired (Dict.lookup (str "exp") claims) now ≡ false

  check_claims-Trusted :
      (x claims : List (Str × Json))
      → check_claims decode parse issuer audience now x ≡ ok claims
      → (x ≡ claims) × Trusted claims
  unfolding check_claims
  check_claims-Trusted x claims q =
      let iss = str_eq (text_of (Dict.lookup (str "iss") x)) issuer in
      let aud = audience_contains (Dict.lookup (str "aud") x) audience in
      elim (Bool-cases (not (str_eq issuer (str "")) && not iss)) [
        | inl bad ↦ let q' = rw bad at q in cc
        | inr good ↦ elim (Bool-cases (not (str_eq audience (str "")) && not aud)) [
          | inl bad ↦ let q' = rw (good, bad) at q in cc
          | inr meant ↦ elim (Bool-cases (id_token_expired (Dict.lookup (str "exp") x) now)) [
            | inl late ↦ let q' = rw (good, meant, late) at q in cc
            | inr fresh ↦
                let same : x ≡ claims = ok_inj (rw (good, meant, fresh) at q) in
                let trusted : Trusted x = record {
                  from_issuer = elim (one_of_two (str_eq issuer (str "")) iss good) [
                    | inl blank ↦ inl ((str_eq_iff issuer (str "")).0 blank)
                    | inr same ↦ inr ((str_eq_iff _ issuer).0 same)
                  ];
                  for_audience = elim (one_of_two (str_eq audience (str "")) aud meant) [
                    | inl blank ↦ inl ((str_eq_iff audience (str "")).0 blank)
                    | inr held ↦ inr held
                  ];
                  fresh = fresh;
                } in
                (same, subst Trusted same trusted)
          ]
        ]
      ]

  -- The text that the claims were read from.
  abbrev pub ReadFrom : List Str → List (Str × Json) → Type 0
  ReadFrom parts claims =
      (header payload sig json : Str) × (parts ≡ header ∷ payload ∷ sig ∷ [])
      × (decode payload ≡ some json)
      × (parse json ≡ some claims)

  parse_parts-Trusted :
      (parts : List Str) (claims : List (Str × Json))
      → parse_parts decode parse issuer audience now parts ≡ ok claims
      → ReadFrom parts claims × Trusted claims
  unfolding parse_parts
  parse_parts-Trusted [] claims q = cc
  parse_parts-Trusted (h ∷ []) claims q = cc
  parse_parts-Trusted (h ∷ p ∷ []) claims q = cc
  parse_parts-Trusted (h ∷ p ∷ s ∷ t ∷ ts) claims q = cc
  parse_parts-Trusted (h ∷ p ∷ s ∷ []) claims q = elim (Option-cases (decode p)) [
    | inl e ↦ let q' = rw e at q in cc
    | inr (json, e) ↦ elim (Option-cases (parse json)) [
      | inl e' ↦ let q' = rw (e, e') at q in cc
      | inr (x, e') ↦
          let (same, trusted) = check_claims-Trusted x claims (rw (e, e') at q) in
          ((h, p, s, json, refl, e, e' ∙ ap some same), trusted)
    ]
  ]

  -- The claims of an ID token are accepted only if its second part of three decodes to them, and they
  -- are from the issuer, if one is given, for the audience, if one is given, and not expired.
  pub parse_id_token_claims-Trusted :
      (id_token : Str) (claims : List (Str × Json))
      → parse_id_token_claims decode parse issuer audience now id_token ≡ ok claims
      → ReadFrom (split b'.' id_token) claims × Trusted claims
  unfolding parse_id_token_claims
  parse_id_token_claims-Trusted id_token claims q =
      parse_parts-Trusted (split b'.' id_token) claims q

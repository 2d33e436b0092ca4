-- ===== src/Auth/Jwt/Laws.antt =====
-- What tokens guarantee.
use mathlib.Core.Path.{subst}
use elgon.Base.{
  ℕ, ◌≡◌, refl, ap, ◌∙◌, sym, false, Option, none, some, List, [], ◌∷◌, ◌++◌, append_assoc,
  Bool-cases, Option-cases, inl, inr, ◌==◌, if◌then◌else◌,
}
use elgon.Base.Text.{Str, str, str_eq, str_eq_iff, str_eq_refl, split, join, is_url_char}
use elgon.Base.Text.Splits.{Avoids, split-append, split-last}
use elgon.Base.Text.Joins.{join-split, url-Avoids}
use elgon.Base.Result.{Result, ok, err}
use elgon.Auth.Jwt.{
  Claims, TokenError, expired_token, Codec, IsDocumented, stamped, expired, sign_hs256,
  signing_input, sign, verify_parts, verify, check_alg, check_header, check_payload, check_exp,
}

ok_inj : {a b : Str} → ◌≡◌ {A = Result TokenError Str} (ok a) (ok b) → a ≡ b
ok_inj q = cc

module _ (c : Codec) (secret : Str) where
  -- The parts of a token and the signature of the first two.
  abbrev pub token_of : Str → Str → Str
  token_of h p =
      signing_input c secret h p ++ b'.' ∷ sign_hs256 c secret (signing_input c secret h p)

  split-token :
      (h p s : Str)
      → Avoids (λ x. x == b'.') h
      → Avoids (λ x. x == b'.') p
      → Avoids (λ x. x == b'.') s
      → split b'.' (signing_input c secret h p ++ b'.' ∷ s) ≡ h ∷ p ∷ s ∷ []
  split-token h p s ah ap' as' =
      ap (split b'.') (append_assoc h (b'.' ∷ p) (b'.' ∷ s))
      ∙ split-append b'.' h (p ++ b'.' ∷ s) ah
      ∙ ap (λ t. h ∷ t) (split-append b'.' p s ap' ∙ ap (λ t. p ∷ t) (split-last b'.' s as'))

  Avoids-encode : (s : Str) → IsDocumented c → Avoids (λ x. x == b'.') (c.b64_encode s)
  Avoids-encode s documented =
      url-Avoids b'.' (c.b64_encode s) (unfold is_url_char in refl) (documented.url_chars s)

  -- The checks of `Verify` on the parts that `Sign` has written.
  verify_parts-signed :
      (claims : Claims) (json : Str) (later : ℕ)
      → IsDocumented c
      → c.marshal claims ≡ some json
      → verify_parts c secret
          (c.b64_encode c.header_json
            ∷ c.b64_encode json
            ∷ sign_hs256 c secret
                (signing_input c secret (c.b64_encode c.header_json) (c.b64_encode json))
            ∷ [])
          later
        ≡ check_exp c secret (some claims) later
  unfolding verify_parts
  verify_parts-signed claims json later documented made =
      rw
        (
          str_eq_refl (
              sign_hs256 c secret
                (signing_input c secret (c.b64_encode c.header_json) (c.b64_encode json))),
          documented.decode-encode c.header_json,
          documented.header_read,
          documented.decode-encode json,
          documented.unmarshal-marshal claims json made,
        )
        refl

  -- How a signed token is spelled.
  pub sign-ok :
      (claims : Claims) (ttl : Option ℕ) (now : ℕ) (token : Str)
      → sign c secret claims ttl now ≡ ok token
      → (json : Str) × (c.marshal (stamped now ttl claims) ≡ some json)
        × (str_eq secret (str "") ≡ false)
        × (token ≡ token_of (c.b64_encode c.header_json) (c.b64_encode json))
  unfolding sign
  sign-ok claims ttl now token signed = elim (Bool-cases (str_eq secret (str ""))) [
    | inl blank ↦ let q = rw (blank, sign) at signed in cc
    | inr full ↦ elim (Option-cases (c.marshal (stamped now ttl claims))) [
      | inl failed ↦ let q = rw (full, failed, sign) at signed in cc
      | inr (json, made) ↦
          let written = rw (full, made, sign) at signed in (json, made, full, sym (ok_inj written))
    ]
  ]

  -- A token that was signed is verified to the claims that it was made from, stamped with the
  -- time of signing and the expiry, until it expires; then it is refused as expired.
  pub verify-sign :
      (claims : Claims) (ttl : Option ℕ) (now later : ℕ) (token : Str)
      → IsDocumented c
      → sign c secret claims ttl now ≡ ok token
      → verify c secret token later ≡ (
          if expired (stamped now ttl claims).exp later
          then err expired_token
          else ok (stamped now ttl claims))
  unfolding verify
  verify-sign claims ttl now later token documented signed =
      let (json, made, full, spelled) = sign-ok claims ttl now token signed in
      let header = c.b64_encode c.header_json in
      let payload = c.b64_encode json in
      rw (full, spelled)
        (ap (λ parts. verify_parts c secret parts later)
            (split-token header payload
              (sign_hs256 c secret (signing_input c secret header payload))
              (Avoids-encode c.header_json documented) (Avoids-encode json documented)
              (unfold sign_hs256 in Avoids-encode (c.hmac _ secret) documented))
          ∙ verify_parts-signed (stamped now ttl claims) json later documented made)

  -- What an accepted token is: three parts, of which the last is the signature of the first two
  -- under the secret; the first says HS256, the second holds the claims, which have not expired.
  pub record Accepted (token : Str) (claims : Claims) (now : ℕ) : Type 0 where
    pub header : Str
    pub payload : Str
    pub spelled : token ≡ token_of header payload
    pub algorithm :
        (json : Str) × (c.b64_decode header ≡ some json) × (c.alg json ≡ some (some (str "HS256")))
    pub content :
        (json : Str) × (c.b64_decode payload ≡ some json) × (c.unmarshal json ≡ some claims)
    pub fresh : expired claims.exp now ≡ false

  check_exp-ok :
      (o : Option Claims) (claims : Claims) (now : ℕ)
      → check_exp c secret o now ≡ ok claims
      → (o ≡ some claims) × (expired claims.exp now ≡ false)
  check_exp-ok none claims now q = cc
  check_exp-ok (some x) claims now q = elim (Bool-cases (expired x.exp now)) [
    | inl late ↦ let q' = rw late at q in cc
    | inr fresh ↦
        let q' = rw fresh at q in
        let same : x ≡ claims = cc in (ap some same, ap (λ y. expired y.exp now) (sym same) ∙ fresh)
  ]

  check_payload-ok :
      (o : Option Str) (claims : Claims) (now : ℕ)
      → check_payload c secret o now ≡ ok claims
      → ((json : Str) × (o ≡ some json) × (c.unmarshal json ≡ some claims))
        × (expired claims.exp now ≡ false)
  check_payload-ok none claims now q = cc
  check_payload-ok (some json) claims now q =
      let (read, fresh) = check_exp-ok (c.unmarshal json) claims now q in
      ((json, refl, read), fresh)

  check_alg-ok :
      (o : Option (Option Str)) (payload : Option Str) (claims : Claims) (now : ℕ)
      → check_alg c secret o payload now ≡ ok claims
      → (o ≡ some (some (str "HS256"))) × (check_payload c secret payload now ≡ ok claims)
  check_alg-ok none payload claims now q = cc
  check_alg-ok (some none) payload claims now q = cc
  check_alg-ok (some (some a)) payload claims now q = elim (Bool-cases (str_eq a (str "HS256"))) [
    | inl same ↦ (ap (λ t. some (some t)) ((str_eq_iff a (str "HS256")).0 same), rw same at q)
    | inr other ↦ let q' = rw other at q in cc
  ]

  check_header-ok :
      (o payload : Option Str) (claims : Claims) (now : ℕ)
      → check_header c secret o payload now ≡ ok claims
      → ((json : Str) × (o ≡ some json) × (c.alg json ≡ some (some (str "HS256"))))
        × (check_payload c secret payload now ≡ ok claims)
  check_header-ok none payload claims now q = cc
  check_header-ok (some json) payload claims now q =
      let (read, later) = check_alg-ok (c.alg json) payload claims now q in
      ((json, refl, read), later)

  verify_parts-Accepted :
      (parts : List Str) (claims : Claims) (now : ℕ)
      → verify_parts c secret parts now ≡ ok claims
      → Accepted (join (b'.' ∷ []) parts) claims now
  unfolding verify_parts join
  verify_parts-Accepted [] claims now q = cc
  verify_parts-Accepted (h ∷ []) claims now q = cc
  verify_parts-Accepted (h ∷ p ∷ []) claims now q = cc
  verify_parts-Accepted (h ∷ p ∷ s ∷ t ∷ ts) claims now q = cc
  verify_parts-Accepted (h ∷ p ∷ s ∷ []) claims now q =
      elim (Bool-cases (str_eq s (sign_hs256 c secret (signing_input c secret h p)))) [
        | inr forged ↦ let q' = rw forged at q in cc
        | inl true_sig ↦
            let (algorithm, later) = check_header-ok _ _ claims now (rw true_sig at q) in
            let (content, fresh) = check_payload-ok _ claims now later in
            record {
              header = h;
              payload = p;
              spelled =
                  ap (λ x. h ++ b'.' ∷ (p ++ b'.' ∷ x)) ((str_eq_iff s _).0 true_sig)
                  ∙ sym (append_assoc h (b'.' ∷ p) _);
              algorithm = algorithm;
              content = content;
              fresh = fresh;
            }
      ]

  -- A token is verified only if it is signed under the secret, says HS256 and has not expired, and
  -- only to the claims that it holds.
  pub verify-Accepted :
      (token : Str) (claims : Claims) (now : ℕ)
      → verify c secret token now ≡ ok claims
      → Accepted token claims now
  unfolding verify
  verify-Accepted token claims now q = elim (Bool-cases (str_eq secret (str ""))) [
    | inl blank ↦ let q' = rw blank at q in cc
    | inr full ↦
        subst (λ t. Accepted t claims now) (join-split b'.' token)
          (verify_parts-Accepted (split b'.' token) claims now (rw full at q))
  ]

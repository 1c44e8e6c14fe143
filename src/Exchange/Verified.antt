-- ===== src/Exchange/Verified.antt =====
-- A subject token is accepted only under a signature key of its issuer.
use identity_api.Common.{
  String, ◌≡◌, ◌≢◌, Bool, true, not, ◌==◌, Option, none, some, List, arith, inl, inr, keep, find?,
  ◌&&◌, ◌∷◌, [], refl, subst, sym, ap, ◌∙◌, find?_sound, eq_iff, Option-cases,
}
use identity_api.Types.Users.{Claims}
use identity_api.Types.Issuers.{Cel, Issuer}
use identity_api.Types.Errors.{invalid_request}
use identity_api.Exec.{ok, Result-cases, fail_if, bind_run, map_err_run}
use identity_api.Platform.{Platform, IsDocumented, View}
use identity_api.Platform.Schema.{Tables}
use identity_api.Invariant.Exchanges.{IsOutside}
use identity_api.Exchange.Stored.{
  IsIssuer, Satisfies, IsMapping, get_issuer_jwks_uri_ok, eval_conditions_ok, map_claims_ok,
  view-eval_conditions, view-get_subject_claims,
}
use identity_api.Exchange.{Request, subject_of_request, token_type_jwt}
use identity_api.Exchange.Mapping.{
  JwtClaims, Jwt, Jwk, Token, found, Parsed, accepted, rejected, failed, eval_conditions,
  map_claims,
}
use identity_api.Exchange.Keys.{
  signature_key, get_issuer_jwks_uri, from_keys, from_uri, find_matching_key, parse_outcome,
  validate_jwt, get_subject_claims,
}
use identity_api.Exchange.Steps.{IsStandard}

find?-keep :
    {A : Type 0} (p q : A → Bool) (xs : List A) → find? p (keep q xs) ≡ find? (λ x. p x && q x) xs
unfolding find? keep
find?-keep p q [] = refl
find?-keep p q (x ∷ xs) = ground (arith, find?-keep p q xs)

-- The key that is chosen is the first one for signatures under the key id of the token.
signature_key-found :
    (kid : Option String) (keys : List Jwk) (key : Jwk)
    → signature_key kid keys ≡ found key
    → (find? (λ k. k.use_of == "sig" && k.key_id == key.key_id) keys ≡ some key)
      × (kid ≡ some key.key_id)
unfolding signature_key
signature_key-found none keys key h = ground arith
signature_key-found (some kid) keys key h =
    let chosen = find?-keep (λ (k : Jwk). k.use_of == "sig") (λ k. k.key_id == kid) keys in
    elim (Option-cases (find? (λ k. k.use_of == "sig") (keep (λ k. k.key_id == kid) keys))) [
      | inl e ↦ ground (arith, h, e)
      | inr (first, e) ↦
          let same : first ≡ key = ground (arith, h, e) in
          let here : find? (λ k. k.use_of == "sig" && k.key_id == kid) keys ≡ some key =
            sym chosen ∙ e ∙ ap some same in
          let sound =
            find?_sound (λ (k : Jwk). k.use_of == "sig" && k.key_id == kid) keys key here in
          let ids : kid ≡ key.key_id = ground (arith, sound, eq_iff key.key_id kid) in
          (
            ap (λ (s : String). find? (λ k. k.use_of == "sig" && k.key_id == s) keys) (sym ids)
                ∙ here,
            ap some ids,
          )
    ]

-- The token names its issuer, the tables have it, and the signature of the text verifies under the first
-- key for signatures that the issuer's JWKS URI gives under the token's key id.
abbrev pub IsVerified : (p : Platform) → Jwt p → Cel → Tables → String → Token → Type 0
IsVerified p j c t text token =
    (iss : Issuer c) × (key : Jwk) × (keys : List Jwk) × (w : p.World) × (token.claims.issuer ≢ "")
    × IsIssuer c t token.claims.issuer iss
    × ((j.resolve iss.jwksuri w).0 ≡ ok keys)
    × (find? (λ k. k.use_of == "sig" && k.key_id == key.key_id) keys ≡ some key)
    × (token.kid ≡ some key.key_id)
    × (j.verifies text key ≡ true)

module _ {p : Platform} (d : IsDocumented p) {j : Jwt p} (standard : IsStandard p j) (c : Cel) where
  find_matching_key-found :
      (text : String) (token : Token) (w : p.World) (key : Jwk)
      → (find_matching_key p j c token w).0 ≡ found key
      → j.verifies text key ≡ true
      → IsVerified p j c (p.view w).committed text token
  unfolding find_matching_key from_uri from_keys
  find_matching_key-found text token w key h verified =
      elim (Result-cases (get_issuer_jwks_uri p j c token.claims.issuer w).0) [
        | inr (f, e) ↦ ground (arith, h, e)
        | inl (uri, e) ↦
            let w1 = (get_issuer_jwks_uri p j c token.claims.issuer w).1 in
            let (iss, stored, here) = get_issuer_jwks_uri_ok d c j token.claims.issuer w uri e in
            elim (Result-cases (j.resolve uri w1).0) [
              | inr (f, r) ↦ ground (arith, h, e, r)
              | inl (keys, r) ↦
                  let chosen = signature_key-found token.kid keys key (ground (arith, h, e, r)) in
                  (
                    iss,
                    key,
                    keys,
                    w1,
                    ground (arith, h, eq_iff token.claims.issuer ""),
                    stored,
                    ap (λ (u : String). (j.resolve u w1).0) (sym here) ∙ r,
                    chosen.0,
                    chosen.1,
                    verified,
                  )
            ]
      ]

  -- A token that is validated is verified under a signature key of its issuer.
  validate_jwt-IsVerified :
      (text : String) (w : p.World) (token : Token)
      → (validate_jwt p j c text w).0 ≡ ok token
      → IsVerified p j c (p.view w).committed text token
  unfolding validate_jwt parse_outcome
  validate_jwt-IsVerified text w token h =
      let (key, w2, same, k, verified) =
        standard.parse_law text (find_matching_key p j c) w token (parsed_ok _ h) in
      subst (λ (v : View). IsVerified p j c v.committed text token) same
        (find_matching_key-found text token w2 key k verified)
    where
      parsed_ok : (r : Parsed) → parse_outcome p j c r ≡ ok token → r ≡ accepted token
      parsed_ok (accepted t) e = ground (arith, e)
      parsed_ok (rejected f) e = ground (arith, e)
      parsed_ok failed e = ground (arith, e)

  subject_claims-IsVerified :
      (text : String) (w : p.World) (claims : JwtClaims)
      → (get_subject_claims p j c text w).0 ≡ ok claims
      → (token : Token) × (token.claims ≡ claims) × IsVerified p j c (p.view w).committed text token
  unfolding get_subject_claims
  subject_claims-IsVerified text w claims h =
      let (token, e, _, same) = bind_run (validate_jwt p j c text) _ w claims h in
      (token, ground (arith, same), validate_jwt-IsVerified text w token e)

-- What a request whose claims are used has passed, in the tables at its start: no delegation, a JWT, a
-- verified token that states them, the conditions of its stored issuer, and that issuer's mapping.
abbrev pub IsChecked : (p : Platform) → Jwt p → Cel → Tables → Request → JwtClaims → Claims → Type 0
IsChecked p j c t req subject mapped =
    (token : Token) × (iss : Issuer c) × (req.actor_token ≡ "")
    × (req.subject_token_type ≡ "urn:ietf:params:oauth:token-type:jwt")
    × (token.claims ≡ subject)
    × IsVerified p j c t req.subject_token token
    × IsIssuer c t subject.issuer iss
    × Satisfies j c iss subject
    × IsMapping j c iss subject mapped

module _ {p : Platform} (d : IsDocumented p) {j : Jwt p} (standard : IsStandard p j)
    (o : IsOutside p j) (c : Cel) where
  -- The claims that an exchange goes by are those of a token, presented as a JWT and without an actor
  -- token, that names an issuer of the committed tables and whose signature verifies under the first
  -- signature key with the token's key id among the keys that are fetched from that issuer's JWKS URI.
  -- The issuer's conditions, where it has any, evaluate to true on them, and the mapped claims are what
  -- the expressions of its mapping evaluate to.
  pub subject_of_request-IsChecked :
      (req : Request) (w : p.World) (subject : JwtClaims) (mapped : Claims)
      → (subject_of_request p j c req w).0 ≡ ok (subject, mapped)
      → IsChecked p j c (p.view w).committed req subject mapped
  unfolding subject_of_request
  subject_of_request-IsChecked req w subject mapped h =
      let (_, _, _, h1) = bind_run (fail_if (req.subject_token == "") invalid_request) _ w _ h in
      let (_, _, _, h2) =
        bind_run (fail_if (req.subject_token_type == "") invalid_request) _ w _ h1 in
      let (_, a, _, h3) =
        bind_run (fail_if (not (req.actor_token == "")) invalid_request) _ w _ h2 in
      let jwt = req.subject_token_type == token_type_jwt in
      let (_, b, _, h4) = bind_run (fail_if (not jwt) invalid_request) _ w _ h3 in
      let get = get_subject_claims p j c req.subject_token in
      let (claims, e, _, h5) = bind_run get _ w _ h4 in
      let w1 = (get w).1 in
      let (satisfied, s, _, h6) = map_err_run _ (eval_conditions p j c claims) _ w1 _ h5 in
      let w2 = (eval_conditions p j c claims w1).1 in
      let (_, sat, _, h7) = bind_run (fail_if (not satisfied) invalid_request) _ w2 _ h6 in
      let (out, m, _, h8) = map_err_run _ (map_claims p j c claims) _ w2 _ h7 in
      let (token, same, verified) =
        subject_claims-IsVerified d standard c req.subject_token w claims e in
      let subject_same : claims ≡ subject = ground (arith, h8) in
      let start : p.view w1 ≡ p.view w = view-get_subject_claims d c j o req.subject_token w in
      let still : p.view w2 ≡ p.view w = view-eval_conditions d c j claims w1 ∙ start in
      let (iss, stored, holds) = eval_conditions_ok d c j claims w1 (ground (arith, s, sat)) in
      let (iss2, stored2, mapping) = map_claims_ok d c j claims w2 out m in
      let t = (p.view w).committed in
      let first : IsIssuer c t claims.issuer iss =
        subst (λ (v : View). IsIssuer c v.committed claims.issuer iss) start stored in
      let second : IsIssuer c t claims.issuer iss2 =
        subst (λ (v : View). IsIssuer c v.committed claims.issuer iss2) still stored2 in
      let one : iss2 ≡ iss = ground (arith, first, second) in
      let out_same : out ≡ mapped = ground (arith, h8) in
      (
        token,
        iss,
        ground (arith, a, eq_iff req.actor_token ""),
        ground (arith, b, eq_iff req.subject_token_type token_type_jwt),
        same ∙ subject_same,
        verified,
        subst (λ (x : JwtClaims). IsIssuer c t x.issuer iss) subject_same first,
        subst (λ (x : JwtClaims). Satisfies j c iss x) subject_same holds,
        subst (λ (i : Issuer c). IsMapping j c i subject mapped) one
            (subst (λ (x : JwtClaims). IsMapping j c iss2 x mapped) subject_same
              (subst (λ (m : Claims). IsMapping j c iss2 claims m) out_same mapping)),
      )

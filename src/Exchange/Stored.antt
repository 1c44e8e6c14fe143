-- ===== src/Exchange/Stored.antt =====
-- internal/rfc8693: what the issuer that is stored says of a token.
use identity_api.Common.{
  String, ◌≡◌, refl, ◌∙◌, arith, inl, inr, find?, Bool-cases, ◌==◌, some, none, Option, true,
}
use identity_api.Types.Users.{Claims, ClaimValue}
use identity_api.Types.Issuers.{Cel, Issuer, Conditions, each, entries_of}
use identity_api.Exec.{ok, Result-cases}
use identity_api.Exec.Keeps.{IsPreorder}
use identity_api.Platform.{Platform, IsDocumented}
use identity_api.Platform.Outcomes.{query_ok}
use identity_api.Platform.Schema.{Tables}
use identity_api.Storage.{background, query_row}
use identity_api.Storage.Issuers.{get_issuer_by_uri, scan_issuer}
use identity_api.Storage.Issuers.Sql.{select_issuer_by_uri, has_uri}
use identity_api.Exchange.Keys.{
  get_issuer_jwks_uri, find_matching_key, validate_jwt, get_subject_claims,
}
use identity_api.Exchange.Mapping.{
  JwtClaims, Jwt, Token, eval_condition, eval_conditions, bool_result, map_claims,
}
use identity_api.Invariant.Exchanges.{IsOutside, from_uri-view}

-- The issuer that the tables have under a URI.
abbrev pub IsIssuer : (c : Cel) → Tables → String → Issuer c → Type 0
IsIssuer c t uri iss = scan_issuer c (find? (has_uri uri) t.issuers) ≡ ok iss

-- The issuer's conditions evaluate to true on the claims, where it has any.
abbrev pub Satisfies : {p : Platform} (j : Jwt p) (c : Cel) → Issuer c → JwtClaims → Type 0
Satisfies j c iss claims =
    (ast : c.Ast)
    → iss.claim_conditions ≡ some (some ast)
    → c.eval ast (j.to_map claims) none ≡ ok (ClaimValue.truth true)

-- The claims are what the expressions of the issuer's mapping evaluate to, each under its name.
abbrev pub IsMapping : {p : Platform} (j : Jwt p) (c : Cel) → Issuer c → JwtClaims → Claims → Type 0
IsMapping j c iss claims mapped =
    (output : Claims) × (each c
        (λ ast. c.eval ast (j.to_map claims) (some (j.hex_digest claims.subject)))
        (entries_of c iss.claim_mappings)
      ≡ ok output)
    × (mapped ≡ j.to_map (j.from_map output))

abbrev SameView : (p : Platform) → p.World → p.World → Type 0
SameView p w w' = p.view w' ≡ p.view w

module _ {p : Platform} (d : IsDocumented p) (c : Cel) where
  get_issuer_by_uri_ok :
      (uri : String) (w : p.World) (iss : Issuer c)
      → (get_issuer_by_uri p c background uri w).0 ≡ ok iss
      → IsIssuer c (p.view w).committed uri iss
  unfolding get_issuer_by_uri query_row select_issuer_by_uri
  get_issuer_by_uri_ok uri w iss h =
      let st = select_issuer_by_uri uri in
      elim (Result-cases (p.query "" st w).0) [
        | inr (f, e) ↦ ground (arith, e, h)
        | inl (row, e) ↦
            let found = query_ok d "" st w row e in ground (arith, e, h, found, d.snapshot_now w)
      ]

  view-get_issuer_by_uri :
      (uri : String) (w : p.World) → p.view (get_issuer_by_uri p c background uri w).1 ≡ p.view w
  unfolding get_issuer_by_uri query_row
  view-get_issuer_by_uri uri w =
      let st = select_issuer_by_uri uri in
      elim (Result-cases (p.query "" st w).0) [
        | inr (f, e) ↦ ground (arith, e, d.query_view "" st w)
        | inl (row, e) ↦ ground (arith, e, d.query_view "" st w)
      ]

  module _ (j : Jwt p) where
    -- The URI of the keys is that of the stored issuer.
    pub get_issuer_jwks_uri_ok :
        (iss : String) (w : p.World) (uri : String)
        → (get_issuer_jwks_uri p j c iss w).0 ≡ ok uri
        → (issuer : Issuer c) × IsIssuer c (p.view w).committed iss issuer × (uri ≡ issuer.jwksuri)
    unfolding get_issuer_jwks_uri
    get_issuer_jwks_uri_ok iss w uri h =
        elim (Result-cases (get_issuer_by_uri p c background iss w).0) [
          | inr (f, e) ↦ ground (arith, e, h)
          | inl (issuer, e) ↦ (issuer, get_issuer_by_uri_ok iss w issuer e, ground (arith, e, h))
        ]

    view-get_issuer_jwks_uri :
        (iss : String) (w : p.World) → p.view (get_issuer_jwks_uri p j c iss w).1 ≡ p.view w
    unfolding get_issuer_jwks_uri
    view-get_issuer_jwks_uri iss w =
        elim (Result-cases (get_issuer_by_uri p c background iss w).0) [
          | inr (f, e) ↦ ground (arith, e, view-get_issuer_by_uri iss w)
          | inl (issuer, e) ↦ ground (arith, e, view-get_issuer_by_uri iss w)
        ]

    pub eval_conditions_ok :
        (claims : JwtClaims) (w : p.World)
        → (eval_conditions p j c claims w).0 ≡ ok true
        → (iss : Issuer c) × IsIssuer c (p.view w).committed claims.issuer iss
          × Satisfies j c iss claims
    unfolding eval_conditions eval_condition bool_result
    eval_conditions_ok claims w h =
        elim (Result-cases (get_issuer_by_uri p c background claims.issuer w).0) [
          | inr (f, e) ↦ ground (arith, e, h)
          | inl (iss, e) ↦ (
            iss,
            get_issuer_by_uri_ok claims.issuer w iss e,
            λ ast some_of. elim (Result-cases (c.eval ast (j.to_map claims) none)) [
              | inr (f, r) ↦ ground (arith, e, h, some_of, r)
              | inl (value, r) ↦ ground (arith, e, h, some_of, r, truth_of value)
            ],
          )
        ]
      where
        truth_of : (v : ClaimValue) → bool_result p j c v ≡ ok true → v ≡ ClaimValue.truth true
        truth_of (ClaimValue.truth b) h = ground (arith, h)
        truth_of (ClaimValue.text s) h = ground (arith, h)
        truth_of ClaimValue.null h = ground (arith, h)
        truth_of ClaimValue.other h = ground (arith, h)

    view-eval_condition :
        (cs : Option (Conditions c)) (claims : JwtClaims) (w : p.World)
        → (eval_condition p j c claims cs w).1 ≡ w
    unfolding eval_condition
    view-eval_condition none claims w = refl
    view-eval_condition (some none) claims w = refl
    view-eval_condition (some (some ast)) claims w =
        elim (Result-cases (c.eval ast (j.to_map claims) none)) [
          | inr (f, e) ↦ ground (arith, e)
          | inl (v, e) ↦ ground (arith, e)
        ]

    pub view-eval_conditions :
        (claims : JwtClaims) (w : p.World) → p.view (eval_conditions p j c claims w).1 ≡ p.view w
    unfolding eval_conditions
    view-eval_conditions claims w =
        elim (Result-cases (get_issuer_by_uri p c background claims.issuer w).0) [
          | inr (f, e) ↦ ground (arith, e, view-get_issuer_by_uri claims.issuer w)
          | inl (iss, e) ↦ ground (
            arith,
            e,
            view-get_issuer_by_uri claims.issuer w,
            view-eval_condition iss.claim_conditions claims
                (get_issuer_by_uri p c background claims.issuer w).1,
          )
        ]

    pub map_claims_ok :
        (claims : JwtClaims) (w : p.World) (mapped : Claims)
        → (map_claims p j c claims w).0 ≡ ok mapped
        → (iss : Issuer c) × IsIssuer c (p.view w).committed claims.issuer iss
          × IsMapping j c iss claims mapped
    unfolding map_claims
    map_claims_ok claims w mapped h =
        elim (Result-cases (get_issuer_by_uri p c background claims.issuer w).0) [
          | inr (f, e) ↦ ground (arith, e, h)
          | inl (iss, e) ↦
              let run =
                each c (λ ast. c.eval ast (j.to_map claims) (some (j.hex_digest claims.subject)))
                  (entries_of c iss.claim_mappings) in
              elim (Result-cases run) [
                | inr (f, r) ↦ ground (arith, e, h, r)
                | inl (output, r) ↦ (
                  iss,
                  get_issuer_by_uri_ok claims.issuer w iss e,
                  (output, r, ground (arith, e, h, r)),
                )
              ]
        ]

    module _ (o : IsOutside p j) where
      view-find_matching_key :
          (t : Token) (w : p.World) → SameView p w (find_matching_key p j c t w).1
      unfolding find_matching_key
      view-find_matching_key t w =
          let uri = get_issuer_jwks_uri p j c t.claims.issuer w in
          elim (Bool-cases (t.claims.issuer == "")) [
            | inl e ↦ ground (arith, e)
            | inr e ↦
                rw e
                  (from_uri-view o c t.kid uri.0 uri.1 ∙ view-get_issuer_jwks_uri t.claims.issuer w)
          ]

      pub view-get_subject_claims :
          (text : String) (w : p.World) → p.view (get_subject_claims p j c text w).1 ≡ p.view w
      unfolding get_subject_claims validate_jwt
      view-get_subject_claims text w =
          let same : IsPreorder (SameView p) = record {
            stays = λ w. refl;
            trans = λ a b c h k. k ∙ h;
          } in
          let parsed =
            o.parse_by_keys (SameView p) same text (find_matching_key p j c) view-find_matching_key
              w in
          elim (Result-cases (validate_jwt p j c text w).0) [
            | inr (f, e) ↦ ground (arith, e, parsed)
            | inl (token, e) ↦ ground (arith, e, parsed)
          ]

-- ===== src/Invariant/Exchanges.antt =====
-- internal/rfc8693 and the seeding of internal/storage: a token exchange and a seeding keep an
-- invariant, however they end.
use identity_api.Common.{
  ℕ, String, Option, some, none, List, [], ◌∷◌, ◌≡◌, refl, ◌==◌, inl, inr, Bool-cases,
}
use identity_api.Types.Issuers.{Cel, Conditions}
use identity_api.Types.Users.{UserInfo, Claims}
use identity_api.Exec.{Result, ok, err}
use identity_api.Exec.Keeps.{Keeps, IsPreorder, Keeps-lift, Keeps-bind}
use identity_api.Platform.{Platform, IsDocumented, View}
use identity_api.Storage.{Ctx}
use identity_api.Storage.Seed.{SeedIssuer, insert_seeds, seed_database}
use identity_api.Exchange.{
  Request, populate_user_info, store_or_rollback, new_session, subject_of_request,
  handle_token_endpoint_request,
}
use identity_api.Exchange.Keys.{
  get_issuer_jwks_uri, find_matching_key, from_uri, from_keys, validate_jwt, get_subject_claims,
}
use identity_api.Exchange.Mapping.{
  JwtClaims, Jwt, Jwk, Token, Key, map_claims, eval_condition, eval_conditions,
}
use identity_api.Invariant.{Stays, IsInvariant, kept_preorder, same_view}
use identity_api.Invariant.Services.{
  kept-begin_tx_context, kept-commit_context_tx, kept-insert_issuer, service_rules,
}

-- What the token exchange calls outside the repository touches the tables at most through the key
-- function that it is given.
pub record IsOutside (p : Platform) (j : Jwt p) : Type 1 where
  pub parse_by_keys :
      (R : p.World → p.World → Type 0)
      → IsPreorder R
      → (text : String) (keyfunc : Token → p.World → Key × p.World)
      → ((t : Token) (w : p.World) → R w (keyfunc t w).1)
      → (w : p.World) → R w (j.parse text keyfunc w).1
  pub resolve_view : (uri : String) (w : p.World) → p.view (j.resolve uri w).1 ≡ p.view w
  pub expiry_view : (w : p.World) → p.view (j.expiry w).1 ≡ p.view w

module _ {p : Platform} {j : Jwt p} (o : IsOutside p j) (c : Cel) where
  from_keys-world :
      (kid : Option String) (keys : Result (List Jwk)) (w : p.World)
      → (from_keys p j c kid keys w).1 ≡ w
  unfolding from_keys
  from_keys-world kid (ok keys) w = refl
  from_keys-world kid (err e) w = refl

  pub from_uri-view :
      (kid : Option String) (uri : Result String) (w : p.World)
      → p.view (from_uri p j c kid uri w).1 ≡ p.view w
  unfolding from_uri
  from_uri-view kid (ok uri) w =
      let keys = j.resolve uri w in rw (from_keys-world kid keys.0 keys.1) (o.resolve_view uri w)
  from_uri-view kid (err e) w = refl

module _ {p : Platform} (d : IsDocumented p) {I : View → Type 0} (inv : IsInvariant I) {j : Jwt p}
    (o : IsOutside p j) (c : Cel) where
  kept-get_issuer_jwks_uri : (iss : String) → Keeps (Stays I p) (get_issuer_jwks_uri p j c iss)
  unfolding get_issuer_jwks_uri
  kept-get_issuer_jwks_uri iss = search service_rules

  kept-find_matching_key : (t : Token) (w : p.World) → Stays I p w (find_matching_key p j c t w).1
  unfolding find_matching_key
  kept-find_matching_key t w = elim (Bool-cases (t.claims.issuer == "")) [
    | inl e ↦ rw e (record { holds = λ h. h })
    | inr e ↦
        let uri = get_issuer_jwks_uri p j c t.claims.issuer w in
        rw e (record {
          holds = λ h.
              same_view I (from_uri-view o c t.kid uri.0 uri.1)
                (((kept-get_issuer_jwks_uri t.claims.issuer).at w).holds h);
        })
  ]

  kept-validate_jwt : (text : String) → Keeps (Stays I p) (validate_jwt p j c text)
  unfolding validate_jwt
  kept-validate_jwt text = record {
    at =
        o.parse_by_keys (Stays I p) (kept_preorder d) text (find_matching_key p j c)
          kept-find_matching_key;
  }

  kept-map_claims : (claims : JwtClaims) → Keeps (Stays I p) (map_claims p j c claims)
  unfolding map_claims
  kept-map_claims claims = search service_rules depth 9

  kept-eval_condition :
      (claims : JwtClaims) (cs : Option (Conditions c))
      → Keeps (Stays I p) (eval_condition p j c claims cs)
  unfolding eval_condition
  kept-eval_condition claims none = search service_rules
  kept-eval_condition claims (some none) = search service_rules
  kept-eval_condition claims (some (some ast)) = search service_rules

  kept-get_subject_claims : (text : String) → Keeps (Stays I p) (get_subject_claims p j c text)
  unfolding get_subject_claims
  kept-get_subject_claims text = search (service_rules, kept-validate_jwt)

  kept-eval_conditions : (claims : JwtClaims) → Keeps (Stays I p) (eval_conditions p j c claims)
  unfolding eval_conditions
  kept-eval_conditions claims = search (service_rules, kept-eval_condition)

  kept-subject_of_request : (req : Request) → Keeps (Stays I p) (subject_of_request p j c req)
  unfolding subject_of_request
  kept-subject_of_request req =
      search (service_rules, kept-get_subject_claims, kept-eval_conditions, kept-map_claims) depth
        12

  kept-populate_user_info :
      (ctx : Ctx) (claims : JwtClaims) → Keeps (Stays I p) (populate_user_info p j ctx claims)
  unfolding populate_user_info
  kept-populate_user_info ctx claims = search service_rules depth 9

  kept-store_or_rollback :
      (ctx : Ctx) (u : UserInfo) → Keeps (Stays I p) (store_or_rollback p j ctx u)
  unfolding store_or_rollback
  kept-store_or_rollback ctx u = search service_rules depth 9

  kept-expiry : Keeps {A = ℕ} (Stays I p) (λ w. (ok (j.expiry w).0, (j.expiry w).1))
  kept-expiry = record { at = λ w. record { holds = same_view I (o.expiry_view w) } }

  kept-new_session :
      (req : Request) (claims : JwtClaims) (mapped : Claims) (u : UserInfo)
      → Keeps (Stays I p) (new_session p j req claims mapped u)
  unfolding new_session
  kept-new_session req claims mapped u = search (service_rules, kept-expiry) depth 9

  pub kept-exchange : (req : Request) → Keeps (Stays I p) (handle_token_endpoint_request p j c req)
  unfolding handle_token_endpoint_request
  kept-exchange req =
      search
        (
          service_rules, kept-begin_tx_context, kept-commit_context_tx, kept-subject_of_request,
          kept-populate_user_info, kept-store_or_rollback, kept-new_session,
        )
        depth 12

module _ {p : Platform} (d : IsDocumented p) {I : View → Type 0} (inv : IsInvariant I)
    (c : Cel) where
  kept-insert_seeds :
      (ctx : Ctx) (seeds : List SeedIssuer) → Keeps (Stays I p) (insert_seeds p c ctx seeds)
  unfolding insert_seeds
  kept-insert_seeds ctx [] = search service_rules
  kept-insert_seeds ctx (seed ∷ seeds) =
      let pre = kept_preorder d in
      Keeps-bind pre _ _ (Keeps-lift pre _) λ iss.
        Keeps-bind pre _ _ (kept-insert_issuer d inv c ctx iss) λ _. kept-insert_seeds ctx seeds

  pub kept-seed_database : (seeds : List SeedIssuer) → Keeps (Stays I p) (seed_database p c seeds)
  unfolding seed_database
  kept-seed_database seeds =
      search (service_rules, kept-begin_tx_context, kept-commit_context_tx, kept-insert_seeds) depth
        9

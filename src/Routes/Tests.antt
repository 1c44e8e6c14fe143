-- ===== src/Routes/Tests.antt =====
-- The theorem on the published keys at a concrete configuration: only the RSA key is published.
use identity_api.Common.{◌==◌, any, ◌==◌, ◌||◌, String, ◌≡◌, refl, Bool, true, false, some, [], ◌∷◌}
use identity_api.Sandbox.Files.{files, two_keys, new_key, old_key, reads_two_keys}
use identity_api.Signing.{RawKey, asymmetric, symmetric}
use identity_api.Routes.{Jose, published, outcome_denied, outcome_succeeded, get_outcome}
use identity_api.Routes.Token.{
  AuditContext, set_subject, set_outcome, audited_outcome, TokenError, refused, answered, Provider,
  Written, set_subject_of, set_context_from_error, after_request, handle_token, fresh,
}
use identity_api.Routes.Skips.{
  router_routes, skips_auth, multi_skipper, skip_no_auth_routes, skips_auth-router_routes,
}
use identity_api.Routes.Published.{HasPublicKeys, ArePublished, published-parse_private_keys}

abbrev public_of : RawKey String → RawKey String
public_of (asymmetric signer) = asymmetric "public"
public_of (symmetric bytes) = symmetric ""

abbrev has_key : RawKey String → Bool
has_key (asymmetric signer) = true
has_key (symmetric bytes) = false

abbrev is_public_key : RawKey String → Bool
is_public_key (asymmetric signer) = signer == "public"
is_public_key (symmetric bytes) = false

abbrev keys : Jose String
keys = record { public = λ s. record s { key = public_of s.key }; valid = λ s. has_key s.key }

abbrev keys-HasPublicKeys : HasPublicKeys keys
keys-HasPublicKeys = record {
  is_public = λ s. is_public_key s.key;
  asymmetric_law = λ signer id algorithm. (refl, refl, refl);
  symmetric_law = λ bytes id algorithm. refl;
}

published-parse_private_keys_example :
    ArePublished keys keys-HasPublicKeys two_keys
      (new_key ∷ old_key ∷ [])
      (published keys (new_key ∷ old_key ∷ []))
published-parse_private_keys_example =
    published-parse_private_keys files keys-HasPublicKeys two_keys tt new_key
      (new_key ∷ old_key ∷ []) reads_two_keys

-- A token that is refused with 401, and whose subject the error names.
abbrev ann_refused : TokenError
ann_refused = record { status = some 401; subject = some (("sub", "ann") ∷ []) }

abbrev refusing : Provider (Unit {0})
refusing = record {
  AccessRequest = String;
  AccessResponse = String;
  new_access_request = λ w. (refused ann_refused, w);
  new_access_response = λ request w. (answered request, w);
}

abbrev audited : (Written String × AuditContext) × Unit {0}
audited = handle_token refusing fresh tt

-- The refusal is audited as denied, for the subject that was refused.
denied : audited_outcome outcome_succeeded audited.0.1 ≡ outcome_denied
unfolding handle_token after_request set_context_from_error set_outcome set_subject_of set_subject
    audited_outcome get_outcome
denied = refl

abbrev health : String → Bool
health path = path == "/livez"

skips_auth-router_routes_example :
    skips_auth health "/api/v1/groups"
    ≡ (health "/api/v1/groups" || any (λ r. r.1 == "/api/v1/groups") router_routes)
skips_auth-router_routes_example = skips_auth-router_routes health "/api/v1/groups"

groups_need_a_token : skips_auth health "/api/v1/groups" ≡ false
unfolding skips_auth multi_skipper skip_no_auth_routes
groups_need_a_token = refl

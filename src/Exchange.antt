-- ===== src/Exchange.antt =====
-- internal/rfc8693: the token exchange grant, RFC 8693.
pub mod Mapping
pub mod Keys
pub mod Steps
pub mod Verified
pub mod Stored
pub mod Issued
pub mod Response
mod Tests
use Prim.Native.String
use identity_api.Common.{
  ℕ, String, Bool, true, false, not, ◌&&◌, Option, none, some, List, [], ◌∷◌, map, keep, ◌==◌,
  if◌then◌else◌,
}
use identity_api.Types.{PrefixedId}
use identity_api.Types.Users.{UserInfo, Claims, ClaimValue, claim}
use identity_api.Types.Issuers.{Cel}
use identity_api.Types.Errors.{
  Error, invalid_request, server_error, unknown_request, is_user_info_not_found, panic, external,
}
use identity_api.Exec.{
  Result, ok, err, Exec, pure, fail, lift, fail_if, map_err, branch, ◌>>=◌, ◌>>◌,
}
use identity_api.Platform.{Platform}
use identity_api.Storage.{Ctx, background, begin_tx_context, commit_context_tx, rollback_context_tx}
use identity_api.Storage.Users.{
  lookup_user_info_by_claims, parse_user_info_from_claims, store_user_info, user_id_prefix,
}
use Mapping.{JwtClaims, Jwt, eval_conditions, map_claims}
use Keys.{get_subject_claims}

abbrev pub token_type_jwt : String
token_type_jwt = "urn:ietf:params:oauth:token-type:jwt"

abbrev pub sub_override : String
sub_override = "identity-api.infratographer.com/sub"

abbrev pub claim_client_id : String
claim_client_id = "client_id"

-- The session that fosite has attached to the request.
pub data ReqSession : Type 0 where
  no_session jwt_session other_session : ReqSession

-- What the handler reads of a fosite.AccessRequester.
pub record Request : Type 0 where
  pub subject_token : String
  pub subject_token_type : String
  pub actor_token : String
  pub client_id : String
  pub session : ReqSession

-- What the handler sets in the session and grants to the request.
pub record Session : Type 0 where
  pub kid : String
  pub claims : JwtClaims
  pub expires_at : ℕ
  pub subject : String
  pub audience : String

-- `mappedSubjectClaim`: the mapped `sub`, if it is a string, in place of the token's subject
unfoldable pub with_mapped_subject : JwtClaims → Option ClaimValue → JwtClaims
with_mapped_subject claims (some (ClaimValue.text s)) = record claims { subject = s }
with_mapped_subject claims _ = claims

-- Every mapped claim but the override, then the client id: the claims that are added.
unfoldable pub added_claims : Claims → String → Claims
added_claims mapped client_id =
    (claim_client_id, if client_id == "" then ClaimValue.other else ClaimValue.text client_id)
    ∷ keep (λ kv. not (kv.0 == sub_override)) mapped

module _ (p : Platform) (j : Jwt p) where
  -- `populateUserInfo`
  unfoldable pub populate_user_info : Ctx → JwtClaims → Exec p.World UserInfo
  populate_user_info ctx claims =
      branch (lookup_user_info_by_claims p ctx claims.issuer claims.subject) pure (λ e.
        if is_user_info_not_found e
        then lift (parse_user_info_from_claims (j.to_map claims))
        else fail e)

  -- The id that the override asks for. `subOverride.(string)` panics on a value of another type.
  unfoldable pub override_id : Option ClaimValue → UserInfo → Result UserInfo
  override_id none u = ok u
  override_id (some (ClaimValue.text s)) u =
      let id =
        String.◌++◌ user_id_prefix
          (String.◌++◌ "-" (String.◌++◌ (p.digest u.issuer) (String.◌++◌ "-" s))) in
      if s == ""
      then ok u
      else if p.valid_id id
      then ok (record u { id = id })
      else err server_error
  override_id (some ClaimValue.null) u = ok u
  override_id (some (ClaimValue.truth b)) u = err panic
  override_id (some ClaimValue.other) u = err panic

  unfoldable pub store_or_rollback : Ctx → UserInfo → Exec p.World UserInfo
  store_or_rollback ctx u = branch (store_user_info p ctx u) pure (λ _.
      branch (rollback_context_tx p ctx) (λ _. fail invalid_request) (λ _. fail invalid_request))

  unfoldable pub is_other : ReqSession → Bool
  is_other other_session = true
  is_other _ = false

  -- What follows the commit: the claims of the new token and the session.
  unfoldable pub new_session : Request → JwtClaims → Claims → UserInfo → Exec p.World Session
  unfolding is_other
  new_session req claims mapped user = do
    expiry ← λ w. (ok (j.expiry w).0, (j.expiry w).1)
    fail_if (is_other req.session) server_error
    audience ← map_err (λ _. server_error) (lift (j.join_path j.access_token_issuer "userinfo"))
    pure (record {
      kid = j.signing_kid;
      claims = record {
        subject = user.id;
        issuer = j.access_token_issuer;
        extra = added_claims mapped req.client_id;
      };
      expires_at = expiry;
      subject = claims.subject;
      audience = audience;
    })

module _ (p : Platform) (j : Jwt p) (c : Cel) where
  -- `HandleTokenEndpointRequest` up to the mapped claims: nothing is written.
  unfoldable pub subject_of_request : Request → Exec p.World (JwtClaims × Claims)
  subject_of_request req = do
    fail_if (req.subject_token == "") invalid_request
    fail_if (req.subject_token_type == "") invalid_request
    fail_if (not (req.actor_token == "")) invalid_request
    fail_if (not (req.subject_token_type == token_type_jwt)) invalid_request
    claims ← get_subject_claims p j c req.subject_token
    satisfied ← map_err (λ _. invalid_request) (eval_conditions p j c claims)
    fail_if (not satisfied) invalid_request
    mapped ← map_err (λ _. invalid_request) (map_claims p j c claims)
    pure (claims, mapped)

  unfoldable pub handle_token_endpoint_request : Request → Exec p.World Session
  handle_token_endpoint_request req = do
    subject ← subject_of_request req
    ctx ← map_err (λ _. server_error) (begin_tx_context p)
    found ←
        map_err (λ _. invalid_request)
          (populate_user_info p j ctx (with_mapped_subject subject.0 (claim "sub" subject.1)))
    user ← lift (override_id p j (claim sub_override subject.1) found)
    stored ← store_or_rollback p j ctx user
    map_err (λ _. server_error) (commit_context_tx p ctx)
    new_session p j req subject.0 subject.1 stored

-- ===== src/Credentials.antt =====
-- internal/oauth2/flow_client_credentials.go: the client credentials grant. What it calls of fosite and
-- of the configuration is in `Config`.
pub mod Granted
pub mod Exclusive
mod Tests
use identity_api.Common.{
  ℕ, ◌+◌, String, Bool, true, false, not, List, [], ◌∷◌, ◌++◌, ◌==◌, if◌then◌else◌,
}
use identity_api.Types.{PrefixedId}
use identity_api.Types.Users.{Claims, ClaimValue}
use identity_api.Types.Clients.{OAuthClient, get_audience, get_id, is_public}
use identity_api.Types.Errors.{Error, invalid_grant, unknown_request, panic, external}
use identity_api.Exec.{Result, ok, err, Exec, pure, fail, lift, fail_if, ◌>>=◌, ◌>>◌}
use identity_api.Platform.{Platform}
use identity_api.Exchange.{ReqSession, no_session, jwt_session, other_session, claim_client_id}

-- What the handler reads of a fosite.AccessRequester.
pub record Request : Type 0 where
  pub client : OAuthClient
  -- GetRequestForm()["resource"]
  pub resources : List String
  pub grant_types : List String
  pub session : ReqSession
  -- the audience granted so far
  pub granted : List String

pub record Config (p : Platform) : Type 0 where
  -- GetAudienceStrategy: what the client may ask for, and what is asked for
  pub audience_strategy : List String → List String → Result (Unit {0})
  -- fosite.GetEffectiveLifespan, of an access token
  pub effective_lifespan : OAuthClient → ℕ
  -- AccessRequester.GrantAudience, on the audiences granted so far
  pub grant_audience : List String → String → List String
  pub signing_key_id : String
  -- time.Now
  pub now : p.World → ℕ × p.World
  -- HandleHelper.IssueAccessToken
  pub issue_access_token : ℕ → Request → Exec p.World String

-- What the handler sets in the session.
pub record Session : Type 0 where
  pub kid : String
  pub claims : Claims
  pub expires_at : ℕ
  pub subject : String

-- `request.GrantAudience(aud)`, for each
unfoldable pub grant_audiences :
    (List String → String → List String) → List String → List String → List String
grant_audiences grant granted [] = granted
grant_audiences grant granted (aud ∷ auds) = grant_audiences grant (grant granted aud) auds

-- `.(*oauth2.JWTSession)`
unfoldable pub is_jwt_session : ReqSession → Bool
is_jwt_session jwt_session = true
is_jwt_session no_session = false
is_jwt_session other_session = false

-- GetGrantTypes().ExactOne("client_credentials")
unfoldable pub can_handle_token_endpoint_request : Request → Bool
can_handle_token_endpoint_request req = elim req.grant_types [
  | [] ↦ false
  | grant ∷ others ↦ elim others [ [] ↦ grant == "client_credentials" | _ ∷ _ ↦ false ]
]

unfoldable pub can_skip_client_auth : Request → Bool
can_skip_client_auth req = false

module _ (p : Platform) (cfg : Config p) where
  -- The session, and the audience of the request after it.
  unfoldable pub handle_token_endpoint_request : Request → Exec p.World (Session × List String)
  unfolding get_audience get_id is_public grant_audiences is_jwt_session
  handle_token_endpoint_request req = do
    fail_if (is_public req.client) invalid_grant
    lift (cfg.audience_strategy (get_audience req.client) req.resources)
    fail_if (not (is_jwt_session req.session)) panic
    fail_if (not (p.valid_id (get_id req.client))) (external 1)
    time ← λ w. (ok (cfg.now w).0, (cfg.now w).1)
    pure (
      record {
        kid = cfg.signing_key_id;
        claims = (claim_client_id, ClaimValue.text (get_id req.client)) ∷ [];
        expires_at = time + cfg.effective_lifespan req.client;
        subject = get_id req.client;
      },
      grant_audiences cfg.grant_audience req.granted req.resources,
    )

  unfoldable pub populate_token_endpoint_response : Request → Exec p.World (Unit {0})
  unfolding can_handle_token_endpoint_request
  populate_token_endpoint_response req = do
    fail_if (not (can_handle_token_endpoint_request req)) unknown_request
    cfg.issue_access_token (cfg.effective_lifespan req.client) req
    pure tt

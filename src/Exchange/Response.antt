-- ===== src/Exchange/Response.antt =====
-- internal/rfc8693/rfc8693.go: the response of a token exchange.
use identity_api.Common.{ℕ, String, Bool, true, false, not, List, [], ◌∷◌, ◌==◌}
use identity_api.Types.Errors.{unknown_request}
use identity_api.Exec.{Exec, pure, fail_if, ◌>>=◌, ◌>>◌}
use identity_api.Exchange.{token_type_jwt}

abbrev pub grant_type_token_exchange : String
grant_type_token_exchange = "urn:ietf:params:oauth:grant-type:token-exchange"

-- What is set in a fosite.AccessResponder.
pub record TokenResponse : Type 0 where
  pub access_token : String
  pub issued_token_type : String
  pub token_type : String
  pub expires_in : ℕ

-- GetGrantTypes().ExactOne(GrantTypeTokenExchange)
unfoldable pub can_exchange : List String → Bool
can_exchange [] = false
can_exchange (grant ∷ []) = grant == grant_type_token_exchange
can_exchange (grant ∷ other ∷ others) = false

unfoldable pub can_skip_auth : List String → Bool
can_skip_auth grant_types = true

-- `generate` is GenerateAccessToken, and `lifespan` what the configuration says.
module _ {W : Type 0} (generate : Exec W String) (lifespan : ℕ) where
  unfoldable pub populate_response : List String → Exec W TokenResponse
  unfolding can_exchange
  populate_response grant_types = do
    fail_if (not (can_exchange grant_types)) unknown_request
    token ← generate
    pure (record {
      access_token = token;
      issued_token_type = token_type_jwt;
      token_type = "bearer";
      expires_in = lifespan;
    })

-- ===== src/Routes.antt =====
-- internal/routes: the key set that is published (jwks.go), the discovery document (oidc.go), and the
-- outcome that is audited (exchange.go).
pub mod Published
pub mod Token
pub mod Skips
mod Tests
use identity_api.Common.{
  ℕ, String, Bool, ◌&&◌, Option, none, some, List, [], ◌∷◌, leb, ltb, if◌then◌else◌,
}
use identity_api.Types.Errors.{Error, http}
use identity_api.Exec.{Result, ok, err}
use identity_api.Signing.{SigningKey}

-- auditevent's outcomes
pub data Outcome : Type 0 where
  outcome_failed outcome_denied outcome_succeeded : Outcome

-- `status` is the status of fosite.ErrorToRFC6749Error, if it is not nil.
unfoldable pub get_outcome : Option ℕ → Outcome
get_outcome none = outcome_failed
get_outcome (some status) =
    if leb 400 status && ltb status 500
    then outcome_denied
    else if leb 500 status
    then outcome_failed
    else outcome_succeeded

-- jose.JSONWebKey of github.com/go-jose/go-jose: Public and Valid. A key
-- of either kind has the same type, that of a signing key.
pub record Jose (S : Type 0) : Type 0 where
  pub public : SigningKey S → SigningKey S
  pub valid : SigningKey S → Bool

module _ {S : Type 0} (j : Jose S) where
  -- The handler's loop.
  unfoldable pub published : List (SigningKey S) → List (SigningKey S)
  published [] = []
  published (key ∷ keys) =
      let rest = published keys in if j.valid (j.public key) then j.public key ∷ rest else rest

-- What the discovery document says (oidc.go). `join` is url.Parse of the issuer, then JoinPath.
pub record ProviderJson : Type 0 where
  pub issuer : String
  pub token_url : String
  pub jwks_url : String
  pub user_info_url : String

unfoldable pub provider_json : (String → Result (String → String)) → String → Result ProviderJson
provider_json join issuer = elim (join issuer) [
  | err e ↦ err (http 500)
  | ok path ↦ ok (record {
    issuer = issuer;
    token_url = path "/token";
    jwks_url = path "/jwks.json";
    user_info_url = path "/userinfo";
  })
]

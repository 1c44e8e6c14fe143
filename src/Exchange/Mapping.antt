-- ===== src/Exchange/Mapping.antt =====
-- internal/rfc8693/claims.go: conditions on the claims of a subject token, and their mapping.
use identity_api.Common.{ℕ, String, Bool, true, ◌==◌, Option, none, some, List}
use identity_api.Types.Users.{Claims, ClaimValue}
use identity_api.Types.Issuers.{Cel, Conditions, entries_of, each}
use identity_api.Types.Errors.{missing_sub, missing_iss, invalid_claim_condition}
use identity_api.Exec.{Result, ok, err, Exec, pure, lift, fail_if, ◌>>=◌, ◌>>◌}
use identity_api.Platform.{Platform}
use identity_api.Storage.{background}
use identity_api.Storage.Issuers.{get_issuer_by_uri}

-- The fields of fosite's jwt.JWTClaims that the code reads or sets.
pub record JwtClaims : Type 0 where
  pub subject : String
  pub issuer : String
  pub extra : Claims

-- What the code reads of a parsed token: its claims, and the header `kid` if it is a string.
pub record Token : Type 0 where
  pub claims : JwtClaims
  pub kid : Option String

-- The key id and the use of a jose.JSONWebKey.
pub record Jwk : Type 0 where
  pub key_id : String
  pub use_of : String

-- The codes of jwt.ValidationError.
pub data ValidationError : Type 0 where
  bad_issuer unverifiable malformed signature_invalid : ValidationError
  otherwise : ℕ → ValidationError

pub data Key : Type 0 where
  found : Jwk → Key
  no_key : ValidationError → Key

-- What jwt.Parse reports.
pub data Parsed : Type 0 where
  accepted : Token → Parsed
  rejected : ValidationError → Parsed
  failed : Parsed

-- What the code takes from fosite, go-jose, net/url and the configuration.
pub record Jwt (p : Platform) : Type 0 where
  -- jwt.Parse: reads a token, asks for its key and verifies it
  pub parse : String → (Token → p.World → Key × p.World) → p.World → Parsed × p.World
  -- the signature of the token verifies under the key
  pub verifies : String → Jwk → Bool
  -- JWKSFetcherStrategy.Resolve
  pub resolve : String → Exec p.World (List Jwk)
  -- JWTClaims.ToMapClaims and FromMap
  pub to_map : JwtClaims → Claims
  pub from_map : Claims → JwtClaims
  -- the hexadecimal sha256.Sum256
  pub hex_digest : String → String
  -- url.JoinPath
  pub join_path : String → String → Result String
  pub access_token_issuer : String
  pub signing_kid : String
  -- time.Now() plus the lifespan of an access token
  pub expiry : p.World → ℕ × p.World

module _ (p : Platform) (j : Jwt p) (c : Cel) where
  -- The expressions of the mapping, each evaluated over the claims.
  unfoldable pub map_claims : JwtClaims → Exec p.World Claims
  map_claims claims = do
    fail_if (claims.subject == "") missing_sub
    fail_if (claims.issuer == "") missing_iss
    issuer ← get_issuer_by_uri p c background claims.issuer
    output ← lift (
        each c (λ ast. c.eval ast (j.to_map claims) (some (j.hex_digest claims.subject)))
          (entries_of c issuer.claim_mappings))
    pure (j.to_map (j.from_map output))

  -- `res.Value().(bool)`
  unfoldable pub bool_result : ClaimValue → Result Bool
  bool_result (ClaimValue.truth b) = ok b
  bool_result (ClaimValue.text s) = err invalid_claim_condition
  bool_result ClaimValue.null = err invalid_claim_condition
  bool_result ClaimValue.other = err invalid_claim_condition

  unfoldable pub eval_condition : JwtClaims → Option (Conditions c) → Exec p.World Bool
  unfolding bool_result
  eval_condition claims none = pure true
  eval_condition claims (some none) = pure true
  eval_condition claims (some (some ast)) = do
    value ← lift (c.eval ast (j.to_map claims) none)
    lift (bool_result value)

  unfoldable pub eval_conditions : JwtClaims → Exec p.World Bool
  eval_conditions claims = do
    fail_if (claims.issuer == "") missing_iss
    issuer ← get_issuer_by_uri p c background claims.issuer
    eval_condition claims issuer.claim_conditions

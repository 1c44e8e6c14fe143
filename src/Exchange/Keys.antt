-- ===== src/Exchange/Keys.antt =====
-- internal/rfc8693/rfc8693.go and internal/jwks: the key of a subject token, and its verification.
use identity_api.Common.{String, ◌==◌, Option, none, some, List, keep, find?, if◌then◌else◌}
use identity_api.Types.Issuers.{Cel}
use identity_api.Types.Errors.{Error, invalid_request, server_error}
use identity_api.Exec.{Result, ok, err, Exec, pure, ◌>>=◌}
use identity_api.Platform.{Platform}
use identity_api.Storage.{background}
use identity_api.Storage.Issuers.{get_issuer_by_uri}
use identity_api.Exchange.Mapping.{
  JwtClaims, Token, Jwk, Jwt, ValidationError, bad_issuer, unverifiable, malformed,
  signature_invalid, Key, found, no_key, Parsed, accepted, rejected, failed,
}

-- `for _, key := range keys { if key.Use == "sig" … }` over jwks.Key(kid)
unfoldable pub signature_key : Option String → List Jwk → Key
signature_key none keys = no_key malformed
signature_key (some kid) keys =
    elim (find? (λ k. k.use_of == "sig") (keep (λ k. k.key_id == kid) keys)) [
      | some key ↦ found key
      | none ↦ no_key signature_invalid
    ]

module _ (p : Platform) (j : Jwt p) (c : Cel) where
  unfoldable pub get_issuer_jwks_uri : String → Exec p.World String
  get_issuer_jwks_uri iss = do issuer ← get_issuer_by_uri p c background iss; pure issuer.jwksuri

  -- The outcome of each call, and the key or the error code that it leads to.
  unfoldable pub from_keys : Option String → Result (List Jwk) → p.World → Key × p.World
  from_keys kid (ok keys) w = (signature_key kid keys, w)
  from_keys kid (err e) w = (no_key unverifiable, w)

  unfoldable pub from_uri : Option String → Result String → p.World → Key × p.World
  unfolding from_keys
  from_uri kid (ok uri) w = from_keys kid (j.resolve uri w).0 (j.resolve uri w).1
  from_uri kid (err e) w = (no_key bad_issuer, w)

  -- The configuration always has a provider of JWKS URIs: cmd/serve.go sets it.
  unfoldable pub find_matching_key : Token → p.World → Key × p.World
  unfolding from_uri get_issuer_jwks_uri
  find_matching_key token w =
      if token.claims.issuer == ""
      then (no_key bad_issuer, w)
      else from_uri token.kid (get_issuer_jwks_uri token.claims.issuer w).0
          (get_issuer_jwks_uri token.claims.issuer w).1

  unfoldable pub parse_error : ValidationError → Error
  parse_error unverifiable = server_error
  parse_error e = invalid_request

  unfoldable pub parse_outcome : Parsed → Result Token
  unfolding parse_error
  parse_outcome (accepted token) = ok token
  parse_outcome (rejected e) = err (parse_error e)
  parse_outcome failed = err server_error

  unfoldable pub validate_jwt : String → Exec p.World Token
  unfolding parse_outcome
  validate_jwt token w =
      (parse_outcome (j.parse token find_matching_key w).0, (j.parse token find_matching_key w).1)

  unfoldable pub get_subject_claims : String → Exec p.World JwtClaims
  get_subject_claims token = do validated ← validate_jwt token; pure validated.claims

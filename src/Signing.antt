-- ===== src/Signing.antt =====
-- internal/fositex/fosite.go: reading the keys that sign tokens. `Keys` holds what it calls of the
-- operating system and of Go's and jose's libraries.
pub mod KeySet
mod Tests
use identity_api.Common.{
  ℤ, String, Bool, not, ◌||◌, Option, none, some, List, [], ◌∷◌, ◌==◌, if◌then◌else◌,
}
use identity_api.Types.Errors.{Error, invalid_key}
use identity_api.Exec.{Result, ok, err, Exec, pure, fail, lift, fail_if, ◌>>=◌, ◌>>◌}

pub record Keys : Type 1 where
  pub World : Type 0
  -- a key of crypto/x509
  pub Signer : Type 0
  -- os.Open and io.ReadAll
  pub read_file : String → Exec World String
  -- pem.Decode: the block's type and bytes, if there is a block, and the rest
  pub pem_decode : String → Option (String × String) × String
  -- x509.ParsePKCS8PrivateKey
  pub parse_private_key : String → Result Signer
  -- the type assertion on *rsa.PrivateKey
  pub is_rsa : Signer → Bool

-- An entry of the configuration.
pub record PrivateKey : Type 0 where
  pub key_id : String
  pub algorithm : String
  pub path : String

pub data RawKey (S : Type 0) : Type 0 where
  asymmetric : S → RawKey S
  symmetric : String → RawKey S

-- jose.JSONWebKey
pub record SigningKey (S : Type 0) : Type 0 where
  pub key : RawKey S
  pub key_id : String
  pub algorithm : String

unfoldable pub is_rsa_algorithm : String → Bool
is_rsa_algorithm a = a == "RS256" || a == "RS384" || a == "RS512"

unfoldable pub is_hmac_algorithm : String → Bool
is_hmac_algorithm a = a == "HS256" || a == "HS384" || a == "HS512"

-- The block of a file that holds one private key and nothing else.
unfoldable pub private_block : Option (String × String) × String → Result String
private_block (none, rest) = err invalid_key
private_block (some (kind, bytes), rest) =
    if kind == "PRIVATE KEY"
    then (if rest == "" then ok bytes else err invalid_key)
    else err invalid_key

module _ (k : Keys) where
  unfoldable pub read_asymmetric_key : String → Exec k.World k.Signer
  unfolding private_block
  read_asymmetric_key path = do
    bytes ← k.read_file path
    block ← lift (private_block (k.pem_decode bytes))
    key ← lift (k.parse_private_key block)
    fail_if (not (k.is_rsa key)) invalid_key
    pure key

  unfoldable pub raw_key : PrivateKey → Exec k.World (RawKey k.Signer)
  unfolding read_asymmetric_key is_rsa_algorithm is_hmac_algorithm
  raw_key key =
      if is_rsa_algorithm key.algorithm
      then (read_asymmetric_key key.path >>= λ signer. pure (asymmetric signer))
      else if is_hmac_algorithm key.algorithm
      then (k.read_file key.path >>= λ bytes. pure (symmetric bytes))
      else fail invalid_key

  unfoldable pub read_private_key : PrivateKey → Exec k.World (SigningKey k.Signer)
  unfolding raw_key
  read_private_key key = do
    raw ← raw_key key
    pure (record { key = raw; key_id = key.key_id; algorithm = key.algorithm })

  unfoldable pub read_private_keys : List PrivateKey → Exec k.World (List (SigningKey k.Signer))
  unfolding read_private_key
  read_private_keys [] = pure []
  read_private_keys (key ∷ keys) = do
    jwk ← read_private_key key
    jwks ← read_private_keys keys
    pure (jwk ∷ jwks)

  -- The signing key and the key set.
  unfoldable pub parse_private_keys :
      List PrivateKey → Exec k.World (SigningKey k.Signer × List (SigningKey k.Signer))
  unfolding read_private_key read_private_keys
  parse_private_keys [] = fail invalid_key
  parse_private_keys (first ∷ keys) = do
    signing_key ← read_private_key first
    jwks ← read_private_keys keys
    pure (signing_key, signing_key ∷ jwks)

-- What `NewOAuth2Config` sets.
pub record OAuth2Config (S : Type 0) : Type 0 where
  pub issuer : String
  pub access_token_lifespan : ℤ
  pub secret : String
  pub signing_key : SigningKey S
  pub signing_jwks : List (SigningKey S)
  pub user_info_audience : String

-- The configuration that is read; the lifespan is in seconds.
pub record Settings : Type 0 where
  pub issuer : String
  pub access_token_lifespan : ℤ
  pub secret : String
  pub private_keys : List PrivateKey

-- `join_path` is url.JoinPath.
module _ (k : Keys) (join_path : String → String → Result String) where
  unfoldable pub new_oauth2_config : Settings → Exec k.World (OAuth2Config k.Signer)
  unfolding parse_private_keys
  new_oauth2_config config = do
    keys ← parse_private_keys k config.private_keys
    audience ← lift (join_path config.issuer "userinfo")
    pure (record {
      issuer = config.issuer;
      access_token_lifespan = config.access_token_lifespan;
      secret = config.secret;
      signing_key = keys.0;
      signing_jwks = keys.1;
      user_info_audience = audience;
    })

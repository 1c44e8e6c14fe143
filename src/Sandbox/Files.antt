-- ===== src/Sandbox/Files.antt =====
-- Files of keys for the examples: an HMAC key and an RSA key.
use identity_api.Common.{String, ◌≡◌, refl, true, some, List, [], ◌∷◌}
use identity_api.Exec.{ok}
use identity_api.Signing.{
  Keys, PrivateKey, SigningKey, symmetric, asymmetric, parse_private_keys, read_private_keys,
  read_private_key, raw_key, read_asymmetric_key, private_block, is_rsa_algorithm,
  is_hmac_algorithm,
}

-- A file holds its own path, and every text is a private key of RSA.
abbrev pub files : Keys
files = record {
  World = Unit {0};
  Signer = String;
  read_file = λ path w. (ok path, w);
  pem_decode = λ text. (some ("PRIVATE KEY", text), "");
  parse_private_key = λ bytes. ok bytes;
  is_rsa = λ signer. true;
}

abbrev pub two_keys : List PrivateKey
two_keys =
    record { key_id = "new"; algorithm = "RS256"; path = "/new.pem" }
    ∷ record { key_id = "old"; algorithm = "HS256"; path = "/old" }
    ∷ []

abbrev pub new_key : SigningKey String
new_key = record { key = asymmetric "/new.pem"; key_id = "new"; algorithm = "RS256" }

abbrev pub old_key : SigningKey String
old_key = record { key = symmetric "/old"; key_id = "old"; algorithm = "HS256" }

pub reads_two_keys : (parse_private_keys files two_keys tt).0 ≡ ok (new_key, new_key ∷ old_key ∷ [])
unfolding parse_private_keys read_private_keys read_private_key raw_key read_asymmetric_key
    private_block is_rsa_algorithm is_hmac_algorithm
reads_two_keys = refl

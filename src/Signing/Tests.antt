-- ===== src/Signing/Tests.antt =====
-- The theorem on the key set at a concrete configuration: an HMAC key and an RSA key.
use identity_api.Common.{◌≡◌, List, [], ◌∷◌, String}
use identity_api.Sandbox.Files.{files, two_keys, new_key, old_key, reads_two_keys}
use identity_api.Signing.{SigningKey}
use identity_api.Signing.KeySet.{AreKeys, parse_private_keys-AreKeys}

parse_private_keys-AreKeys_example :
    AreKeys files two_keys (new_key ∷ old_key ∷ [])
    × ((rest : List (SigningKey String)) × (new_key ∷ old_key ∷ [] ≡ new_key ∷ rest))
parse_private_keys-AreKeys_example =
    parse_private_keys-AreKeys files two_keys tt new_key (new_key ∷ old_key ∷ []) reads_two_keys

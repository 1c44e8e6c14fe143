-- ===== src/Routes/Published.antt =====
-- Which keys are published.
use identity_api.Common.{
  String, ◌≡◌, refl, true, false, List, [], ◌∷◌, map, keep, any, not, Bool, arith, inl, inr,
}
use identity_api.Exec.{ok}
use identity_api.Signing.{
  Keys, PrivateKey, SigningKey, asymmetric, symmetric, is_rsa_algorithm, parse_private_keys,
}
use identity_api.Signing.KeySet.{AreKeys, parse_private_keys-AreKeys}
use identity_api.Routes.{Jose, published}

-- What jose's documentation says: the public key of an asymmetric private key is valid, is public and
-- has its id, and a symmetric key has none.
pub record HasPublicKeys {S : Type 0} (j : Jose S) : Type 0 where
  -- JSONWebKey.IsPublic
  pub is_public : SigningKey S → Bool
  pub asymmetric_law :
      (signer : S) (key_id algorithm : String)
      → let k : SigningKey S = record {
        key = asymmetric signer;
        key_id = key_id;
        algorithm = algorithm;
      } in
        (j.valid (j.public k) ≡ true)
        × ((j.public k).key_id ≡ key_id)
        × (is_public (j.public k) ≡ true)
  pub symmetric_law :
      (bytes key_id algorithm : String)
      → j.valid
          (j.public (record { key = symmetric bytes; key_id = key_id; algorithm = algorithm }))
        ≡ false

-- The published keys are the public keys of the RSA keys, in their order, under the ids of the RSA
-- entries; none is private.
abbrev pub ArePublished :
    {S : Type 0} (j : Jose S)
    → HasPublicKeys j
    → List PrivateKey
    → List (SigningKey S)
    → List (SigningKey S)
    → Type 0
ArePublished {S} j h entries jwks out =
    (out ≡ map j.public (keep (λ (s : SigningKey S). is_rsa_algorithm s.algorithm) jwks))
    × (map (λ (s : SigningKey S). s.key_id) out
        ≡ map (λ (e : PrivateKey). e.key_id)
            (keep (λ (e : PrivateKey). is_rsa_algorithm e.algorithm) entries))
    × (any (λ s. not (h.is_public s)) out ≡ false)

module _ (k : Keys) {j : Jose k.Signer} (h : HasPublicKeys j) where
  published-AreKeys :
      (entries : List PrivateKey) (jwks : List (SigningKey k.Signer))
      → AreKeys k entries jwks
      → ArePublished j h entries jwks (published j jwks)
  unfolding published keep any
  published-AreKeys [] [] are = (refl, refl, refl)
  published-AreKeys [] (s ∷ ss) are = elim are [ ]
  published-AreKeys (e ∷ es) [] are = elim are [ ]
  published-AreKeys (e ∷ es) (s ∷ ss) ((id, alg, kind), rest) =
      let ih = published-AreKeys es ss rest in
      elim kind [
        | inl (rsa, (signer, key, _)) ↦
            let law = h.asymmetric_law signer s.key_id s.algorithm in
            (
              ground (arith, ih.0, rsa, key, id, alg, law),
              ground (arith, ih.1, rsa, key, id, alg, law),
              ground (arith, ih.2, rsa, key, id, alg, law),
            )
        | inr (hmac, no_rsa, (bytes, key)) ↦
            let law = h.symmetric_law bytes s.key_id s.algorithm in
            (
              ground (arith, ih.0, no_rsa, key, alg, law),
              ground (arith, ih.1, no_rsa, key, alg, law),
              ground (arith, ih.2, no_rsa, key, alg, law),
            )
      ]

  -- Of the keys of a configuration that were read, exactly the public keys of those with an RSA
  -- algorithm are published, under the ids of their entries and in their order, and no private key is.
  pub published-parse_private_keys :
      (entries : List PrivateKey) (w : k.World) (signing : SigningKey k.Signer)
      (jwks : List (SigningKey k.Signer))
      → (parse_private_keys k entries w).0 ≡ ok (signing, jwks)
      → ArePublished j h entries jwks (published j jwks)
  published-parse_private_keys entries w signing jwks r =
      published-AreKeys entries jwks (parse_private_keys-AreKeys k entries w signing jwks r).0

-- ===== src/Signing/KeySet.antt =====
-- The key set that a configuration gives.
use identity_api.Common.{
  String, ◌≡◌, true, false, List, [], ◌∷◌, arith, ◌⊎◌, inl, inr, Bool-cases, subst, sym, ap, ◌∙◌,
}
use identity_api.Exec.{ok, Result-cases}
use identity_api.Signing.{
  Keys, PrivateKey, asymmetric, symmetric, SigningKey, is_rsa_algorithm, is_hmac_algorithm,
  private_block, read_asymmetric_key, raw_key, read_private_key, read_private_keys,
  parse_private_keys,
}

module _ (k : Keys) where
  -- A signing key has the id and the algorithm of its entry; an RSA algorithm has an RSA key, and an
  -- HMAC algorithm a symmetric one.
  abbrev pub IsKey : PrivateKey → SigningKey k.Signer → Type 0
  IsKey entry s =
      (s.key_id ≡ entry.key_id)
      × (s.algorithm ≡ entry.algorithm)
      × (((is_rsa_algorithm entry.algorithm ≡ true)
            × ((signer : k.Signer) × (s.key ≡ asymmetric signer) × (k.is_rsa signer ≡ true)))
          ⊎ ((is_hmac_algorithm entry.algorithm ≡ true)
              × (is_rsa_algorithm entry.algorithm ≡ false)
              × ((bytes : String) × (s.key ≡ symmetric bytes))))

  abbrev pub AreKeys : List PrivateKey → List (SigningKey k.Signer) → Type 0
  AreKeys [] [] = Unit {0}
  AreKeys (entry ∷ entries) (s ∷ ss) = IsKey entry s × AreKeys entries ss
  AreKeys [] (s ∷ ss) = ⊥
  AreKeys (entry ∷ entries) [] = ⊥

  read_asymmetric_key_rsa :
      (path : String) (w : k.World) (signer : k.Signer)
      → (read_asymmetric_key k path w).0 ≡ ok signer
      → k.is_rsa signer ≡ true
  unfolding read_asymmetric_key
  read_asymmetric_key_rsa path w signer h = elim (Result-cases (k.read_file path w).0) [
    | inr (e, r) ↦ ground (arith, r, h)
    | inl (bytes, r) ↦ elim (Result-cases (private_block (k.pem_decode bytes))) [
      | inr (e, b) ↦ ground (arith, r, b, h)
      | inl (block, b) ↦ elim (Result-cases (k.parse_private_key block)) [
        | inr (e, x) ↦ ground (arith, r, b, x, h)
        | inl (key, x) ↦ elim (Bool-cases (k.is_rsa key)) [
          | inr other ↦ ground (arith, r, b, x, other, h)
          | inl rsa ↦ ground (arith, r, b, x, rsa, h)
        ]
      ]
    ]
  ]

  read_private_key-IsKey :
      (entry : PrivateKey) (w : k.World) (s : SigningKey k.Signer)
      → (read_private_key k entry w).0 ≡ ok s
      → IsKey entry s
  unfolding read_private_key raw_key
  read_private_key-IsKey entry w s h = elim (Bool-cases (is_rsa_algorithm entry.algorithm)) [
    | inl rsa ↦ elim (Result-cases (read_asymmetric_key k entry.path w).0) [
      | inr (e, r) ↦ ground (arith, rsa, r, h)
      | inl (signer, r) ↦
          let good = read_asymmetric_key_rsa entry.path w signer r in
          (
            ground (arith, rsa, r, h),
            ground (arith, rsa, r, h),
            inl (rsa, (signer, ground (arith, rsa, r, h), good)),
          )
    ]
    | inr no_rsa ↦ elim (Bool-cases (is_hmac_algorithm entry.algorithm)) [
      | inr neither ↦ ground (arith, no_rsa, neither, h)
      | inl hmac ↦ elim (Result-cases (k.read_file entry.path w).0) [
        | inr (e, r) ↦ ground (arith, no_rsa, hmac, r, h)
        | inl (bytes, r) ↦ (
          ground (arith, no_rsa, hmac, r, h),
          ground (arith, no_rsa, hmac, r, h),
          inr (hmac, no_rsa, (bytes, ground (arith, no_rsa, hmac, r, h))),
        )
      ]
    ]
  ]

  read_private_keys-AreKeys :
      (entries : List PrivateKey) (w : k.World) (ss : List (SigningKey k.Signer))
      → (read_private_keys k entries w).0 ≡ ok ss
      → AreKeys entries ss
  unfolding read_private_keys
  read_private_keys-AreKeys [] w [] h = tt
  read_private_keys-AreKeys [] w (s ∷ ss) h = ground (arith, h)
  read_private_keys-AreKeys (entry ∷ entries) w ss h =
      let w1 = (read_private_key k entry w).1 in
      elim (Result-cases (read_private_key k entry w).0) [
        | inr (e, r) ↦ ground (arith, r, h)
        | inl (s, r) ↦ elim (Result-cases (read_private_keys k entries w1).0) [
          | inr (e, m) ↦ ground (arith, r, m, h)
          | inl (more, m) ↦
              let all : ss ≡ s ∷ more = ground (arith, r, m, h) in
              subst (AreKeys (entry ∷ entries)) (sym all)
                (read_private_key-IsKey entry w s r, read_private_keys-AreKeys entries w1 more m)
        ]
      ]

  -- Where reading the keys of a configuration succeeds, the key set has one key for each entry, in
  -- order, with the entry's id and algorithm and a key of that algorithm's kind, and the key that signs
  -- is the first of the set.
  pub parse_private_keys-AreKeys :
      (entries : List PrivateKey) (w : k.World) (signing : SigningKey k.Signer)
      (jwks : List (SigningKey k.Signer))
      → (parse_private_keys k entries w).0 ≡ ok (signing, jwks)
      → AreKeys entries jwks × ((rest : List (SigningKey k.Signer)) × (jwks ≡ signing ∷ rest))
  unfolding parse_private_keys
  parse_private_keys-AreKeys [] w signing jwks h = ground (arith, h)
  parse_private_keys-AreKeys (first ∷ entries) w signing jwks h =
      let w1 = (read_private_key k first w).1 in
      elim (Result-cases (read_private_key k first w).0) [
        | inr (e, r) ↦ ground (arith, r, h)
        | inl (s, r) ↦ elim (Result-cases (read_private_keys k entries w1).0) [
          | inr (e, m) ↦ ground (arith, r, m, h)
          | inl (more, m) ↦
              let all : jwks ≡ s ∷ more = ground (arith, r, m, h) in
              let head : signing ≡ s = ground (arith, r, m, h) in
              (
                subst (AreKeys (first ∷ entries)) (sym all) (
                  read_private_key-IsKey first w s r,
                  read_private_keys-AreKeys entries w1 more m,
                ),
                (more, all ∙ ap (λ x. x ∷ more) (sym head)),
              )
        ]
      ]

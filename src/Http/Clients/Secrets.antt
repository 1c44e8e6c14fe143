-- ===== src/Http/Clients/Secrets.antt =====
-- The secret of a client is shown once, when the client is created, and its hash is what is stored.
use identity_api.Common.{ℕ, String, ◌≡◌, none, some, inl, inr, arith, find?}
use identity_api.Types.{PrefixedId}
use identity_api.Types.Clients.{OAuthClient, V1OAuthClient, to_v1_oauth_client}
use identity_api.Exec.{ok, Exec, Result-cases}
use identity_api.Platform.{Platform, IsDocumented}
use identity_api.Platform.Schema.{ClientRow}
use identity_api.Storage.{Ctx, with_tx}
use identity_api.Storage.Clients as Storage
use identity_api.Storage.Clients.Sql.{has_id}
use identity_api.Storage.Clients.Lookup.{create_oauth_client_row}
use identity_api.Http.{check_access}
use identity_api.Http.Clients.{
  CreateOAuthClient, create_oauth_client, get_oauth_client, given_audience, default_token_length,
  action_oauth_client_create, action_oauth_client_get,
}

-- The stored row of a client that the API has shown with its secret.
abbrev pub IsStoredHashed :
    (p : Platform) → Storage.Hasher p → PrefixedId → V1OAuthClient → p.World → Type 0
IsStoredHashed p h owner shown w =
    (row : ClientRow) × (secret : String) × (before : p.World) × (find? (has_id shown.id)
        (p.view w).working.oauth_clients
      ≡ some row)
    × (row.owner_id ≡ owner)
    × (shown.secret ≡ some secret)
    × ((h.hash secret before).0 ≡ ok row.secret)

module _ {p : Platform} (d : IsDocumented p) where
  get_oauth_client_secret :
      (ctx : Ctx) (id : PrefixedId) (w : p.World) (read : V1OAuthClient)
      → (get_oauth_client p ctx id w).0 ≡ ok read
      → read.secret ≡ none
  unfolding get_oauth_client check_access to_v1_oauth_client
  get_oauth_client_secret ctx id w read h =
      let found = Storage.lookup_oauth_client_by_id p ctx id w in
      elim (Result-cases found.0) [
        | inr (e, r) ↦ ground (arith, r, h)
        | inl (c, r) ↦
            elim (Result-cases (p.check_access c.owner_id action_oauth_client_get found.1).0) [
              | inr (e, a) ↦ ground (arith, r, a, h)
              | inl (u, a) ↦ ground (arith, r, a, h)
            ]
      ]

  -- A creation that returns shows the name and the audience that were asked for and a secret; the
  -- transaction's table has under the id shown a row of the owner with a hash of that secret. Reading a client, if it
  -- returns, shows no secret.
  pub create_oauth_client-IsStoredHashed :
      (h : Storage.Hasher p) (token : ℕ → Exec p.World String) (owner : PrefixedId)
      (body : CreateOAuthClient) (w : p.World) (shown : V1OAuthClient)
      → (create_oauth_client p h token with_tx owner body w).0 ≡ ok shown
      → (shown.name ≡ body.name)
        × (shown.audience ≡ given_audience body.audience)
        × IsStoredHashed p h owner shown (create_oauth_client p h token with_tx owner body w).1
        × ((ctx : Ctx) (id : PrefixedId) (later : p.World) (read : V1OAuthClient)
            → (get_oauth_client p ctx id later).0 ≡ ok read
            → read.secret ≡ none)
  unfolding create_oauth_client check_access to_v1_oauth_client Storage.client_row
  create_oauth_client-IsStoredHashed h token owner body w shown e =
      let checked = p.check_access owner action_oauth_client_create w in
      elim (Result-cases checked.0) [
        | inr (f, r) ↦ ground (arith, e, r)
        | inl (u, r) ↦ elim (Result-cases (token default_token_length checked.1).0) [
          | inr (f, t) ↦ ground (arith, e, r, t)
          | inl (secret, t) ↦
              let w2 = (token default_token_length checked.1).1 in
              let given : OAuthClient = record {
                id = "";
                owner_id = owner;
                name = body.name;
                secret = secret;
                audience = given_audience body.audience;
              } in
              elim (Result-cases (Storage.create_oauth_client p h with_tx given w2).0) [
                | inr (f, c) ↦ ground (arith, e, r, t, c)
                | inl (out, c) ↦
                    let (same, hashed, _, found) = create_oauth_client_row d h given out w2 c in
                    let made : shown ≡ record (to_v1_oauth_client out) { secret = some secret } =
                      ground (arith, e, r, t, c) in
                    (
                      ground (arith, made, same),
                      ground (arith, made, same),
                      (
                        Storage.client_row given out.id out.secret,
                        secret,
                        w2,
                        ground (arith, e, r, t, c, made, found),
                        ground arith,
                        ground (arith, made),
                        ground (arith, hashed),
                      ),
                      get_oauth_client_secret,
                    )
              ]
        ]
      ]

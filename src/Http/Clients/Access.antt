-- ===== src/Http/Clients/Access.antt =====
-- Permissions on OAuth clients, and what the handlers show of a secret.
use identity_api.Common.{ℕ, String, ◌≡◌, ◌≢◌, refl, ◌⊎◌, inl, inr, arith}
use identity_api.Types.{PrefixedId}
use identity_api.Types.Clients.{OAuthClient}
use identity_api.Types.Errors.{Error, http, with_status, permission_denied, oauth_client_not_found}
use identity_api.Exec.{ok, err, Exec, Result-cases}
use identity_api.Platform.{Platform, IsDocumented}
use identity_api.Platform.Outcomes.{exec_read}
use identity_api.Storage.{with_tx}
use identity_api.Storage.Clients as Storage
use identity_api.Storage.Clients.Sql.{select_client}
use identity_api.Http.{check_access}
use identity_api.Http.Clients.{
  CreateOAuthClient, create_oauth_client, get_oauth_client, delete_oauth_client, client_error,
  action_oauth_client_create, action_oauth_client_get, action_oauth_client_delete,
}

client_error_stays : (e : Error) → e ≢ oauth_client_not_found → client_error e ≡ e
unfolding client_error
client_error_stays e h = ground arith

module _ {p : Platform} (d : IsDocumented p) where
  -- A lookup leaves what is observed alone.
  view-lookup :
      (id : PrefixedId) (w : p.World)
      → p.view (Storage.lookup_oauth_client_by_id p with_tx id w).1 ≡ p.view w
  unfolding Storage.lookup_oauth_client_by_id select_client
  view-lookup id w = ground (arith, exec_read d (select_client id) w refl)

  -- A caller to whom every action on an owner, and on the owner of the client with an id, is denied gets
  -- no client: creating one is a 403; reading or deleting one is a 403 where the client is
  -- found, and otherwise the error of the lookup, or an errorWithStatus with 404 where no client has the
  -- id. No table is changed and no event is sent.
  pub client_access_denied :
      (h : Storage.Hasher p) (token : ℕ → Exec p.World String) (owner id : PrefixedId)
      (body : CreateOAuthClient) (w : p.World)
      → ((action : String) → (p.check_access owner action w).0 ≡ err permission_denied)
      → ((c : OAuthClient) (action : String)
          → (Storage.lookup_oauth_client_by_id p with_tx id w).0 ≡ ok c
          → (p.check_access c.owner_id action
              (Storage.lookup_oauth_client_by_id p with_tx id w).1).0
            ≡ err permission_denied)
      → (((create_oauth_client p h token with_tx owner body w).0 ≡ err (http 403))
          × (p.view (create_oauth_client p h token with_tx owner body w).1 ≡ p.view w))
        × (((c : OAuthClient) × ((Storage.lookup_oauth_client_by_id p with_tx id w).0 ≡ ok c)
              × ((get_oauth_client p with_tx id w).0 ≡ err (http 403))
              × ((delete_oauth_client p with_tx id w).0 ≡ err (http 403)))
            ⊎ ((e : Error) × ((Storage.lookup_oauth_client_by_id p with_tx id w).0 ≡ err e)
                × (e ≡ oauth_client_not_found
                    → ((get_oauth_client p with_tx id w).0 ≡ err (with_status 404))
                      × ((delete_oauth_client p with_tx id w).0 ≡ err (with_status 404)))
                × (e ≢ oauth_client_not_found
                    → ((get_oauth_client p with_tx id w).0 ≡ err e)
                      × ((delete_oauth_client p with_tx id w).0 ≡ err e))))
        × (p.view (get_oauth_client p with_tx id w).1 ≡ p.view w)
        × (p.view (delete_oauth_client p with_tx id w).1 ≡ p.view w)
  unfolding create_oauth_client get_oauth_client delete_oauth_client check_access client_error
  client_access_denied h token owner id body w denied denied_at =
      let w1 = (Storage.lookup_oauth_client_by_id p with_tx id w).1 in
      let same = view-lookup id w in
      elim (Result-cases (Storage.lookup_oauth_client_by_id p with_tx id w).0) [
        | inl (c, r) ↦
            let get = action_oauth_client_get in
            let delete = action_oauth_client_delete in
            (
              (
                ground (arith, denied action_oauth_client_create),
                ground (
                  arith,
                  denied action_oauth_client_create,
                  d.check_view owner action_oauth_client_create w,
                ),
              ),
              inl (
                c,
                r,
                ground (arith, r, denied_at c get r),
                ground (arith, r, denied_at c delete r),
              ),
              ground (arith, r, denied_at c get r, d.check_view c.owner_id get w1, same),
              ground (arith, r, denied_at c delete r, d.check_view c.owner_id delete w1, same),
            )
        | inr (e, r) ↦ (
          (
            ground (arith, denied action_oauth_client_create),
            ground (
              arith,
              denied action_oauth_client_create,
              d.check_view owner action_oauth_client_create w,
            ),
          ),
          inr (
            e,
            r,
            λ missing. (ground (arith, r, missing), ground (arith, r, missing)),
            λ other. (
              ground (arith, r, client_error_stays e other),
              ground (arith, r, client_error_stays e other),
            ),
          ),
          ground (arith, r, same),
          ground (arith, r, same),
        )
      ]

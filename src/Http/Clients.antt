-- ===== src/Http/Clients.antt =====
-- internal/api/httpsrv/handler_oauth_client.go: creating, reading and deleting OAuth clients.
pub mod Access
pub mod Secrets
mod Tests
use identity_api.Common.{ℕ, String, Option, none, some, List, []}
use identity_api.Types.{PrefixedId}
use identity_api.Types.Clients.{OAuthClient, V1OAuthClient, to_v1_oauth_client}
use identity_api.Types.Errors.{Error, with_status, oauth_client_not_found}
use identity_api.Exec.{Result, ok, err, Exec, pure, lift, map_err, branch, ◌>>=◌, ◌>>◌}
use identity_api.Platform.{Platform}
use identity_api.Storage.{Ctx}
use identity_api.Storage.Clients as Storage
use identity_api.Http.{check_access}

abbrev pub default_token_length : ℕ
default_token_length = 26

abbrev pub action_oauth_client_create : String
action_oauth_client_create = "iam_oauthclient_create"

abbrev pub action_oauth_client_delete : String
action_oauth_client_delete = "iam_oauthclient_delete"

abbrev pub action_oauth_client_get : String
action_oauth_client_get = "iam_oauthclient_get"

-- The body of a create request.
pub record CreateOAuthClient : Type 0 where
  pub name : String
  pub audience : Option (List String)

-- `[]string{}` unless the body has an audience
unfoldable pub given_audience : Option (List String) → List String
given_audience none = []
given_audience (some audience) = audience

-- `case types.ErrOAuthClientNotFound:` of a lookup, and of the deletion
unfoldable pub client_error : Error → Error
client_error oauth_client_not_found = with_status 404
client_error e = e

unfoldable pub deleted : Error → Result (Unit {0})
deleted oauth_client_not_found = ok tt
deleted e = err e

module _ (p : Platform) where
  -- `token` is crypto.GenerateSecureToken, which draws from the system's random source.
  unfoldable pub create_oauth_client :
      Storage.Hasher p
      → (ℕ → Exec p.World String)
      → Ctx
      → PrefixedId
      → CreateOAuthClient
      → Exec p.World V1OAuthClient
  unfolding check_access given_audience to_v1_oauth_client Storage.create_oauth_client
  create_oauth_client h token ctx owner_id body = do
    check_access p owner_id action_oauth_client_create
    secret ← token default_token_length
    new_client ← Storage.create_oauth_client p h ctx (record {
      id = "";
      owner_id = owner_id;
      name = body.name;
      secret = secret;
      audience = given_audience body.audience;
    })
    pure (record (to_v1_oauth_client new_client) { secret = some secret })

  unfoldable pub get_oauth_client : Ctx → PrefixedId → Exec p.World V1OAuthClient
  unfolding check_access client_error to_v1_oauth_client Storage.lookup_oauth_client_by_id
  get_oauth_client ctx id = do
    client ← map_err client_error (Storage.lookup_oauth_client_by_id p ctx id)
    check_access p client.owner_id action_oauth_client_get
    pure (to_v1_oauth_client client)

  unfoldable pub delete_oauth_client : Ctx → PrefixedId → Exec p.World (Unit {0})
  unfolding check_access client_error deleted Storage.lookup_oauth_client_by_id
      Storage.delete_oauth_client
  delete_oauth_client ctx id = do
    client ← map_err client_error (Storage.lookup_oauth_client_by_id p ctx id)
    check_access p client.owner_id action_oauth_client_delete
    branch (Storage.delete_oauth_client p ctx id) pure (λ e. lift (deleted e))

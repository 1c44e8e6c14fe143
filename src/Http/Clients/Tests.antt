-- ===== src/Http/Clients/Tests.antt =====
-- The theorems on the handlers of OAuth clients at concrete inputs.
use identity_api.Common.{
  ◌≢◌, ℕ, String, ◌≡◌, refl, true, ap, subst, none, some, [], ◌∷◌, ◌⊎◌, arith, any, find?, contains,
}
use identity_api.Types.{PrefixedId}
use identity_api.Types.Clients.{OAuthClient, V1OAuthClient, to_v1_oauth_client}
use identity_api.Types.Errors.{with_status, oauth_client_not_found, Error, http, permission_denied}
use identity_api.Exec.{Result, Exec, ok, err}
use identity_api.Crypto.{generate_secure_token}
use identity_api.Sandbox.{World, sandbox, sandbox-IsDocumented}
use identity_api.Sandbox.Data.{start}
use identity_api.Sandbox.Secrets.{hasher, draw}
use identity_api.Storage.{Ctx, with_tx, get_context_tx, query_row}
use identity_api.Storage.Clients as Storage
use identity_api.Storage.Clients.Sql.{insert_client, select_client}
use identity_api.Http.{check_access}
use identity_api.Http.Clients.{
  CreateOAuthClient, create_oauth_client, get_oauth_client, delete_oauth_client, given_audience,
}
use identity_api.Http.Clients.Secrets.{IsStoredHashed, create_oauth_client-IsStoredHashed}
use identity_api.Http.Clients.Access.{client_access_denied}

abbrev body : CreateOAuthClient
body = record { name = "app"; audience = some ("https://api" ∷ []) }

abbrev token : ℕ → Exec World String
token length = generate_secure_token draw length

abbrev shown_app : V1OAuthClient
shown_app = record {
  id = "g-new";
  name = "app";
  audience = "https://api" ∷ [];
  secret = some "s3cret";
}

creates : (create_oauth_client sandbox hasher token with_tx "tnt" body start).0 ≡ ok shown_app
unfolding create_oauth_client check_access given_audience to_v1_oauth_client
    Storage.create_oauth_client get_context_tx insert_client any contains generate_secure_token
creates = refl

create_oauth_client-IsStoredHashed_example :
    ("app" ≡ body.name)
    × (shown_app.audience ≡ given_audience body.audience)
    × IsStoredHashed sandbox hasher "tnt" shown_app
        (create_oauth_client sandbox hasher token with_tx "tnt" body start).1
    × ((ctx : Ctx) (id : PrefixedId) (later : World) (read : V1OAuthClient)
        → (get_oauth_client sandbox ctx id later).0 ≡ ok read
        → read.secret ≡ none)
create_oauth_client-IsStoredHashed_example =
    create_oauth_client-IsStoredHashed sandbox-IsDocumented hasher token "tnt" body start shown_app
      creates

abbrev closed : World
closed = record start {
  view = record (start.view) {
    working = record (start.view.working) {
      oauth_clients =
          record { id = "c-1"; owner_id = "tnt-denied"; name = "app"; secret = "#x"; audience = "" }
          ∷ [];
    };
  };
}

abbrev lookup : Result OAuthClient × World
lookup = Storage.lookup_oauth_client_by_id sandbox with_tx "c-1" closed

abbrev owner_in : Result OAuthClient → String
owner_in (ok c) = c.owner_id
owner_in (err e) = ""

owner_of_found :
    (c : OAuthClient) → lookup.0 ≡ ok c → contains c.owner_id ("tnt-denied" ∷ []) ≡ true
unfolding Storage.lookup_oauth_client_by_id select_client query_row Storage.scan_client
    Storage.client_of find? contains
owner_of_found c h =
    subst (λ (o : String). contains o ("tnt-denied" ∷ []) ≡ true) (ap owner_in h) refl

denied_to :
    (c : OAuthClient) (action : String)
    → lookup.0 ≡ ok c
    → (sandbox.check_access c.owner_id action lookup.1).0 ≡ err permission_denied
unfolding Storage.lookup_oauth_client_by_id select_client query_row
denied_to c action h = ground (arith, owner_of_found c h)

client_access_denied_example :
    (((create_oauth_client sandbox hasher token with_tx "tnt-denied" body closed).0
        ≡ err (http 403))
      × ((create_oauth_client sandbox hasher token with_tx "tnt-denied" body closed).1.view
          ≡ closed.view))
    × (((c : OAuthClient) × (lookup.0 ≡ ok c)
          × ((get_oauth_client sandbox with_tx "c-1" closed).0 ≡ err (http 403))
          × ((delete_oauth_client sandbox with_tx "c-1" closed).0 ≡ err (http 403)))
        ⊎ ((e : Error) × (lookup.0 ≡ err e)
            × (e ≡ oauth_client_not_found
                → ((get_oauth_client sandbox with_tx "c-1" closed).0 ≡ err (with_status 404))
                  × ((delete_oauth_client sandbox with_tx "c-1" closed).0 ≡ err (with_status 404)))
            × (e ≢ oauth_client_not_found
                → ((get_oauth_client sandbox with_tx "c-1" closed).0 ≡ err e)
                  × ((delete_oauth_client sandbox with_tx "c-1" closed).0 ≡ err e))))
    × ((get_oauth_client sandbox with_tx "c-1" closed).1.view ≡ closed.view)
    × ((delete_oauth_client sandbox with_tx "c-1" closed).1.view ≡ closed.view)
unfolding contains
client_access_denied_example =
    client_access_denied sandbox-IsDocumented hasher token "tnt-denied" "c-1" body closed
      (λ action. refl) (λ c action found. denied_to c action found)

-- ===== src/Storage/Clients/Tests.antt =====
-- The theorems on OAuth clients at concrete inputs.
use identity_api.Common.{◌≡◌, ◌≢◌, refl, ◌⊎◌, [], ◌∷◌, any, find?, AreWords, is_space, arith}
use identity_api.Types.{PrefixedId}
use identity_api.Types.Clients.{OAuthClient}
use identity_api.Types.Errors.{Failure, db, oauth_client_not_found}
use identity_api.Exec.{ok, err}
use identity_api.Sandbox.{World, sandbox, sandbox-IsDocumented}
use identity_api.Sandbox.Data.{start}
use identity_api.Sandbox.Secrets.{hasher}
use identity_api.Storage.{with_tx, get_context_tx}
use identity_api.Storage.Clients.{
  create_oauth_client, delete_oauth_client, lookup_oauth_client_by_id,
}
use identity_api.Storage.Clients.Sql.{has_id, insert_client, delete_client}
use identity_api.Storage.Clients.Lookup.{
  create_oauth_client-lookup_oauth_client_by_id, delete_oauth_client-lookup_oauth_client_by_id,
}

abbrev app : OAuthClient
app = record {
  id = "";
  owner_id = "tnt";
  name = "app";
  secret = "s3cret";
  audience = "https://api" ∷ "https://db" ∷ [];
}

abbrev stored_app : OAuthClient
stored_app = record app { id = "g-new"; secret = "#s3cret" }

creates : (create_oauth_client sandbox hasher with_tx app start).0 ≡ ok stored_app
unfolding create_oauth_client get_context_tx insert_client any
creates = refl

words : AreWords app.audience
unfolding is_space
words = ground arith

abbrev after_app : World
after_app = (create_oauth_client sandbox hasher with_tx app start).1

create_oauth_client-lookup_oauth_client_by_id_example :
    (stored_app ≡ record app { id = "g-new"; secret = "#s3cret" })
    × ((hasher.hash "s3cret" start).0 ≡ ok "#s3cret")
    × ((sandbox.new_id "idntcli" start).0 ≡ ok "g-new")
    × (((f : Failure) × ((lookup_oauth_client_by_id sandbox with_tx "g-new" after_app).0
            ≡ err (db f)))
        ⊎ ((lookup_oauth_client_by_id sandbox with_tx "g-new" after_app).0 ≡ ok stored_app))
create_oauth_client-lookup_oauth_client_by_id_example =
    create_oauth_client-lookup_oauth_client_by_id sandbox-IsDocumented hasher app stored_app start
      creates words refl

deletes : (delete_oauth_client sandbox with_tx "g-new" after_app).0 ≡ ok tt
unfolding create_oauth_client delete_oauth_client get_context_tx insert_client delete_client any
deletes = refl

abbrev without_app : World
without_app = (delete_oauth_client sandbox with_tx "g-new" after_app).1

delete_oauth_client-lookup_oauth_client_by_id_example :
    (((f : Failure) × ((lookup_oauth_client_by_id sandbox with_tx "g-new" without_app).0
          ≡ err (db f)))
      ⊎ ((lookup_oauth_client_by_id sandbox with_tx "g-new" without_app).0
          ≡ err oauth_client_not_found))
    × ((other : PrefixedId)
        → other ≢ "g-new"
        → find? (has_id other) without_app.view.working.oauth_clients
          ≡ find? (has_id other) after_app.view.working.oauth_clients)
delete_oauth_client-lookup_oauth_client_by_id_example =
    delete_oauth_client-lookup_oauth_client_by_id sandbox-IsDocumented "g-new" after_app deletes

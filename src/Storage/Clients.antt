-- ===== src/Storage/Clients.antt =====
-- internal/storage/oauth_client.go: the OAuth client manager.
pub mod Sql
pub mod Lookup
mod Tests
use identity_api.Common.{
  String, Bool, Option, none, some, List, ◌==◌, if◌then◌else◌, join, fields, not,
}
use identity_api.Types.{PrefixedId}
use identity_api.Types.Clients.{OAuthClient}
use identity_api.Types.Errors.{Error, oauth_client_not_found, panic, external}
use identity_api.Exec.{Result, ok, err, Exec, pure, fail, lift, fail_if, ◌>>=◌, ◌>>◌}
use identity_api.Platform.{Platform}
use identity_api.Platform.Schema.{ClientRow}
use identity_api.Storage.{Ctx, get_context_tx, query_row}
use Sql.{insert_client, select_client, delete_client}

-- Scanning a row of `oauth_clients`: the audience is one text, its parts between spaces.
unfoldable pub client_of : ClientRow → OAuthClient
client_of row = record {
  id = row.id;
  owner_id = row.owner_id;
  name = row.name;
  secret = row.secret;
  audience = fields row.audience;
}

unfoldable pub scan_client : Option ClientRow → Result OAuthClient
unfolding client_of
scan_client none = err oauth_client_not_found
scan_client (some row) = ok (client_of row)

-- The row that is written.
unfoldable pub client_row : OAuthClient → PrefixedId → String → ClientRow
client_row c id hashed = record {
  id = id;
  owner_id = c.owner_id;
  name = c.name;
  secret = hashed;
  audience = join " " c.audience;
}

-- fosite.Hasher: bcrypt, which draws a salt.
pub record Hasher (p : Platform) : Type 0 where
  pub hash : String → Exec p.World String

module _ (p : Platform) (h : Hasher p) where
  unfoldable pub create_oauth_client : Ctx → OAuthClient → Exec p.World OAuthClient
  unfolding get_context_tx client_row
  create_oauth_client ctx client = do
    lift (get_context_tx ctx)
    hashed ← h.hash client.secret
    client_id ← p.new_id "idntcli"
    id ← p.exec (insert_client (client_row client client_id hashed))
    pure (record client { id = id; secret = hashed })

module _ (p : Platform) where
  unfoldable pub delete_oauth_client : Ctx → PrefixedId → Exec p.World (Unit {0})
  unfolding get_context_tx
  delete_oauth_client ctx id = do lift (get_context_tx ctx); p.exec (delete_client id)

  unfoldable pub lookup_oauth_client_by_id : Ctx → PrefixedId → Exec p.World OAuthClient
  unfolding query_row scan_client
  lookup_oauth_client_by_id ctx id = do
    fail_if (id == "") oauth_client_not_found
    row ← query_row p ctx (select_client id)
    lift (scan_client row)

  -- fosite.ClientManager's GetClient
  unfoldable pub get_client : Ctx → String → Exec p.World OAuthClient
  unfolding lookup_oauth_client_by_id
  get_client ctx id = do
    fail_if (not (p.valid_id id)) (external 1)
    lookup_oauth_client_by_id ctx id

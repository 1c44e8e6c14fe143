-- ===== src/Storage/Clients/Sql.antt =====
-- The SQL statements of internal/storage/oauth_client.go.
use identity_api.Common.{Bool, not, Option, [], ◌∷◌, ◌++◌, ◌==◌, if◌then◌else◌, keep, any, find?}
use identity_api.Types.{PrefixedId}
use identity_api.Types.Errors.{duplicate_key}
use identity_api.Platform.Schema.{ClientRow, Stmt, rows, violation}

abbrev pub has_id : PrefixedId → ClientRow → Bool
has_id id c = c.id == id

-- INSERT INTO oauth_clients (…) VALUES ($1, …, $5) RETURNING id
unfoldable pub insert_client : ClientRow → Stmt PrefixedId
insert_client c t =
    if any (has_id c.id) t.oauth_clients
    then (violation duplicate_key, t)
    else (rows c.id, record t { oauth_clients = t.oauth_clients ++ c ∷ [] })

-- SELECT … FROM oauth_clients WHERE id = $1
unfoldable pub select_client : PrefixedId → Stmt (Option ClientRow)
select_client id t = (rows (find? (has_id id) t.oauth_clients), t)

-- DELETE FROM oauth_clients WHERE id = $1
unfoldable pub delete_client : PrefixedId → Stmt (Unit {0})
delete_client id t =
    (rows tt, record t { oauth_clients = keep (λ c. not (has_id id c)) t.oauth_clients })

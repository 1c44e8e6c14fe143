-- ===== src/Storage/Users/Sql.antt =====
-- The SQL statements of internal/storage/userinfo.go.
use identity_api.Common.{
  String, Bool, ◌&&◌, Option, none, some, List, [], ◌∷◌, ◌++◌, ◌==◌, if◌then◌else◌, any, find?,
}
use identity_api.Types.{PrefixedId}
use identity_api.Types.Users.{UserInfo}
use identity_api.Types.Errors.{duplicate_key, foreign_key}
use identity_api.Platform.Schema.{IssuerRow, UserRow, Stmt, rows, violation}
use identity_api.Storage.Issuers.Sql.{has_uri}

-- user_info.iss_id = issuers.id
abbrev pub issued_by : UserRow → IssuerRow → Bool
issued_by u i = i.id == u.iss_id

-- The row with its issuer's URI, if it has an issuer.
unfoldable pub join : Option UserRow → List IssuerRow → Option (UserRow × IssuerRow)
join none issuers = none
join (some u) issuers = elim (find? (issued_by u) issuers) [ none ↦ none | some i ↦ some (u, i) ]

abbrev pub by_claims : List IssuerRow → String → String → UserRow → Bool
by_claims issuers iss sub u = u.sub == sub && any (λ i. issued_by u i && i.uri == iss) issuers

-- The columns that the claims' query selects: the id is not among them.
unfoldable pub without_id : String → Option UserRow → Option UserInfo
without_id iss none = none
without_id iss (some u) =
    some (record { id = ""; name = u.name; email = u.email; issuer = iss; subject = u.sub })

-- SELECT … FROM user_info ui JOIN issuers i ON ui.iss_id = i.id WHERE i.uri = $1 and ui.sub = $2
unfoldable pub select_user_by_claims : String → String → Stmt (Option UserInfo)
unfolding without_id
select_user_by_claims iss sub t =
    (rows (without_id iss (find? (by_claims t.issuers iss sub) t.user_info)), t)

abbrev pub has_user_id : PrefixedId → UserRow → Bool
has_user_id id u = u.id == id

unfoldable pub with_id : Option (UserRow × IssuerRow) → Option UserInfo
with_id none = none
with_id (some (u, i)) =
    some (record { id = u.id; name = u.name; email = u.email; issuer = i.uri; subject = u.sub })

-- SELECT … FROM user_info ui JOIN issuers i ON ui.iss_id = i.id WHERE ui.id = $1
unfoldable pub select_user_by_id : PrefixedId → Stmt (Option UserInfo)
unfolding join with_id
select_user_by_id id t = (rows (with_id (join (find? (has_user_id id) t.user_info) t.issuers)), t)

unfoldable pub owner_of : Option (UserRow × IssuerRow) → Option PrefixedId
owner_of none = none
owner_of (some (u, i)) = some i.owner_id

-- SELECT issuers.owner_id FROM issuers, user_info WHERE issuers.id = user_info.iss_id AND …
unfoldable pub select_user_owner : PrefixedId → Stmt (Option PrefixedId)
unfolding join owner_of
select_user_owner id t = (rows (owner_of (join (find? (has_user_id id) t.user_info) t.issuers)), t)

unfoldable pub id_of : Option IssuerRow → Option PrefixedId
id_of none = none
id_of (some i) = some i.id

-- SELECT id FROM issuers WHERE uri = $1
unfoldable pub select_issuer_id : String → Stmt (Option PrefixedId)
unfolding id_of
select_issuer_id uri t = (rows (id_of (find? (has_uri uri) t.issuers)), t)

-- UNIQUE (iss_id, sub)
abbrev pub same_user : UserRow → UserRow → Bool
same_user new u = u.iss_id == new.iss_id && u.sub == new.sub

-- INSERT INTO user_info (…) VALUES ($1, …, $5) ON CONFLICT (sub, iss_id)
-- DO UPDATE SET sub = excluded.sub, iss_id = excluded.iss_id RETURNING id
-- On a conflict the two columns are set to the values that they have.
unfoldable pub upsert_user : UserRow → Stmt PrefixedId
upsert_user new t = elim (find? (same_user new) t.user_info) [
  | some old ↦ (rows old.id, t)
  | none ↦
      if any (has_user_id new.id) t.user_info
      then (violation duplicate_key, t)
      else if any (issued_by new) t.issuers
      then (rows new.id, record t { user_info = t.user_info ++ new ∷ [] })
      else (violation foreign_key, t)
]

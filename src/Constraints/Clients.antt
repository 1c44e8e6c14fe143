-- ===== src/Constraints/Clients.antt =====
-- internal/storage/oauth_client.go: every statement keeps the constraints.
use identity_api.Common.{not, inl, inr, any, Bool-cases, eq_comm}
use identity_api.Types.{PrefixedId}
use identity_api.Platform.Schema.{ClientRow}
use identity_api.Storage.Clients.Sql.{has_id, insert_client, delete_client}
use identity_api.Constraints.{Respects, same_client}
use identity_api.Constraints.Rows.{keep-Apart, append-Apart}

pub insert_client-Respects : (c : ClientRow) → Respects (insert_client c)
unfolding insert_client
insert_client-Respects c t h = elim (Bool-cases (any (has_id c.id) t.oauth_clients)) [
  | inl e ↦ rw e h
  | inr e ↦ rw e (record {
    issuers = h.issuers;
    clients = append-Apart same_client t.oauth_clients c (λ a b. eq_comm b.id a.id) e h.clients;
    groups = h.groups;
  })
]

pub delete_client-Respects : (id : PrefixedId) → Respects (delete_client id)
unfolding delete_client
delete_client-Respects id t h = record {
  issuers = h.issuers;
  clients = keep-Apart same_client (λ c. not (has_id id c)) t.oauth_clients h.clients;
  groups = h.groups;
}

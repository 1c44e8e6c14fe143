-- ===== src/Constraints/Sound.antt =====
-- The constraints, of what is committed and of what the open transaction sees, as an invariant.
use identity_api.Platform.{View}
use identity_api.Platform.Schema.{Stmt}
use identity_api.Invariant.{Allows, Tells, IsInvariant, AllowsMembers}
use identity_api.Constraints.{IsConsistent, Respects}
use identity_api.Constraints.Groups.{
  insert_group_row-Respects, update_group_row-Respects, delete_group_row-Respects,
  delete_member-Respects, delete_members-Respects, upsert_members-Respects,
}
use identity_api.Constraints.Issuers.{
  insert_issuer_row-Respects, update_issuer_row-Respects, delete_users_of_issuer-Respects,
  delete_issuer_row-Respects,
}
use identity_api.Constraints.Users.{upsert_user-Respects}
use identity_api.Constraints.Clients.{insert_client-Respects, delete_client-Respects}
use identity_api.Platform.{Event}

pub record IsSound (v : View) : Type 0 where
  pub committed : IsConsistent v.committed
  pub working : IsConsistent v.working

allow : {A : Type 0} {st : Stmt A} → Respects st → Allows IsSound st
allow r = record {
  runs = λ v h. record { committed = h.committed; working = r v.working h.working };
}

tell : {e : Event} → Tells IsSound e
tell = record { accepts = λ v h. record { committed = h.committed; working = h.working } }

pub IsSound-IsInvariant : IsInvariant IsSound
IsSound-IsInvariant = record {
  begins = λ v h. record { committed = h.committed; working = h.committed };
  commits = λ v h. record { committed = h.working; working = h.working };
  swaps = λ v h. record { committed = h.working; working = h.committed };
  inserts_group = λ g. allow (insert_group_row-Respects g);
  updates_group = λ name description id. allow (update_group_row-Respects name description id);
  deletes_group = λ id. allow (delete_group_row-Respects id);
  inserts_issuer = λ i. allow (insert_issuer_row-Respects i);
  updates_issuer = λ id bs. allow (update_issuer_row-Respects id bs);
  deletes_users = λ id. allow (delete_users_of_issuer-Respects id);
  deletes_issuer = λ id. allow (delete_issuer_row-Respects id);
  upserts_user = λ u. allow (upsert_user-Respects u);
  inserts_client = λ c. allow (insert_client-Respects c);
  deletes_client = λ id. allow (delete_client-Respects id);
  tells_created = λ gid id. tell;
  tells_deleted = λ gid id. tell;
}

pub IsSound-AllowsMembers : AllowsMembers IsSound
IsSound-AllowsMembers = record {
  upserts = λ gid sids. allow (upsert_members-Respects gid sids);
  deletes_one = λ gid sid. allow (delete_member-Respects gid sid);
  deletes_all = λ gid sids. allow (delete_members-Respects gid sids);
  tells_added = λ gid rels. tell;
  tells_removed = λ gid rels. tell;
}

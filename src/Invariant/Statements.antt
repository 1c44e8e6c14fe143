-- ===== src/Invariant/Statements.antt =====
-- The statements that an invariant allows: those that it names, and those that read.
use identity_api.Common.{String, List}
use identity_api.Types.{PrefixedId, Group}
use identity_api.Platform.{View, Relation, create_relationships, delete_relationships}
use identity_api.Platform.Schema.{IssuerRow, UserRow, ClientRow}
use identity_api.Storage.Groups.Sql.{
  insert_group_row, select_group, update_group_row, delete_group_row, upsert_members, delete_member,
  delete_members,
}
use identity_api.Storage.Issuers.Sql.{
  insert_issuer_row, select_issuer_by_id, select_issuer_by_uri, ColBinding, update_issuer_row,
  delete_users_of_issuer, delete_issuer_row,
}
use identity_api.Storage.Users.Sql.{
  select_user_by_claims, select_user_by_id, select_user_owner, select_issuer_id, upsert_user,
}
use identity_api.Storage.Clients.Sql.{insert_client, select_client, delete_client}
use identity_api.Events.{group_topic}
use identity_api.Invariant.{
  Allows, Tells, IsInvariant, AllowsMembers, parent, kept_rules, kept-publish,
}

module _ {I : View → Type 0} (inv : IsInvariant I) where
  pub insert_group_row-Allows : (g : Group) → Allows I (insert_group_row g)
  insert_group_row-Allows = inv.inserts_group

  pub update_group_row-Allows :
      (name description : String) (id : PrefixedId)
      → Allows I (update_group_row name description id)
  update_group_row-Allows = inv.updates_group

  pub delete_group_row-Allows : (id : PrefixedId) → Allows I (delete_group_row id)
  delete_group_row-Allows = inv.deletes_group

  pub insert_issuer_row-Allows : (i : IssuerRow) → Allows I (insert_issuer_row i)
  insert_issuer_row-Allows = inv.inserts_issuer

  pub update_issuer_row-Allows :
      (id : PrefixedId) (bs : List ColBinding) → Allows I (update_issuer_row id bs)
  update_issuer_row-Allows = inv.updates_issuer

  pub delete_users_of_issuer-Allows : (id : PrefixedId) → Allows I (delete_users_of_issuer id)
  delete_users_of_issuer-Allows = inv.deletes_users

  pub delete_issuer_row-Allows : (id : PrefixedId) → Allows I (delete_issuer_row id)
  delete_issuer_row-Allows = inv.deletes_issuer

  pub upsert_user-Allows : (u : UserRow) → Allows I (upsert_user u)
  upsert_user-Allows = inv.upserts_user

  pub insert_client-Allows : (c : ClientRow) → Allows I (insert_client c)
  insert_client-Allows = inv.inserts_client

  pub delete_client-Allows : (id : PrefixedId) → Allows I (delete_client id)
  delete_client-Allows = inv.deletes_client

  pub parent_created :
      (gid id : PrefixedId) → Tells I (create_relationships group_topic gid (parent id))
  parent_created = inv.tells_created

  pub parent_deleted :
      (gid id : PrefixedId) → Tells I (delete_relationships group_topic gid (parent id))
  parent_deleted = inv.tells_deleted

module _ {I : View → Type 0} (m : AllowsMembers I) where
  pub upsert_members-Allows :
      (gid : PrefixedId) (sids : List PrefixedId) → Allows I (upsert_members gid sids)
  upsert_members-Allows = m.upserts

  pub delete_member-Allows : (gid sid : PrefixedId) → Allows I (delete_member gid sid)
  delete_member-Allows = m.deletes_one

  pub delete_members-Allows :
      (gid : PrefixedId) (sids : List PrefixedId) → Allows I (delete_members gid sids)
  delete_members-Allows = m.deletes_all

  pub members_added :
      (gid : PrefixedId) (rels : List Relation)
      → Tells I (create_relationships group_topic gid rels)
  members_added = m.tells_added

  pub members_removed :
      (gid : PrefixedId) (rels : List Relation)
      → Tells I (delete_relationships group_topic gid rels)
  members_removed = m.tells_removed

module _ {I : View → Type 0} where
  pub select_group-Allows : (id : PrefixedId) → Allows I (select_group id)
  unfolding select_group
  select_group-Allows id = record { runs = λ v h. h }

  pub select_issuer_by_id-Allows : (id : PrefixedId) → Allows I (select_issuer_by_id id)
  unfolding select_issuer_by_id
  select_issuer_by_id-Allows id = record { runs = λ v h. h }

  pub select_issuer_by_uri-Allows : (uri : String) → Allows I (select_issuer_by_uri uri)
  unfolding select_issuer_by_uri
  select_issuer_by_uri-Allows uri = record { runs = λ v h. h }

  pub select_user_by_claims-Allows : (iss sub : String) → Allows I (select_user_by_claims iss sub)
  unfolding select_user_by_claims
  select_user_by_claims-Allows iss sub = record { runs = λ v h. h }

  pub select_user_by_id-Allows : (id : PrefixedId) → Allows I (select_user_by_id id)
  unfolding select_user_by_id
  select_user_by_id-Allows id = record { runs = λ v h. h }

  pub select_user_owner-Allows : (id : PrefixedId) → Allows I (select_user_owner id)
  unfolding select_user_owner
  select_user_owner-Allows id = record { runs = λ v h. h }

  pub select_issuer_id-Allows : (uri : String) → Allows I (select_issuer_id uri)
  unfolding select_issuer_id
  select_issuer_id-Allows uri = record { runs = λ v h. h }

  pub select_client-Allows : (id : PrefixedId) → Allows I (select_client id)
  unfolding select_client
  select_client-Allows id = record { runs = λ v h. h }

pub ruleset statement_rules = (
  kept_rules, insert_group_row-Allows, update_group_row-Allows, delete_group_row-Allows,
  insert_issuer_row-Allows, update_issuer_row-Allows, delete_users_of_issuer-Allows,
  delete_issuer_row-Allows, upsert_user-Allows, insert_client-Allows, delete_client-Allows,
  select_group-Allows, select_issuer_by_id-Allows, select_issuer_by_uri-Allows,
  select_user_by_claims-Allows, select_user_by_id-Allows, select_user_owner-Allows,
  select_issuer_id-Allows, select_client-Allows,
)

pub ruleset change_rules =
    (statement_rules, upsert_members-Allows, delete_member-Allows, delete_members-Allows)

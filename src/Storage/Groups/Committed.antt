-- ===== src/Storage/Groups/Committed.antt =====
-- The group service leaves the committed tables alone: only the middleware commits.
use identity_api.Common.{List, [], ◌∷◌}
use identity_api.Types.{PrefixedId, Group, GroupUpdate}
use identity_api.Exec.Keeps.{Keeps, keeps_rules}
use identity_api.Platform.{Platform, IsDocumented}
use identity_api.Platform.Schema.{Stmt}
use identity_api.Platform.Committed.{SameCommitted, committed-exec, committed-query, platform_rules}
use identity_api.Storage.{Ctx, with_tx, background, query_row}
use identity_api.Storage.Reads.{committed-next_rows}
use identity_api.Storage.Groups.{
  fetch_group_by_id, insert_group, create_group, update_group, delete_group, add_group_members,
  list_all_group_members, remove_group_member, replace_group_members, group_members_count,
}

pub committed-query_row :
    {p : Platform} (d : IsDocumented p) {A : Type 0} (ctx : Ctx) (st : Stmt A)
    → Keeps (SameCommitted p) (query_row p ctx st)
unfolding query_row
committed-query_row d with_tx st = record { at = (committed-exec d st).at }
committed-query_row d background st = record { at = (committed-query d "" st).at }

pub ruleset storage_rules = (keeps_rules, platform_rules, committed-query_row, committed-next_rows)

module _ {p : Platform} (d : IsDocumented p) (ctx : Ctx) where
  pub committed-fetch_group_by_id :
      (id : PrefixedId) → Keeps (SameCommitted p) (fetch_group_by_id p ctx id)
  unfolding fetch_group_by_id
  committed-fetch_group_by_id id = search storage_rules

  pub committed-insert_group : (g : Group) → Keeps (SameCommitted p) (insert_group p ctx g)
  unfolding insert_group
  committed-insert_group g = search storage_rules

ruleset fetch_rules = (storage_rules, committed-fetch_group_by_id, committed-insert_group)

module _ {p : Platform} (d : IsDocumented p) (ctx : Ctx) where
  pub committed-create_group : (g : Group) → Keeps (SameCommitted p) (create_group p ctx g)
  unfolding create_group
  committed-create_group g = search fetch_rules

  pub committed-update_group :
      (id : PrefixedId) (u : GroupUpdate) → Keeps (SameCommitted p) (update_group p ctx id u)
  unfolding update_group
  committed-update_group id u = search fetch_rules

  pub committed-delete_group : (id : PrefixedId) → Keeps (SameCommitted p) (delete_group p ctx id)
  unfolding delete_group
  committed-delete_group id = search fetch_rules

  pub committed-add_group_members :
      (gid : PrefixedId) (subjects : List PrefixedId)
      → Keeps (SameCommitted p) (add_group_members p ctx gid subjects)
  unfolding add_group_members
  committed-add_group_members gid [] = search fetch_rules
  committed-add_group_members gid (s ∷ ss) = search fetch_rules

  pub committed-list_all_group_members :
      (gid : PrefixedId) → Keeps (SameCommitted p) (list_all_group_members p ctx gid)
  unfolding list_all_group_members
  committed-list_all_group_members gid = search fetch_rules

  pub committed-remove_group_member :
      (gid sid : PrefixedId) → Keeps (SameCommitted p) (remove_group_member p ctx gid sid)
  unfolding remove_group_member
  committed-remove_group_member gid sid = search fetch_rules

ruleset member_rules = (fetch_rules, committed-add_group_members, committed-list_all_group_members)

module _ {p : Platform} (d : IsDocumented p) where
  pub committed-replace_group_members :
      (ctx : Ctx) (gid : PrefixedId) (incoming : List PrefixedId)
      → Keeps (SameCommitted p) (replace_group_members p ctx gid incoming)
  unfolding replace_group_members
  committed-replace_group_members ctx gid incoming = search member_rules depth 9

  pub committed-group_members_count :
      (gid : PrefixedId) → Keeps (SameCommitted p) (group_members_count p gid)
  unfolding group_members_count
  committed-group_members_count gid = search storage_rules

pub ruleset group_rules = (
  storage_rules, committed-fetch_group_by_id, committed-create_group, committed-update_group,
  committed-delete_group, committed-add_group_members, committed-remove_group_member,
  committed-replace_group_members, committed-group_members_count,
)

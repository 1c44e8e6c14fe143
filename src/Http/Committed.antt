-- ===== src/Http/Committed.antt =====
-- No handler commits: only the middleware does.
use identity_api.Common.{ℕ, String, List, [], ◌∷◌}
use identity_api.Types.{PrefixedId, GroupUpdate}
use identity_api.Exec.{Exec}
use identity_api.Exec.Keeps.{Keeps, Keeps-bind}
use identity_api.Platform.{Platform, IsDocumented, Relation, Event}
use identity_api.Platform.Committed.{
  SameCommitted, committed-rollback, committed-publish, committed_preorder,
}
use identity_api.Storage.{Ctx, with_tx, background, rollback_context_tx}
use identity_api.Storage.Groups.Committed.{storage_rules, group_rules}
use identity_api.Storage.Groups as Storage
use identity_api.Events
use identity_api.Http.{parse_id, parse_ids, check_access, notify, rollback_and_return_error}
use identity_api.Http.Groups
use identity_api.Http.Groups.{CreateGroup}
use identity_api.Http.Members

module _ {p : Platform} (d : IsDocumented p) where
  committed-rollback_context_tx : (ctx : Ctx) → Keeps (SameCommitted p) (rollback_context_tx p ctx)
  unfolding rollback_context_tx
  committed-rollback_context_tx with_tx = record { at = (committed-rollback d).at }
  committed-rollback_context_tx background = record { at = (committed_preorder d).stays }

  committed-rollback_and_return_error :
      {A : Type 0} (ctx : Ctx) (code : ℕ)
      → Keeps (SameCommitted p) (rollback_and_return_error p {A = A} ctx code)
  unfolding rollback_and_return_error
  committed-rollback_and_return_error ctx code =
      search (storage_rules, committed-rollback_context_tx)

  committed-parse_id : (id : PrefixedId) → Keeps (SameCommitted p) (parse_id p id)
  unfolding parse_id
  committed-parse_id id = search storage_rules

  committed-parse_ids : (ids : List PrefixedId) → Keeps (SameCommitted p) (parse_ids p ids)
  unfolding parse_ids
  committed-parse_ids [] = search storage_rules
  committed-parse_ids (id ∷ ids) =
      Keeps-bind (committed_preorder d) (parse_id p id) (λ _. parse_ids p ids)
        (committed-parse_id id) (λ _. committed-parse_ids ids)

  committed-access :
      (id : PrefixedId) (action : String) → Keeps (SameCommitted p) (check_access p id action)
  unfolding check_access
  committed-access id action = search storage_rules

  committed-send :
      (rels : List Relation) (e : Event) → Keeps (SameCommitted p) (Events.send rels (p.publish e))
  unfolding Events.send
  committed-send [] e = search storage_rules
  committed-send (r ∷ rs) e = record { at = (committed-publish d e).at }

  committed-notify :
      (ctx : Ctx) (m : Exec p.World (Unit {0}))
      → Keeps (SameCommitted p) m
      → Keeps (SameCommitted p) (notify p ctx m)
  unfolding notify
  committed-notify ctx m h = search (storage_rules, committed-rollback_and_return_error)

ruleset handler_rules = (
  group_rules, committed-parse_id, committed-parse_ids, committed-access, committed-send,
  committed-notify,
)

module _ {p : Platform} (d : IsDocumented p) (ctx : Ctx) where
  pub committed-create_group :
      (owner_id : PrefixedId) (body : CreateGroup)
      → Keeps (SameCommitted p) (Groups.create_group p ctx owner_id body)
  unfolding Groups.create_group Events.create_group
  committed-create_group owner_id body = search handler_rules depth 9

  pub committed-update_group :
      (gid : PrefixedId) (body : GroupUpdate)
      → Keeps (SameCommitted p) (Groups.update_group p ctx gid body)
  unfolding Groups.update_group
  committed-update_group gid body = search handler_rules depth 9

  pub committed-delete_group :
      (gid : PrefixedId) → Keeps (SameCommitted p) (Groups.delete_group p ctx gid)
  unfolding Groups.delete_group Events.delete_group Storage.get_group_by_id
  committed-delete_group gid = search handler_rules depth 12

  pub committed-add_group_members :
      (gid : PrefixedId) (member_ids : List PrefixedId)
      → Keeps (SameCommitted p) (Members.add_group_members p ctx gid member_ids)
  unfolding Members.add_group_members Events.add_group_members
  committed-add_group_members gid member_ids = search handler_rules depth 9

  pub committed-remove_group_member :
      (gid sid : PrefixedId) → Keeps (SameCommitted p) (Members.remove_group_member p ctx gid sid)
  unfolding Members.remove_group_member Events.remove_group_members
  committed-remove_group_member gid sid = search handler_rules depth 9

  pub committed-replace_group_members :
      (gid : PrefixedId) (member_ids : List PrefixedId)
      → Keeps (SameCommitted p) (Members.replace_group_members p ctx gid member_ids)
  unfolding Members.replace_group_members Events.add_group_members Events.remove_group_members
  committed-replace_group_members gid member_ids = search handler_rules depth 12

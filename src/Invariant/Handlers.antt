-- ===== src/Invariant/Handlers.antt =====
-- internal/api/httpsrv: every handler keeps an invariant.
use identity_api.Common.{ℕ, String, List, [], ◌∷◌}
use identity_api.Types.{PrefixedId, GroupUpdate}
use identity_api.Types.Issuers.{Cel}
use identity_api.Exec.{Exec}
use identity_api.Exec.Keeps.{Keeps, Keeps-bind}
use identity_api.Platform.{Platform, IsDocumented, View, Relation, Event}
use identity_api.Paging.{FormatValues}
use identity_api.Platform.Schema.{Stmt}
use identity_api.Storage.{Ctx}
use identity_api.Storage.Clients.{Hasher}
use identity_api.Storage.Listing as Storage
use identity_api.Events
use identity_api.Http.{parse_id, parse_ids, check_access, notify, rollback_and_return_error}
use identity_api.Http.Groups
use identity_api.Http.Members
use identity_api.Http.Issuers
use identity_api.Http.Clients
use identity_api.Invariant.{
  Stays, IsInvariant, AllowsMembers, Tells, kept_preorder, kept-publish, kept_rules,
}
use identity_api.Invariant.Statements.{
  parent_created, parent_deleted, members_added, members_removed,
}
use identity_api.Invariant.Services.{
  kept-begin_tx_context, kept-commit_context_tx, kept-rollback_context_tx, service_rules,
  change_service_rules,
}

module _ {p : Platform} (d : IsDocumented p) {I : View → Type 0} (inv : IsInvariant I) where
  kept-rollback_and_return_error :
      {A : Type 0} (ctx : Ctx) (code : ℕ)
      → Keeps (Stays I p) (rollback_and_return_error p {A = A} ctx code)
  unfolding rollback_and_return_error
  kept-rollback_and_return_error ctx code = search service_rules

  pub kept-parse_id : (id : PrefixedId) → Keeps (Stays I p) (parse_id p id)
  unfolding parse_id
  kept-parse_id id = search kept_rules

  pub kept-parse_ids : (ids : List PrefixedId) → Keeps (Stays I p) (parse_ids p ids)
  unfolding parse_ids
  kept-parse_ids [] = search kept_rules
  kept-parse_ids (id ∷ ids) =
      Keeps-bind (kept_preorder d) (parse_id p id) (λ _. parse_ids p ids) (kept-parse_id id)
        (λ _. kept-parse_ids ids)

  pub kept-access :
      (id : PrefixedId) (action : String) → Keeps (Stays I p) (check_access p id action)
  unfolding check_access
  kept-access id action = search kept_rules

  pub kept-notify :
      (ctx : Ctx) (m : Exec p.World (Unit {0}))
      → Keeps (Stays I p) m
      → Keeps (Stays I p) (notify p ctx m)
  unfolding notify
  kept-notify ctx m h = search (kept_rules, kept-rollback_and_return_error)

  pub kept-query_page :
      {A : Type 0} (v : FormatValues) (st : FormatValues → Stmt (List A))
      → Keeps (Stays I p) (Storage.query_page p v st)
  unfolding Storage.query_page
  kept-query_page v st = search kept_rules

pub ruleset handler_rules = (
  service_rules, kept-parse_id, kept-parse_ids, kept-access, kept-publish, parent_created,
  parent_deleted, kept-notify, kept-query_page,
)

module _ {p : Platform} (d : IsDocumented p) {I : View → Type 0} (inv : IsInvariant I)
    (ctx : Ctx) where
  pub kept-create_group :
      (owner_id : PrefixedId) (body : Groups.CreateGroup)
      → Keeps (Stays I p) (Groups.create_group p ctx owner_id body)
  unfolding Groups.create_group Events.create_group
  kept-create_group owner_id body = search handler_rules depth 9

  pub kept-get_group_by_id :
      (gid : PrefixedId) → Keeps (Stays I p) (Groups.get_group_by_id p ctx gid)
  unfolding Groups.get_group_by_id
  kept-get_group_by_id gid = search handler_rules depth 9

  pub kept-update_group :
      (gid : PrefixedId) (body : GroupUpdate)
      → Keeps (Stays I p) (Groups.update_group p ctx gid body)
  unfolding Groups.update_group
  kept-update_group gid body = search handler_rules depth 9

  pub kept-delete_group : (gid : PrefixedId) → Keeps (Stays I p) (Groups.delete_group p ctx gid)
  unfolding Groups.delete_group Events.delete_group
  kept-delete_group gid = search handler_rules depth 12

  pub kept-get_user_by_id : (id : PrefixedId) → Keeps (Stays I p) (Issuers.get_user_by_id p ctx id)
  unfolding Issuers.get_user_by_id
  kept-get_user_by_id id = search handler_rules depth 9

  pub kept-create_oauth_client :
      (h : Hasher p) (token : ℕ → Exec p.World String) (owner_id : PrefixedId)
      (body : Clients.CreateOAuthClient)
      → ((s : String) → Keeps (Stays I p) (h.hash s))
      → ((n : ℕ) → Keeps (Stays I p) (token n))
      → Keeps (Stays I p) (Clients.create_oauth_client p h token ctx owner_id body)
  unfolding Clients.create_oauth_client
  kept-create_oauth_client h token owner_id body kh kt = search (handler_rules, kh, kt) depth 9

  pub kept-get_oauth_client :
      (id : PrefixedId) → Keeps (Stays I p) (Clients.get_oauth_client p ctx id)
  unfolding Clients.get_oauth_client
  kept-get_oauth_client id = search handler_rules depth 9

  pub kept-delete_oauth_client :
      (id : PrefixedId) → Keeps (Stays I p) (Clients.delete_oauth_client p ctx id)
  unfolding Clients.delete_oauth_client
  kept-delete_oauth_client id = search handler_rules depth 9

  module _ (c : Cel) where
    pub kept-create_issuer :
        (owner_id : PrefixedId) (body : Issuers.CreateIssuer)
        → Keeps (Stays I p) (Issuers.create_issuer p c ctx owner_id body)
    unfolding Issuers.create_issuer
    kept-create_issuer owner_id body = search handler_rules depth 12

    pub kept-get_issuer_by_id :
        (id : PrefixedId) → Keeps (Stays I p) (Issuers.get_issuer_by_id p c ctx id)
    unfolding Issuers.get_issuer_by_id
    kept-get_issuer_by_id id = search handler_rules depth 9

    pub kept-update_issuer :
        (id : PrefixedId) (body : Issuers.UpdateIssuer)
        → Keeps (Stays I p) (Issuers.update_issuer p c ctx id body)
    unfolding Issuers.update_issuer
    kept-update_issuer id body = search handler_rules depth 12

    pub kept-delete_issuer :
        (id : PrefixedId) → Keeps (Stays I p) (Issuers.delete_issuer p c ctx id)
    unfolding Issuers.delete_issuer
    kept-delete_issuer id = search handler_rules depth 9

module _ {p : Platform} (d : IsDocumented p) {I : View → Type 0} where
  kept-send :
      (rels : List Relation) (e : Event)
      → Tells I e
      → Keeps (Stays I p) (Events.send rels (p.publish e))
  unfolding Events.send
  kept-send [] e h = search kept_rules
  kept-send (r ∷ rs) e h = record { at = (kept-publish d e h).at }

ruleset member_rules =
    (handler_rules, change_service_rules, kept-send, members_added, members_removed)

module _ {p : Platform} (d : IsDocumented p) {I : View → Type 0} (inv : IsInvariant I)
    (m : AllowsMembers I) (ctx : Ctx) where
  pub kept-add_group_members :
      (gid : PrefixedId) (member_ids : List PrefixedId)
      → Keeps (Stays I p) (Members.add_group_members p ctx gid member_ids)
  unfolding Members.add_group_members Events.add_group_members
  kept-add_group_members gid member_ids = search member_rules depth 9

  pub kept-remove_group_member :
      (gid sid : PrefixedId) → Keeps (Stays I p) (Members.remove_group_member p ctx gid sid)
  unfolding Members.remove_group_member Events.remove_group_members
  kept-remove_group_member gid sid = search member_rules depth 9

  pub kept-replace_group_members :
      (gid : PrefixedId) (member_ids : List PrefixedId)
      → Keeps (Stays I p) (Members.replace_group_members p ctx gid member_ids)
  unfolding Members.replace_group_members Events.add_group_members Events.remove_group_members
  kept-replace_group_members gid member_ids = search member_rules depth 12

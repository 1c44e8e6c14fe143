-- ===== src/Invariant/Services.antt =====
-- internal/storage: every operation of the services keeps an invariant.
use identity_api.Common.{String, ◌≡◌, inl, inr, arith, List, [], ◌∷◌}
use identity_api.Types.{PrefixedId, Group, GroupUpdate}
use identity_api.Types.Users.{UserInfo}
use identity_api.Types.Clients.{OAuthClient}
use identity_api.Types.Issuers.{Cel, Issuer, IssuerUpdate}
use identity_api.Exec.{Result-cases}
use identity_api.Exec.Keeps.{Keeps}
use identity_api.Platform.{Platform, IsDocumented, View}
use identity_api.Storage.{
  Ctx, with_tx, background, begin_tx_context, commit_context_tx, rollback_context_tx,
}
use identity_api.Storage.Groups
use identity_api.Storage.Issuers
use identity_api.Storage.Users
use identity_api.Storage.Clients
use identity_api.Invariant.{
  Stays, IsInvariant, AllowsMembers, kept_preorder, kept-begin, kept-commit, kept-rollback,
  kept-publish, kept_rules,
}
use identity_api.Invariant.Statements.{statement_rules, change_rules}

module _ {p : Platform} (d : IsDocumented p) {I : View → Type 0} (inv : IsInvariant I) where
  begin_tx_context-world : (w : p.World) → (begin_tx_context p w).1 ≡ (p.begin w).1
  unfolding begin_tx_context
  begin_tx_context-world w = elim (Result-cases (p.begin w).0) [
    | inl (u, r) ↦ ground (arith, r)
    | inr (e, r) ↦ ground (arith, r)
  ]

  pub kept-begin_tx_context : Keeps (Stays I p) (begin_tx_context p)
  kept-begin_tx_context = record {
    at = λ w. rw (begin_tx_context-world w) ((kept-begin d inv).at w);
  }

  pub kept-commit_context_tx : (ctx : Ctx) → Keeps (Stays I p) (commit_context_tx p ctx)
  unfolding commit_context_tx
  kept-commit_context_tx with_tx = record { at = (kept-commit d inv).at }
  kept-commit_context_tx background = record { at = (kept_preorder d).stays }

  pub kept-rollback_context_tx : (ctx : Ctx) → Keeps (Stays I p) (rollback_context_tx p ctx)
  unfolding rollback_context_tx
  kept-rollback_context_tx with_tx = record { at = (kept-rollback d inv).at }
  kept-rollback_context_tx background = record { at = (kept_preorder d).stays }

module _ {p : Platform} (d : IsDocumented p) {I : View → Type 0} (inv : IsInvariant I)
    (ctx : Ctx) where
  pub kept-fetch_group_by_id :
      (id : PrefixedId) → Keeps (Stays I p) (Groups.fetch_group_by_id p ctx id)
  unfolding Groups.fetch_group_by_id
  kept-fetch_group_by_id id = search statement_rules

  pub kept-insert_group : (g : Group) → Keeps (Stays I p) (Groups.insert_group p ctx g)
  unfolding Groups.insert_group
  kept-insert_group g = search statement_rules

ruleset fetch_rules = (statement_rules, kept-fetch_group_by_id, kept-insert_group)

ruleset change_fetch_rules = (change_rules, kept-fetch_group_by_id)

module _ {p : Platform} (d : IsDocumented p) {I : View → Type 0} (inv : IsInvariant I)
    (ctx : Ctx) where
  pub kept-create_group : (g : Group) → Keeps (Stays I p) (Groups.create_group p ctx g)
  unfolding Groups.create_group
  kept-create_group g = search fetch_rules

  pub kept-get_group_by_id : (id : PrefixedId) → Keeps (Stays I p) (Groups.get_group_by_id p ctx id)
  unfolding Groups.get_group_by_id
  kept-get_group_by_id id = kept-fetch_group_by_id d inv ctx id

  pub kept-update_group :
      (id : PrefixedId) (u : GroupUpdate) → Keeps (Stays I p) (Groups.update_group p ctx id u)
  unfolding Groups.update_group
  kept-update_group id u = search fetch_rules depth 9

  pub kept-delete_group : (id : PrefixedId) → Keeps (Stays I p) (Groups.delete_group p ctx id)
  unfolding Groups.delete_group
  kept-delete_group id = search fetch_rules

  pub kept-list_all_group_members :
      (gid : PrefixedId) → Keeps (Stays I p) (Groups.list_all_group_members p ctx gid)
  unfolding Groups.list_all_group_members
  kept-list_all_group_members gid = search fetch_rules

  pub kept-delete_issuer : (id : PrefixedId) → Keeps (Stays I p) (Issuers.delete_issuer p ctx id)
  unfolding Issuers.delete_issuer
  kept-delete_issuer id = search statement_rules

  pub kept-lookup_user_info_by_claims :
      (iss sub : String) → Keeps (Stays I p) (Users.lookup_user_info_by_claims p ctx iss sub)
  unfolding Users.lookup_user_info_by_claims
  kept-lookup_user_info_by_claims iss sub = search statement_rules

  pub kept-lookup_user_info_by_id :
      (id : PrefixedId) → Keeps (Stays I p) (Users.lookup_user_info_by_id p ctx id)
  unfolding Users.lookup_user_info_by_id
  kept-lookup_user_info_by_id id = search statement_rules

  pub kept-lookup_user_owner_id :
      (id : PrefixedId) → Keeps (Stays I p) (Users.lookup_user_owner_id p ctx id)
  unfolding Users.lookup_user_owner_id
  kept-lookup_user_owner_id id = search statement_rules

  pub kept-store_user_info : (u : UserInfo) → Keeps (Stays I p) (Users.store_user_info p ctx u)
  unfolding Users.store_user_info
  kept-store_user_info u = search statement_rules depth 12

  pub kept-delete_oauth_client :
      (id : PrefixedId) → Keeps (Stays I p) (Clients.delete_oauth_client p ctx id)
  unfolding Clients.delete_oauth_client
  kept-delete_oauth_client id = search statement_rules

  pub kept-lookup_oauth_client_by_id :
      (id : PrefixedId) → Keeps (Stays I p) (Clients.lookup_oauth_client_by_id p ctx id)
  unfolding Clients.lookup_oauth_client_by_id
  kept-lookup_oauth_client_by_id id = search statement_rules

  pub kept-create_oauth_client :
      (h : Clients.Hasher p) (c : OAuthClient)
      → ((s : String) → Keeps (Stays I p) (h.hash s))
      → Keeps (Stays I p) (Clients.create_oauth_client p h ctx c)
  unfolding Clients.create_oauth_client
  kept-create_oauth_client h c k = search (statement_rules, k) depth 9

module _ {p : Platform} (d : IsDocumented p) {I : View → Type 0} (inv : IsInvariant I)
    (m : AllowsMembers I) (ctx : Ctx) where
  pub kept-add_group_members :
      (gid : PrefixedId) (subjects : List PrefixedId)
      → Keeps (Stays I p) (Groups.add_group_members p ctx gid subjects)
  unfolding Groups.add_group_members
  kept-add_group_members gid [] = search change_fetch_rules
  kept-add_group_members gid (s ∷ ss) = search change_fetch_rules

  pub kept-remove_group_member :
      (gid sid : PrefixedId) → Keeps (Stays I p) (Groups.remove_group_member p ctx gid sid)
  unfolding Groups.remove_group_member
  kept-remove_group_member gid sid = search change_fetch_rules

ruleset member_rules = (change_fetch_rules, kept-add_group_members, kept-list_all_group_members)

module _ {p : Platform} (d : IsDocumented p) {I : View → Type 0} (inv : IsInvariant I)
    (m : AllowsMembers I) where
  pub kept-replace_group_members :
      (ctx : Ctx) (gid : PrefixedId) (incoming : List PrefixedId)
      → Keeps (Stays I p) (Groups.replace_group_members p ctx gid incoming)
  unfolding Groups.replace_group_members
  kept-replace_group_members ctx gid incoming = search member_rules depth 9

module _ {p : Platform} (d : IsDocumented p) {I : View → Type 0} (inv : IsInvariant I) where
  pub kept-group_members_count :
      (gid : PrefixedId) → Keeps (Stays I p) (Groups.group_members_count p gid)
  unfolding Groups.group_members_count
  kept-group_members_count gid = search kept_rules

module _ {p : Platform} (d : IsDocumented p) {I : View → Type 0} (inv : IsInvariant I) (c : Cel)
    (ctx : Ctx) where
  pub kept-insert_issuer : (iss : Issuer c) → Keeps (Stays I p) (Issuers.insert_issuer p c ctx iss)
  unfolding Issuers.insert_issuer
  kept-insert_issuer iss = search statement_rules depth 9

  pub kept-get_issuer_by_id :
      (id : PrefixedId) → Keeps (Stays I p) (Issuers.get_issuer_by_id p c ctx id)
  unfolding Issuers.get_issuer_by_id
  kept-get_issuer_by_id id = search statement_rules

  pub kept-get_issuer_by_uri :
      (uri : String) → Keeps (Stays I p) (Issuers.get_issuer_by_uri p c ctx uri)
  unfolding Issuers.get_issuer_by_uri
  kept-get_issuer_by_uri uri = search statement_rules

  pub kept-update_issuer :
      (id : PrefixedId) (u : IssuerUpdate c)
      → Keeps (Stays I p) (Issuers.update_issuer p c ctx id u)
  unfolding Issuers.update_issuer
  kept-update_issuer id u = search statement_rules depth 9

ruleset issuer_rules = (statement_rules, kept-insert_issuer)

module _ {p : Platform} (d : IsDocumented p) {I : View → Type 0} (inv : IsInvariant I) (c : Cel)
    (ctx : Ctx) where
  pub kept-create_issuer : (iss : Issuer c) → Keeps (Stays I p) (Issuers.create_issuer p c ctx iss)
  unfolding Issuers.create_issuer
  kept-create_issuer iss = search issuer_rules

pub ruleset service_rules = (
  kept_rules, kept-rollback_context_tx, kept-create_group, kept-get_group_by_id, kept-update_group,
  kept-delete_group, kept-group_members_count, kept-fetch_group_by_id, kept-list_all_group_members,
  kept-create_issuer, kept-get_issuer_by_id, kept-get_issuer_by_uri, kept-update_issuer,
  kept-delete_issuer, kept-lookup_user_info_by_claims, kept-lookup_user_info_by_id,
  kept-lookup_user_owner_id, kept-store_user_info, kept-create_oauth_client,
  kept-delete_oauth_client, kept-lookup_oauth_client_by_id,
)

pub ruleset change_service_rules =
    (service_rules, kept-add_group_members, kept-remove_group_member, kept-replace_group_members)

-- ===== src/Invariant/Listings.antt =====
-- internal/api/httpsrv and internal/userinfo: every handler that lists keeps an invariant.
use identity_api.Common.{ℤ, String, Option, some, none, List}
use identity_api.Types.{PrefixedId}
use identity_api.Types.Issuers.{Cel}
use identity_api.Exec.{Result}
use identity_api.Exec.Keeps.{Keeps}
use identity_api.Platform.{Platform, IsDocumented, View}
use identity_api.Paging.{Codec, Paginator}
use identity_api.Paging.Page.{Params}
use identity_api.Storage.{Ctx}
use identity_api.Storage.Listing as Storage
use identity_api.Http.Listing
use identity_api.Userinfo
use identity_api.Invariant.{Stays, IsInvariant, kept_rules}
use identity_api.Invariant.Handlers.{handler_rules}

module _ {p : Platform} (d : IsDocumented p) {I : View → Type 0} (inv : IsInvariant I) where
  kept-collection :
      {A : Type 0} (c : Codec) (field : String) (params : Params) (id : A → String) (items : List A)
      → Keeps (Stays I p) (Listing.collection c field params id items)
  unfolding Listing.collection
  kept-collection c field params id items = search kept_rules

ruleset listing_rules = (handler_rules, kept-collection)

module _ {p : Platform} (d : IsDocumented p) {I : View → Type 0} (inv : IsInvariant I) (c : Codec)
    (as_of : Option String) where
  pub kept-list_groups :
      (owner_id : PrefixedId) (params : Params)
      → Keeps (Stays I p) (Listing.list_groups p c as_of owner_id params)
  unfolding Listing.list_groups Storage.list_groups_by_owner
  kept-list_groups owner_id params = search listing_rules depth 9

  kept-list_members :
      (ctx : Ctx) (gid : PrefixedId) (pagination : Option Paginator)
      → Keeps (Stays I p) (Storage.list_group_members p c as_of ctx gid pagination)
  unfolding Storage.list_group_members
  kept-list_members ctx gid none = search listing_rules
  kept-list_members ctx gid (some pagination) = search listing_rules depth 9

  pub kept-list_user_groups :
      (ctx : Ctx) (subject : PrefixedId) (params : Params)
      → Keeps (Stays I p) (Listing.list_user_groups p c as_of ctx subject params)
  unfolding Listing.list_user_groups Storage.list_groups_by_subject
  kept-list_user_groups ctx subject params = search listing_rules depth 12

  pub kept-list_owner_issuers :
      (cel : Cel) (owner_id : PrefixedId) (params : Params)
      → Keeps (Stays I p) (Listing.list_owner_issuers p c as_of cel owner_id params)
  unfolding Listing.list_owner_issuers Storage.get_owner_issuers
  kept-list_owner_issuers cel owner_id params = search listing_rules depth 9

  pub kept-get_issuer_users :
      (id : PrefixedId) (params : Params)
      → Keeps (Stays I p) (Listing.get_issuer_users p c as_of id params)
  unfolding Listing.get_issuer_users Storage.lookup_user_infos_by_issuer_id
  kept-get_issuer_users id params = search listing_rules depth 9

  pub kept-get_owner_oauth_clients :
      (owner_id : PrefixedId) (params : Params)
      → Keeps (Stays I p) (Listing.get_owner_oauth_clients p c as_of owner_id params)
  unfolding Listing.get_owner_oauth_clients Storage.get_owner_oauth_clients
  kept-get_owner_oauth_clients owner_id params = search listing_rules depth 9

  pub kept-userinfo_groups :
      (atoi : String → Result ℤ) (subject cursor limit : String)
      → Keeps (Stays I p) (Userinfo.list_user_groups p c as_of atoi subject cursor limit)
  unfolding Userinfo.list_user_groups Storage.list_groups_by_subject
  kept-userinfo_groups atoi subject cursor limit = search listing_rules depth 12

module _ {p : Platform} (d : IsDocumented p) {I : View → Type 0} (inv : IsInvariant I) where
  pub kept-list_group_members :
      (c : Codec) (as_of : Option String) (ctx : Ctx) (gid : PrefixedId) (params : Params)
      → Keeps (Stays I p) (Listing.list_group_members p c as_of ctx gid params)
  unfolding Listing.list_group_members
  kept-list_group_members c as_of ctx gid params = search (listing_rules, kept-list_members) depth 9

  pub kept-userinfo :
      (ctx : Ctx) (subject : PrefixedId) → Keeps (Stays I p) (Userinfo.handle p ctx subject)
  unfolding Userinfo.handle
  kept-userinfo ctx subject = search handler_rules depth 9

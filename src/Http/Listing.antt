-- ===== src/Http/Listing.antt =====
-- internal/api/httpsrv: the handlers that answer one page of a collection, and where the next begins.
pub mod Shown
pub mod Pages
mod Tests
use identity_api.Common.{String, Option, none, some, List, map}
use identity_api.Types.{PrefixedId, V1Group, to_v1_groups, to_prefixed_ids}
use identity_api.Types.Users.{V1User, to_v1_users}
use identity_api.Types.Clients.{V1OAuthClient, to_v1_oauth_clients}
use identity_api.Types.Issuers.{Cel, V1Issuer, to_v1_issuers}
use identity_api.Exec.{Exec, pure, lift, map_err, ◌>>=◌, ◌>>◌}
use identity_api.Platform.{Platform}
use identity_api.Paging.{Codec}
use identity_api.Paging.Page.{Params, Pagination, paginator, set_pagination}
use identity_api.Storage.{Ctx}
use identity_api.Storage.Users.{lookup_user_owner_id}
use identity_api.Storage.Listing as Storage
use identity_api.Http.{parse_id, check_access}
use identity_api.Http.Groups.{lookup_error}
use identity_api.Http.Issuers.{user_error, action_user_get, action_issuer_get}

abbrev pub action_group_list : String
action_group_list = "iam_group_list"

abbrev pub action_group_members_list : String
action_group_members_list = "iam_group_members_list"

abbrev pub action_issuer_list : String
action_issuer_list = "iam_issuer_list"

abbrev pub action_oauth_client_list : String
action_oauth_client_list = "iam_oauthclient_list"

module _ {W : Type 0} (c : Codec) where
  -- `req.Params.SetPagination(&collection)`, with the ids of the collection.
  unfoldable pub collection :
      {A : Type 0} → String → Params → (A → String) → List A → Exec W (List A × Pagination)
  unfolding set_pagination
  collection field params id items = do
    pagination ← lift (set_pagination c field params (map id items))
    pure (items, pagination)

module _ (p : Platform) (c : Codec) (as_of : Option String) where
  unfoldable pub list_groups : PrefixedId → Params → Exec p.World (List V1Group × Pagination)
  unfolding parse_id check_access collection Storage.list_groups_by_owner
  list_groups owner_id params = do
    parse_id p owner_id
    check_access p owner_id action_group_list
    groups ← Storage.list_groups_by_owner p c as_of owner_id (paginator "id" params)
    collection c "id" params (λ g. g.id) (to_v1_groups groups)

  unfoldable pub list_group_members :
      Ctx → PrefixedId → Params → Exec p.World (List PrefixedId × Pagination)
  unfolding parse_id check_access collection Storage.list_group_members
  list_group_members ctx gid params = do
    parse_id p gid
    check_access p gid action_group_members_list
    members ←
        map_err lookup_error
          (Storage.list_group_members p c as_of ctx gid (some (paginator "subject_id" params)))
    collection c "subject_id" params (λ m. m) members

  unfoldable pub list_user_groups :
      Ctx → PrefixedId → Params → Exec p.World (List PrefixedId × Pagination)
  unfolding parse_id check_access collection Storage.list_groups_by_subject
  list_user_groups ctx subject params = do
    parse_id p subject
    owner_id ← map_err user_error (lookup_user_owner_id p ctx subject)
    check_access p owner_id action_user_get
    groups ←
        map_err lookup_error
          (Storage.list_groups_by_subject p c as_of subject (paginator "group_id" params))
    collection c "group_id" params (λ g. g) (to_prefixed_ids groups)

  unfoldable pub list_owner_issuers :
      Cel → PrefixedId → Params → Exec p.World (List V1Issuer × Pagination)
  unfolding check_access collection Storage.get_owner_issuers
  list_owner_issuers cel owner_id params = do
    check_access p owner_id action_issuer_list
    iss ← Storage.get_owner_issuers p c as_of cel owner_id (paginator "id" params)
    issuers ← lift (to_v1_issuers cel iss)
    collection c "id" params (λ i. i.id) issuers

  unfoldable pub get_issuer_users : PrefixedId → Params → Exec p.World (List V1User × Pagination)
  unfolding check_access collection Storage.lookup_user_infos_by_issuer_id
  get_issuer_users issuer_id params = do
    check_access p issuer_id action_issuer_get
    user_infos ← Storage.lookup_user_infos_by_issuer_id p c as_of issuer_id (paginator "id" params)
    collection c "id" params (λ u. u.id) (to_v1_users user_infos)

  unfoldable pub get_owner_oauth_clients :
      PrefixedId → Params → Exec p.World (List V1OAuthClient × Pagination)
  unfolding check_access collection Storage.get_owner_oauth_clients
  get_owner_oauth_clients owner_id params = do
    check_access p owner_id action_oauth_client_list
    clients ← Storage.get_owner_oauth_clients p c as_of owner_id (paginator "id" params)
    collection c "id" params (λ k. k.id) (to_v1_oauth_clients clients)

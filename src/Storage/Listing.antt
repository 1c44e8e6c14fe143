-- ===== src/Storage/Listing.antt =====
-- The listings of internal/storage: one page of the rows of an owner, a group, a subject or an issuer.
-- A listing reads by `db`, not by the request's transaction, as of a minute ago unless its context
-- carries another time, `as_of`.
pub mod Sql
pub mod Rows
use identity_api.Common.{String, Option, none, some, List, [], ◌∷◌, map}
use identity_api.Types.{PrefixedId, Group}
use identity_api.Types.Users.{UserInfo}
use identity_api.Types.Clients.{OAuthClient}
use identity_api.Types.Issuers.{Cel, Issuer}
use identity_api.Types.Errors.{Error, external}
use identity_api.Exec.{Result, ok, err, Exec, pure, lift, ◌>>=◌, ◌>>◌}
use identity_api.Exec.Pure
use identity_api.Platform.{Platform}
use identity_api.Platform.Schema.{Tables, Stmt, IssuerRow}
use identity_api.Paging.{Codec, Paginator, FormatValues, paginate, context_as_of_system_time}
use identity_api.Paging.Clauses.{as_of_clause, with_qualifier}
use identity_api.Storage.{Ctx, next_rows}
use identity_api.Storage.Clients.{client_of}
use identity_api.Storage.Issuers.{scan_issuer}
use identity_api.Storage.Groups.{fetch_group_by_id, list_all_group_members}
use Sql.{
  listing, group_columns, group_column, groups_of, member_columns, member_column, members_of,
  Membership, membership_columns, membership_column, memberships_of, issuer_columns, issuer_column,
  issuers_of, user_columns, user_column, users_of, client_columns, client_column, clients_of,
}

-- Scanning a membership: the columns of a missing group are NULL, which no text takes.
unfoldable pub scan_membership : Membership → Result Group
scan_membership (gid, none) = err (external 2)
scan_membership (gid, some g) = ok (record g { id = gid })

unfoldable pub scan_memberships : List Membership → Result (List Group)
unfolding scan_membership
scan_memberships [] = ok []
scan_memberships (m ∷ ms) =
    Pure.◌>>=◌ (scan_membership m) λ g. Pure.◌>>=◌ (scan_memberships ms) λ gs. ok (g ∷ gs)

unfoldable pub scan_issuers : (c : Cel) → List IssuerRow → Result (List (Issuer c))
unfolding scan_issuer
scan_issuers c [] = ok []
scan_issuers c (row ∷ rows) =
    Pure.◌>>=◌ (scan_issuer c (some row)) λ i. Pure.◌>>=◌ (scan_issuers c rows) λ is. ok (i ∷ is)

-- `crdbx.Paginate(pagination, crdbx.ContextAsOfSystemTime(ctx, "-1m"))`
unfoldable pub paginated : Codec → Option String → Paginator → FormatValues
unfolding paginate context_as_of_system_time
paginated c as_of pagination = paginate c pagination (context_as_of_system_time as_of "-1m")

module _ (p : Platform) where
  -- The query, as of the time that its clause names.
  unfoldable pub query_page :
      {A : Type 0} → FormatValues → (FormatValues → Stmt (List A)) → Exec p.World (List A)
  unfolding as_of_clause next_rows
  query_page v st = next_rows p (as_of_clause v) (st v)

module _ (p : Platform) (c : Codec) (as_of : Option String) where
  unfoldable pub list_groups_by_owner : PrefixedId → Paginator → Exec p.World (List Group)
  unfolding paginated query_page listing
  list_groups_by_owner owner pagination =
      query_page p (paginated c as_of pagination)
        (listing p.before group_columns group_column (groups_of owner))

  -- `ListGroupMembers`; `none` is a nil paginator.
  unfoldable pub list_group_members :
      Ctx → PrefixedId → Option Paginator → Exec p.World (List PrefixedId)
  unfolding fetch_group_by_id list_all_group_members paginated query_page listing
  list_group_members ctx gid none = list_all_group_members p ctx gid
  list_group_members ctx gid (some pagination) = do
    fetch_group_by_id p ctx gid
    members ←
        query_page p (paginated c as_of pagination)
          (listing p.before member_columns member_column (members_of gid))
    pure (map (λ m. m.subject_id) members)

  unfoldable pub list_groups_by_subject : PrefixedId → Paginator → Exec p.World (List Group)
  unfolding paginated query_page listing scan_memberships
  list_groups_by_subject subject pagination = do
    memberships ←
        query_page p (paginated c as_of pagination)
          (listing p.before membership_columns membership_column (memberships_of subject))
    lift (scan_memberships memberships)

  unfoldable pub get_owner_issuers :
      (cel : Cel) → PrefixedId → Paginator → Exec p.World (List (Issuer cel))
  unfolding paginated query_page listing scan_issuers
  get_owner_issuers cel id pagination = do
    issuers ←
        query_page p (paginated c as_of pagination)
          (listing p.before issuer_columns issuer_column (issuers_of id))
    lift (scan_issuers cel issuers)

  unfoldable pub lookup_user_infos_by_issuer_id :
      PrefixedId → Paginator → Exec p.World (List UserInfo)
  unfolding paginated query_page listing with_qualifier
  lookup_user_infos_by_issuer_id id pagination =
      query_page p (with_qualifier (paginated c as_of pagination) "user_info")
        (listing p.before user_columns user_column (users_of id))

  unfoldable pub get_owner_oauth_clients : PrefixedId → Paginator → Exec p.World (List OAuthClient)
  unfolding paginated query_page listing
  get_owner_oauth_clients id pagination = do
    clients ←
        query_page p (paginated c as_of pagination)
          (listing p.before client_columns client_column (clients_of id))
    pure (map client_of clients)

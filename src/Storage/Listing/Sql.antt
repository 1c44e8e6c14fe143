-- ===== src/Storage/Listing/Sql.antt =====
-- The SELECT statements of internal/storage that a page limits.
use identity_api.Common.{
  String, Bool, true, not, ◌&&◌, Option, none, some, List, [], ◌∷◌, map, ◌==◌, if◌then◌else◌, keep,
  find?, contains,
}
use identity_api.Types.{PrefixedId, Group}
use identity_api.Types.Users.{UserInfo}
use identity_api.Platform.Schema.{
  Member, IssuerRow, UserRow, ClientRow, Tables, Stmt, rows, violation,
}
use identity_api.Paging.{FormatValues}
use identity_api.Paging.Page.{page}
use identity_api.Storage.Groups.Sql.{has_id}
use identity_api.Storage.Users.Sql.{issued_by}

unfoldable pub covers : List String → List String → Bool
covers columns [] = true
covers columns (field ∷ fields) = contains field columns && covers columns fields

abbrev pub undefined_column : String
undefined_column = "42703"

-- SELECT … FROM … WHERE … AND ("field" > $2 …) ORDER BY "field" … LIMIT …, from the rows of the rest of
-- the query. Rows that no field orders come as the table has them.
module _ {A : Type 0} (before : String → String → Bool) (columns : List String)
    (column : String → A → String) where
  unfoldable pub listing : (Tables → List A) → FormatValues → Stmt (List A)
  unfolding covers
  listing source v t =
      if covers columns v.fields && covers columns v.order_fields
      then (rows (page before column v (source t)), t)
      else (violation undefined_column, t)

abbrev pub group_columns : List String
group_columns = "id" ∷ "owner_id" ∷ "name" ∷ "description" ∷ []

unfoldable pub group_column : String → Group → String
group_column field g =
    if field == "id"
    then g.id
    else if field == "owner_id"
    then g.owner_id
    else if field == "name"
    then g.name
    else g.description

-- FROM groups WHERE owner_id = $1
unfoldable pub groups_of : PrefixedId → Tables → List Group
groups_of owner t = keep (λ g. g.owner_id == owner) t.groups

abbrev pub member_columns : List String
member_columns = "group_id" ∷ "subject_id" ∷ []

unfoldable pub member_column : String → Member → String
member_column field m = if field == "group_id" then m.group_id else m.subject_id

-- FROM group_members WHERE group_id = $1
unfoldable pub members_of : PrefixedId → Tables → List Member
members_of gid t = keep (λ m. m.group_id == gid) t.group_members

-- A group's id with the group, if there is one.
abbrev pub Membership : Type 0
Membership = PrefixedId × Option Group

abbrev pub membership_columns : List String
membership_columns = "group_id" ∷ []

abbrev pub membership_column : String → Membership → String
membership_column field m = m.0

-- DISTINCT, of memberships: the other columns depend on the group's id.
unfoldable pub distinct : List Membership → List Membership
distinct [] = []
distinct (m ∷ ms) = m ∷ keep (λ n. not (n.0 == m.0)) (distinct ms)

-- FROM group_members LEFT JOIN groups ON groups.id = group_members.group_id
-- WHERE group_members.subject_id = $1
unfoldable pub memberships_of : PrefixedId → Tables → List Membership
unfolding distinct
memberships_of subject t = distinct (
    map (λ m. (m.group_id, find? (has_id m.group_id) t.groups))
      (keep (λ m. m.subject_id == subject) t.group_members))

abbrev pub issuer_columns : List String
issuer_columns = "id" ∷ "owner_id" ∷ "uri" ∷ "name" ∷ "jwksuri" ∷ []

unfoldable pub issuer_column : String → IssuerRow → String
issuer_column field i =
    if field == "id"
    then i.id
    else if field == "owner_id"
    then i.owner_id
    else if field == "uri"
    then i.uri
    else if field == "name"
    then i.name
    else i.jwksuri

-- FROM issuers WHERE owner_id = $1
unfoldable pub issuers_of : PrefixedId → Tables → List IssuerRow
issuers_of owner t = keep (λ i. i.owner_id == owner) t.issuers

abbrev pub user_columns : List String
user_columns = "id" ∷ "name" ∷ "email" ∷ "sub" ∷ []

-- By the names of the columns of user_info.
unfoldable pub user_column : String → UserInfo → String
user_column field u =
    if field == "id"
    then u.id
    else if field == "name"
    then u.name
    else if field == "email"
    then u.email
    else u.subject

unfoldable pub users_with : Option IssuerRow → List UserRow → List UserInfo
users_with none users = []
users_with (some i) users =
    map (λ u. record { id = u.id; name = u.name; email = u.email; issuer = i.uri; subject = u.sub })
      (keep (λ u. issued_by u i) users)

-- FROM user_info, issuers WHERE issuers.id = $1 AND user_info.iss_id = issuers.id
unfoldable pub users_of : PrefixedId → Tables → List UserInfo
unfolding users_with
users_of id t = users_with (find? (λ i. i.id == id) t.issuers) t.user_info

abbrev pub client_columns : List String
client_columns = "id" ∷ "owner_id" ∷ "name" ∷ "secret" ∷ "audience" ∷ []

unfoldable pub client_column : String → ClientRow → String
client_column field c =
    if field == "id"
    then c.id
    else if field == "owner_id"
    then c.owner_id
    else if field == "name"
    then c.name
    else if field == "secret"
    then c.secret
    else c.audience

-- FROM oauth_clients WHERE owner_id = $1
unfoldable pub clients_of : PrefixedId → Tables → List ClientRow
clients_of owner t = keep (λ c. c.owner_id == owner) t.oauth_clients

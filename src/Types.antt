-- ===== src/Types.antt =====
-- internal/types: the records of the domain and the errors.
pub mod Errors
pub mod Users
pub mod Clients
pub mod Issuers
use identity_api.Common.{ℕ, String, Option, none, some, List, [], ◌∷◌, map, ◌==◌, if◌then◌else◌}

-- gidx.PrefixedID is a string.
abbrev pub PrefixedId : Type 0
PrefixedId = String

pub record Group : Type 0 where
  pub id : PrefixedId
  pub owner_id : PrefixedId
  pub name : String
  pub description : String

pub record GroupUpdate : Type 0 where
  pub name : Option String
  pub description : Option String

-- v1.Group of pkg/api/v1.
pub record V1Group : Type 0 where
  pub id : PrefixedId
  pub name : String
  pub owner_id : Option PrefixedId
  pub description : Option String

-- A pointer to a text that is left nil where the text is empty.
abbrev pub non_empty : String → Option String
non_empty s = if s == "" then none else some s

-- Group.ToV1Group, which never returns an error
unfoldable pub to_v1_group : Group → V1Group
to_v1_group g = record {
  id = g.id;
  name = g.name;
  owner_id = some g.owner_id;
  description = non_empty g.description;
}

-- Groups.ToV1Groups, and Groups.ToPrefixedIDs
unfoldable pub to_v1_groups : List Group → List V1Group
unfolding to_v1_group
to_v1_groups = map to_v1_group

unfoldable pub to_prefixed_ids : List Group → List PrefixedId
to_prefixed_ids = map (λ g. g.id)

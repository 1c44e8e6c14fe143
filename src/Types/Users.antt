-- ===== src/Types/Users.antt =====
-- UserInfo of internal/types/types.go, and the claims that it is read from.
use identity_api.Common.{String, Bool, ◌==◌, Option, none, some, List, [], ◌∷◌, map, if◌then◌else◌}
use identity_api.Types.{PrefixedId, non_empty}

pub record UserInfo : Type 0 where
  pub id : PrefixedId
  pub name : String
  pub email : String
  pub issuer : String
  pub subject : String

-- v1.User of pkg/api/v1.
pub record V1User : Type 0 where
  pub id : PrefixedId
  pub name : Option String
  pub email : Option String
  pub issuer : String
  pub subject : String

-- UserInfo.ToV1User, which never returns an error
unfoldable pub to_v1_user : UserInfo → V1User
to_v1_user u = record {
  id = u.id;
  name = non_empty u.name;
  email = non_empty u.email;
  issuer = u.issuer;
  subject = u.subject;
}

unfoldable pub to_v1_users : List UserInfo → List V1User
unfolding to_v1_user
to_v1_users = map to_v1_user

-- A value of a `map[string]any`: a string, a bool, nil, or a value of another type.
pub data ClaimValue : Type 0 where
  text : String → ClaimValue
  truth : Bool → ClaimValue
  null other : ClaimValue

abbrev pub Claims : Type 0
Claims = List (String × ClaimValue)

-- claims[key]
unfoldable pub claim : String → Claims → Option ClaimValue
claim key [] = none
claim key ((k, v) ∷ claims) = let rest = claim key claims in if k == key then some v else rest

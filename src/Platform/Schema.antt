-- ===== src/Platform/Schema.antt =====
-- internal/storage/migrations: the tables, and what a SQL statement is.
use identity_api.Common.{String, Option, List}
use identity_api.Types.{PrefixedId, Group}

-- A row of group_members.
pub record Member : Type 0 where
  pub group_id : PrefixedId
  pub subject_id : PrefixedId

-- A row of issuers.
pub record IssuerRow : Type 0 where
  pub id : PrefixedId
  pub owner_id : PrefixedId
  pub uri : String
  pub name : String
  pub jwksuri : String
  pub mappings : Option String
  pub conditions : Option String

-- A row of user_info.
pub record UserRow : Type 0 where
  pub id : PrefixedId
  pub name : String
  pub email : String
  pub sub : String
  pub iss_id : PrefixedId

-- A row of oauth_clients.
pub record ClientRow : Type 0 where
  pub id : PrefixedId
  pub owner_id : PrefixedId
  pub name : String
  pub secret : String
  pub audience : String

pub record Tables : Type 0 where
  pub issuers : List IssuerRow
  pub user_info : List UserRow
  pub oauth_clients : List ClientRow
  pub groups : List Group
  pub group_members : List Member

-- What a statement answers: its rows, or the code of the constraint that it would break.
pub data Reply (A : Type 0) : Type 0 where
  rows : A → Reply A
  violation : String → Reply A

abbrev pub Stmt : Type 0 → Type 0
Stmt A = Tables → Reply A × Tables

-- ===== src/Constraints.antt =====
-- internal/storage/migrations: the constraints that the tables are declared with.
pub mod Rows
pub mod Groups
pub mod Issuers
pub mod Users
pub mod Clients
pub mod Sound
use identity_api.Common.{Bool, ◌||◌, List, ◌≡◌, ◌==◌}
use identity_api.Platform.Schema.{Member, IssuerRow, UserRow, ClientRow, Tables, Stmt}
use identity_api.Types.{Group}
use identity_api.Storage.Groups.Sql as GroupsSql
use identity_api.Storage.Issuers.Sql as IssuersSql
use identity_api.Storage.Clients.Sql as ClientsSql
use identity_api.Storage.Users.Sql.{issued_by, same_user}
use Rows.{Apart, Refers}

-- PRIMARY KEY (id), UNIQUE (iss_id, sub) of `user_info`
abbrev pub same_row : UserRow → UserRow → Bool
same_row u v = v.id == u.id || same_user u v

-- PRIMARY KEY (group_id, subject_id) of `group_members`
abbrev pub same_member : Member → Member → Bool
same_member m n = GroupsSql.is_pair m.group_id m.subject_id n

-- group_members.group_id REFERENCES groups(id)
abbrev pub belongs_to : Member → Group → Bool
belongs_to m g = GroupsSql.has_id m.group_id g

-- The constraints on `groups` and `group_members`.
pub record AreGroups (groups : List Group) (members : List Member) : Type 0 where
  pub apart : Apart GroupsSql.clashes groups
  pub members_apart : Apart same_member members
  pub refer : Refers belongs_to members groups

-- The constraints on `issuers` and `user_info`.
pub record AreIssuers (issuers : List IssuerRow) (users : List UserRow) : Type 0 where
  pub apart : Apart IssuersSql.clashes issuers
  pub users_apart : Apart same_row users
  pub refer : Refers issued_by users issuers

-- PRIMARY KEY (id) of `oauth_clients`
abbrev pub same_client : ClientRow → ClientRow → Bool
same_client c d = ClientsSql.has_id c.id d

-- Every constraint of the migrations but NOT NULL, which the columns' types express.
pub record IsConsistent (t : Tables) : Type 0 where
  pub issuers : AreIssuers t.issuers t.user_info
  pub clients : Apart same_client t.oauth_clients
  pub groups : AreGroups t.groups t.group_members

-- A statement that the constraints allow keeps them, and one that they do not is refused.
abbrev pub Respects : {A : Type 0} → Stmt A → Type 0
Respects st = (t : Tables) → IsConsistent t → IsConsistent (st t).1

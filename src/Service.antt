-- ===== src/Service.antt =====
-- internal/api/httpsrv/server.gen.go and handler.go: the operations of the management API, each with
-- its parameters and its body, and how a request reaches its handler, inside the storage middleware.
pub mod Kept
pub mod Steps
pub mod Agreement
pub mod Sync
pub mod Sent
mod Tests
use identity_api.Common.{ℕ, String, Option, List}
use identity_api.Types.{PrefixedId, GroupUpdate, V1Group}
use identity_api.Types.Users.{V1User}
use identity_api.Types.Clients.{V1OAuthClient}
use identity_api.Types.Issuers.{Cel, V1Issuer}
use identity_api.Exec.{Exec, pure, ◌>>=◌}
use identity_api.Platform.{Platform}
use identity_api.Paging.{Codec}
use identity_api.Paging.Page.{Params, Pagination}
use identity_api.Storage.{Ctx}
use identity_api.Storage.Clients.{Hasher}
use identity_api.Http.{storage_middleware}
use identity_api.Http.Groups
use identity_api.Http.Groups.{CreateGroup}
use identity_api.Http.Members
use identity_api.Http.Issuers
use identity_api.Http.Issuers.{CreateIssuer, UpdateIssuer}
use identity_api.Http.Clients
use identity_api.Http.Clients.{CreateOAuthClient}
use identity_api.Http.Listing

-- StrictServerInterface
pub data Request : Type 0 where
  delete_oauth_client get_oauth_client : PrefixedId → Request
  delete_group get_group_by_id : PrefixedId → Request
  update_group : PrefixedId → GroupUpdate → Request
  list_group_members : PrefixedId → Params → Request
  add_group_members replace_group_members : PrefixedId → List PrefixedId → Request
  remove_group_member : PrefixedId → PrefixedId → Request
  delete_issuer get_issuer_by_id : PrefixedId → Request
  update_issuer : PrefixedId → UpdateIssuer → Request
  get_issuer_users get_owner_oauth_clients : PrefixedId → Params → Request
  create_oauth_client : PrefixedId → CreateOAuthClient → Request
  list_groups : PrefixedId → Params → Request
  create_group : PrefixedId → CreateGroup → Request
  list_owner_issuers : PrefixedId → Params → Request
  create_issuer : PrefixedId → CreateIssuer → Request
  get_user_by_id : PrefixedId → Request
  list_user_groups : PrefixedId → Params → Request

-- The bodies of the responses.
pub data Response : Type 0 where
  done : Response
  a_client : V1OAuthClient → Response
  clients : List V1OAuthClient × Pagination → Response
  a_group : V1Group → Response
  groups : List V1Group × Pagination → Response
  an_issuer : V1Issuer → Response
  issuers : List V1Issuer × Pagination → Response
  a_user : V1User → Response
  users : List V1User × Pagination → Response
  ids : List PrefixedId × Pagination → Response

abbrev answer_done : {W : Type 0} → Exec W (Unit {0}) → Exec W Response
answer_done m = m >>= λ _. pure done

abbrev answer_with : {W A : Type 0} → (A → Response) → Exec W A → Exec W Response
answer_with f m = m >>= λ a. pure (f a)

-- What the handlers take from outside: the hash of secrets, the random source, CEL, the encodings of
-- cursors, and the time that a context may carry for listings.
pub record Outside (p : Platform) : Type 1 where
  pub hasher : Hasher p
  pub token : ℕ → Exec p.World String
  pub cel : Cel
  pub codec : Codec
  pub as_of : Option String

module _ (p : Platform) (o : Outside p) where
  -- The strict handler's call of the operation.
  unfoldable pub serve : Ctx → Request → Exec p.World Response
  serve ctx (delete_oauth_client id) = answer_done (Clients.delete_oauth_client p ctx id)
  serve ctx (get_oauth_client id) = answer_with a_client (Clients.get_oauth_client p ctx id)
  serve ctx (delete_group gid) = answer_done (Groups.delete_group p ctx gid)
  serve ctx (get_group_by_id gid) = answer_with a_group (Groups.get_group_by_id p ctx gid)
  serve ctx (update_group gid body) = answer_with a_group (Groups.update_group p ctx gid body)
  serve ctx (list_group_members gid params) =
      answer_with ids (Listing.list_group_members p o.codec o.as_of ctx gid params)
  serve ctx (add_group_members gid members) =
      answer_done (Members.add_group_members p ctx gid members)
  serve ctx (replace_group_members gid members) =
      answer_done (Members.replace_group_members p ctx gid members)
  serve ctx (remove_group_member gid sid) = answer_done (Members.remove_group_member p ctx gid sid)
  serve ctx (delete_issuer id) = answer_done (Issuers.delete_issuer p o.cel ctx id)
  serve ctx (get_issuer_by_id id) = answer_with an_issuer (Issuers.get_issuer_by_id p o.cel ctx id)
  serve ctx (update_issuer id body) =
      answer_with an_issuer (Issuers.update_issuer p o.cel ctx id body)
  serve ctx (get_issuer_users id params) =
      answer_with users (Listing.get_issuer_users p o.codec o.as_of id params)
  serve ctx (get_owner_oauth_clients owner params) =
      answer_with clients (Listing.get_owner_oauth_clients p o.codec o.as_of owner params)
  serve ctx (create_oauth_client owner body) =
      answer_with a_client (Clients.create_oauth_client p o.hasher o.token ctx owner body)
  serve ctx (list_groups owner params) =
      answer_with groups (Listing.list_groups p o.codec o.as_of owner params)
  serve ctx (create_group owner body) = answer_with a_group (Groups.create_group p ctx owner body)
  serve ctx (list_owner_issuers owner params) =
      answer_with issuers (Listing.list_owner_issuers p o.codec o.as_of o.cel owner params)
  serve ctx (create_issuer owner body) =
      answer_with an_issuer (Issuers.create_issuer p o.cel ctx owner body)
  serve ctx (get_user_by_id id) = answer_with a_user (Issuers.get_user_by_id p ctx id)
  serve ctx (list_user_groups id params) =
      answer_with ids (Listing.list_user_groups p o.codec o.as_of ctx id params)

  unfoldable pub handle_request : Request → Exec p.World Response
  unfolding serve storage_middleware
  handle_request r = storage_middleware p (λ ctx. serve ctx r)

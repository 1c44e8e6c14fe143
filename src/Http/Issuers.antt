-- ===== src/Http/Issuers.antt =====
-- internal/api/httpsrv/handler_issuer.go and handle_user.go: issuers, and one user.
use identity_api.Common.{String, if◌then◌else◌, Option, none, some, List}
use identity_api.Types.{PrefixedId}
use identity_api.Types.Users.{V1User, to_v1_user}
use identity_api.Types.Issuers.{
  Cel, Entries, Conditions, V1Issuer, new_claims_mapping, new_claim_conditions, to_v1_issuer,
}
use identity_api.Types.Errors.{Error, http, with_status, issuer_not_found, is_user_info_not_found}
use identity_api.Exec.{Result, ok, err, Exec, pure, lift, map_err, branch, ◌>>=◌, ◌>>◌}
use identity_api.Exec.Pure
use identity_api.Platform.{Platform}
use identity_api.Storage.{Ctx}
use identity_api.Storage.Issuers as Storage
use identity_api.Storage.Users as Users
use identity_api.Http.{check_access}

abbrev pub action_issuer_create : String
action_issuer_create = "iam_issuer_create"

abbrev pub action_issuer_update : String
action_issuer_update = "iam_issuer_update"

abbrev pub action_issuer_delete : String
action_issuer_delete = "iam_issuer_delete"

abbrev pub action_issuer_get : String
action_issuer_get = "iam_issuer_get"

abbrev pub action_user_get : String
action_user_get = "iam_user_get"

-- The body of a create request.
pub record CreateIssuer : Type 0 where
  pub name : String
  pub uri : String
  pub jwksuri : String
  pub claim_mappings : Option (List (String × String))
  pub claim_conditions : Option String

-- The body of an update request.
pub record UpdateIssuer : Type 0 where
  pub name : Option String
  pub uri : Option String
  pub jwksuri : Option String
  pub claim_mappings : Option (List (String × String))
  pub claim_conditions : Option String

-- `case types.ErrorIssuerNotFound: return nil, errorNotFound`
unfoldable pub not_found_error : Error → Error
not_found_error issuer_not_found = with_status 404
not_found_error e = e

unfoldable pub user_error : Error → Error
user_error e = if is_user_info_not_found e then with_status 404 else e

module _ (c : Cel) where
  unfoldable pub parsed_mappings : Option (List (String × String)) → Result (Option (Entries c))
  parsed_mappings none = ok none
  parsed_mappings (some m) = Pure.◌>>=◌ (new_claims_mapping c m) (λ entries. ok (some entries))

  unfoldable pub parsed_conditions : Option String → Result (Option (Conditions c))
  parsed_conditions none = ok none
  parsed_conditions (some expr) =
      Pure.◌>>=◌ (new_claim_conditions c expr) (λ conditions. ok (some conditions))

module _ (p : Platform) (c : Cel) where
  unfoldable pub create_issuer : Ctx → PrefixedId → CreateIssuer → Exec p.World V1Issuer
  create_issuer ctx owner_id body = do
    check_access p owner_id action_issuer_create
    mappings ← map_err (λ _. with_status 400) (lift (parsed_mappings c body.claim_mappings))
    conditions ← map_err (λ _. http 400) (lift (parsed_conditions c body.claim_conditions))
    id ← map_err (λ _. with_status 500) (p.new_id "idntiss")
    issuer ← Storage.create_issuer p c ctx (record {
      owner_id = owner_id;
      id = id;
      name = body.name;
      uri = body.uri;
      jwksuri = body.jwksuri;
      claim_mappings = mappings;
      claim_conditions = conditions;
    })
    lift (to_v1_issuer c issuer)

  unfoldable pub get_issuer_by_id : Ctx → PrefixedId → Exec p.World V1Issuer
  get_issuer_by_id ctx id = do
    iss ← map_err not_found_error (Storage.get_issuer_by_id p c ctx id)
    check_access p iss.owner_id action_issuer_get
    lift (to_v1_issuer c iss)

  unfoldable pub update_issuer : Ctx → PrefixedId → UpdateIssuer → Exec p.World V1Issuer
  update_issuer ctx id body = do
    iss ← map_err not_found_error (Storage.get_issuer_by_id p c ctx id)
    check_access p iss.owner_id action_issuer_update
    mappings ← map_err (λ _. with_status 400) (lift (parsed_mappings c body.claim_mappings))
    conditions ← map_err (λ _. http 400) (lift (parsed_conditions c body.claim_conditions))
    issuer ← map_err not_found_error (
        Storage.update_issuer p c ctx id (record {
          name = body.name;
          uri = body.uri;
          jwksuri = body.jwksuri;
          claim_mappings = mappings;
          claim_conditions = conditions;
        }))
    lift (to_v1_issuer c issuer)

  -- `case nil, types.ErrorIssuerNotFound:` after the deletion
  unfoldable pub deleted : Error → Result (Unit {0})
  deleted issuer_not_found = ok tt
  deleted e = err e

  unfoldable pub delete_issuer : Ctx → PrefixedId → Exec p.World (Unit {0})
  delete_issuer ctx id = do
    iss ← map_err not_found_error (Storage.get_issuer_by_id p c ctx id)
    check_access p iss.owner_id action_issuer_delete
    branch (Storage.delete_issuer p ctx id) pure (λ e. lift (deleted e))

module _ (p : Platform) where
  unfoldable pub get_user_by_id : Ctx → PrefixedId → Exec p.World V1User
  get_user_by_id ctx id = do
    owner_id ← map_err user_error (Users.lookup_user_owner_id p ctx id)
    check_access p owner_id action_user_get
    info ← map_err user_error (Users.lookup_user_info_by_id p ctx id)
    pure (to_v1_user info)

-- ===== src/Http/Groups.antt =====
-- internal/api/httpsrv/handler_group.go: creating, reading, changing and deleting groups.
use identity_api.Common.{String, Option, none, some, ltb, if◌then◌else◌}
use identity_api.Types.{PrefixedId, GroupUpdate, V1Group, to_v1_group}
use identity_api.Types.Errors.{
  Error, http, group_exists, group_not_found, is_not_found, is_invalid_argument,
}
use identity_api.Exec.{Exec, pure, fail_if, map_err, ◌>>=◌, ◌>>◌}
use identity_api.Platform.{Platform}
use identity_api.Storage.{Ctx}
use identity_api.Storage.Groups as Storage
use identity_api.Events
use identity_api.Http.{parse_id, check_access, notify}

abbrev pub action_group_get : String
action_group_get = "iam_group_get"

abbrev pub action_group_create : String
action_group_create = "iam_group_create"

abbrev pub action_group_update : String
action_group_update = "iam_group_update"

abbrev pub action_group_delete : String
action_group_delete = "iam_group_delete"

-- The body of a create request.
pub record CreateGroup : Type 0 where
  pub name : String
  pub description : Option String

abbrev or_empty : Option String → String
or_empty none = ""
or_empty (some s) = s

unfoldable pub create_error : Error → Error
create_error group_exists = http 409
create_error e = if is_invalid_argument e then http 400 else e

unfoldable pub lookup_error : Error → Error
lookup_error e = if is_not_found e then http 404 else e

unfoldable pub update_error : Error → Error
update_error group_not_found = http 404
update_error group_exists = http 409
update_error e = e

unfoldable pub delete_error : Error → Error
delete_error e = if is_invalid_argument e then http 400 else e

module _ (p : Platform) where
  unfoldable pub create_group : Ctx → PrefixedId → CreateGroup → Exec p.World V1Group
  create_group ctx owner_id body = do
    parse_id p owner_id
    check_access p owner_id action_group_create
    id ← map_err (λ _. http 500) (p.new_id "idntgrp")
    g ← map_err create_error (
        Storage.create_group p ctx (record {
          id = id;
          owner_id = owner_id;
          name = body.name;
          description = or_empty body.description;
        }))
    notify p ctx (Events.create_group p owner_id id)
    pure (to_v1_group g)

  unfoldable pub get_group_by_id : Ctx → PrefixedId → Exec p.World V1Group
  get_group_by_id ctx gid = do
    parse_id p gid
    check_access p gid action_group_get
    g ← map_err lookup_error (Storage.get_group_by_id p ctx gid)
    pure (to_v1_group g)

  unfoldable pub update_group : Ctx → PrefixedId → GroupUpdate → Exec p.World V1Group
  update_group ctx gid body = do
    parse_id p gid
    check_access p gid action_group_update
    g ← map_err update_error (Storage.update_group p ctx gid body)
    pure (to_v1_group g)

  unfoldable pub delete_group : Ctx → PrefixedId → Exec p.World (Unit {0})
  delete_group ctx gid = do
    parse_id p gid
    check_access p gid action_group_delete
    group ← map_err lookup_error (Storage.get_group_by_id p ctx gid)
    mc ← Storage.group_members_count p gid
    fail_if (ltb 0 mc) (http 400)
    map_err delete_error (Storage.delete_group p ctx group.id)
    notify p ctx (Events.delete_group p group.owner_id group.id)

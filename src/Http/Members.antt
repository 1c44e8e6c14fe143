-- ===== src/Http/Members.antt =====
-- internal/api/httpsrv/handler_group_members.go: changing the members of a group.
use identity_api.Common.{String, List, [], ◌∷◌}
use identity_api.Types.{PrefixedId}
use identity_api.Exec.{Exec, map_err, ◌>>=◌, ◌>>◌}
use identity_api.Platform.{Platform}
use identity_api.Storage.{Ctx}
use identity_api.Storage.Groups as Storage
use identity_api.Events
use identity_api.Http.{parse_id, parse_ids, check_access, notify}
use identity_api.Http.Groups.{lookup_error}

abbrev pub action_group_members_add : String
action_group_members_add = "iam_group_members_add"

abbrev pub action_group_members_put : String
action_group_members_put = "iam_group_members_put"

abbrev pub action_group_members_remove : String
action_group_members_remove = "iam_group_members_remove"

module _ (p : Platform) where
  unfoldable pub add_group_members : Ctx → PrefixedId → List PrefixedId → Exec p.World (Unit {0})
  add_group_members ctx gid member_ids = do
    parse_id p gid
    parse_ids p member_ids
    check_access p gid action_group_members_add
    map_err lookup_error (Storage.add_group_members p ctx gid member_ids)
    notify p ctx (Events.add_group_members p gid member_ids)

  -- The subject's id is parsed twice; the first time the error is dropped.
  unfoldable pub remove_group_member : Ctx → PrefixedId → PrefixedId → Exec p.World (Unit {0})
  remove_group_member ctx gid sid = do
    parse_id p gid
    parse_id p sid
    check_access p gid action_group_members_remove
    map_err lookup_error (Storage.remove_group_member p ctx gid sid)
    notify p ctx (Events.remove_group_members p gid (sid ∷ []))

  unfoldable pub replace_group_members :
      Ctx → PrefixedId → List PrefixedId → Exec p.World (Unit {0})
  replace_group_members ctx gid member_ids = do
    parse_id p gid
    parse_ids p member_ids
    check_access p gid action_group_members_put
    changes ← map_err lookup_error (Storage.replace_group_members p ctx gid member_ids)
    notify p ctx (Events.remove_group_members p gid changes.1)
    notify p ctx (Events.add_group_members p gid changes.0)

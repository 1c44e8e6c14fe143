-- ===== src/Storage/Groups.antt =====
-- internal/storage/groups.go: the group service.
pub mod Sql
pub mod Membership
pub mod Rows
pub mod Steps
pub mod Lookup
pub mod Members
mod Tests
pub mod Committed
pub mod Replace
use identity_api.Common.{
  ℕ, zero, suc, String, Bool, Option, none, some, List, [], ◌∷◌, ◌==◌, if◌then◌else◌, nat_eq,
}
use identity_api.Types.{PrefixedId, Group, GroupUpdate}
use identity_api.Types.Errors.{
  Error, group_not_found, group_exists, group_name_empty, group_member_not_found,
  is_pq_duplicate_key_error,
}
use identity_api.Exec.{Result, ok, err, Exec, pure, lift, fail_if, map_err, ◌>>=◌, ◌>>◌}
use identity_api.Platform.{Platform}
use identity_api.Storage.{Ctx, get_context_tx, query_row, next_rows}
use identity_api.Storage.Diff.{diff}
use Sql.{
  insert_group_row, select_group, update_group_row, delete_group_row, upsert_members,
  select_members, delete_member, delete_members, count_members,
}

unfoldable pub scan_group : Option Group → Result Group
scan_group none = err group_not_found
scan_group (some g) = ok g

-- `if isPQDuplicateKeyError(err) { return types.ErrGroupExists }`
unfoldable pub group_error : Error → Error
group_error e = if is_pq_duplicate_key_error e then group_exists else e

-- `if updates.Name != nil && *updates.Name != ""`
unfoldable pub updated_name : Option String → String → String
updated_name none old = old
updated_name (some name) old = if name == "" then old else name

unfoldable pub updated_description : Option String → String → String
updated_description none old = old
updated_description (some description) old = description

unfoldable pub apply_update : Group → GroupUpdate → Group
unfolding updated_name updated_description
apply_update current updates = record current {
  name = updated_name updates.name current.name;
  description = updated_description updates.description current.description;
}

module _ (p : Platform) where
  unfoldable pub insert_group : Ctx → Group → Exec p.World (Unit {0})
  unfolding get_context_tx
  insert_group ctx group = do
    lift (get_context_tx ctx)
    fail_if (group.name == "") group_name_empty
    p.exec (insert_group_row group)

  unfoldable pub fetch_group_by_id : Ctx → PrefixedId → Exec p.World Group
  unfolding query_row scan_group
  fetch_group_by_id ctx id = do row ← query_row p ctx (select_group id); lift (scan_group row)

  unfoldable pub create_group : Ctx → Group → Exec p.World Group
  unfolding insert_group fetch_group_by_id group_error
  create_group ctx group = do
    map_err group_error (insert_group ctx group)
    fetch_group_by_id ctx group.id

  unfoldable pub get_group_by_id : Ctx → PrefixedId → Exec p.World Group
  unfolding fetch_group_by_id
  get_group_by_id = fetch_group_by_id

  unfoldable pub update_group : Ctx → PrefixedId → GroupUpdate → Exec p.World Group
  unfolding get_context_tx fetch_group_by_id apply_update group_error
  update_group ctx id updates = do
    lift (get_context_tx ctx)
    current ← fetch_group_by_id ctx id
    let incoming = apply_update current updates
    map_err group_error (p.exec (update_group_row incoming.name incoming.description incoming.id))
    pure incoming

  unfoldable pub delete_group : Ctx → PrefixedId → Exec p.World (Unit {0})
  unfolding get_context_tx fetch_group_by_id
  delete_group ctx id = do
    lift (get_context_tx ctx)
    fetch_group_by_id ctx id
    p.exec (delete_group_row id)

  unfoldable pub add_group_members : Ctx → PrefixedId → List PrefixedId → Exec p.World (Unit {0})
  unfolding get_context_tx fetch_group_by_id
  add_group_members ctx gid [] = pure tt
  add_group_members ctx gid (subject ∷ subjects) = do
    lift (get_context_tx ctx)
    fetch_group_by_id ctx gid
    p.exec (upsert_members gid (subject ∷ subjects))

  -- `ListGroupMembers` with no paginator. The rows come by `gs.db`, not by the transaction.
  unfoldable pub list_all_group_members : Ctx → PrefixedId → Exec p.World (List PrefixedId)
  unfolding fetch_group_by_id next_rows
  list_all_group_members ctx gid = do fetch_group_by_id ctx gid; next_rows p "" (select_members gid)

  unfoldable pub remove_group_member : Ctx → PrefixedId → PrefixedId → Exec p.World (Unit {0})
  unfolding get_context_tx fetch_group_by_id
  remove_group_member ctx gid subject = do
    lift (get_context_tx ctx)
    fetch_group_by_id ctx gid
    rows_affected ← p.exec (delete_member gid subject)
    fail_if (nat_eq rows_affected 0) group_member_not_found

  unfoldable pub replace_group_members :
      Ctx → PrefixedId → List PrefixedId → Exec p.World (List PrefixedId × List PrefixedId)
  unfolding get_context_tx list_all_group_members add_group_members diff
  replace_group_members ctx gid incoming = do
    lift (get_context_tx ctx)
    current ← list_all_group_members ctx gid
    let changes = diff (λ (x : PrefixedId). x) current incoming
    p.exec (delete_members gid changes.1)
    add_group_members ctx gid changes.0
    pure changes

  -- By `gs.db`: what is committed, not what the transaction has done.
  unfoldable pub group_members_count : PrefixedId → Exec p.World ℕ
  group_members_count gid = p.query "" (count_members gid)

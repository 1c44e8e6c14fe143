-- ===== src/Storage/Groups/Members.antt =====
-- What adding and removing members does to the memberships (internal/storage/groups.go).
use identity_api.Common.{
  ◌≡◌, true, not, ◌&&◌, ◌||◌, List, ◌==◌, arith, contains, inl, inr, length-keep_zero,
}
use identity_api.Types.{PrefixedId}
use identity_api.Exec.{ok, Result-cases}
use identity_api.Platform.{Platform, IsDocumented}
use identity_api.Storage.{with_tx}
use identity_api.Storage.Groups.{add_group_members, remove_group_member, fetch_group_by_id}
use identity_api.Storage.Groups.Sql.{is_pair, delete_member}
use identity_api.Storage.Groups.Membership.{is_member, any-put_members, any-delete_member}
use identity_api.Storage.Groups.Steps.{SameButMembers, view-fetch_group_by_id, add_group_members_ok}

module _ {p : Platform} (d : IsDocumented p) where
  -- When `AddGroupMembers` returns without error, the members are the old ones and the subjects
  -- given, other groups keep theirs, and nothing but `group_members` has changed.
  pub add_group_members-is_member :
      (gid : PrefixedId) (subjects : List PrefixedId) (w : p.World)
      → (add_group_members p with_tx gid subjects w).0 ≡ ok tt
      → let after = p.view (add_group_members p with_tx gid subjects w).1 in
        ((g s : PrefixedId)
          → is_member g s after.working
            ≡ (is_member g s (p.view w).working || (gid == g && contains s subjects)))
        × SameButMembers (p.view w) after
  add_group_members-is_member gid subjects w h =
      let after = add_group_members_ok d gid subjects w h in
      (
        λ g s.
            ground
              (arith, after, any-put_members gid g s subjects (p.view w).working.group_members),
        ground (arith, after),
      )

  -- When `RemoveGroupMember` returns without error, the subject was a member of the group; it no
  -- longer is, every other membership is as before, and nothing but `group_members` has changed.
  pub remove_group_member-is_member :
      (gid sid : PrefixedId) (w : p.World)
      → (remove_group_member p with_tx gid sid w).0 ≡ ok tt
      → let after = p.view (remove_group_member p with_tx gid sid w).1 in
        (is_member gid sid (p.view w).working ≡ true)
        × ((g s : PrefixedId)
            → is_member g s after.working
              ≡ (is_member g s (p.view w).working && not (g == gid && s == sid)))
        × SameButMembers (p.view w) after
  unfolding remove_group_member delete_member
  remove_group_member-is_member gid sid w h =
      elim (Result-cases (fetch_group_by_id p with_tx gid w).0) [
        | inl (old, e) ↦
            let w1 = (fetch_group_by_id p with_tx gid w).1 in
            let same = view-fetch_group_by_id d with_tx gid w in
            let law = d.exec_law (delete_member gid sid) w1 in
            let ms = (p.view w).working.group_members in
            (
              ground (arith, e, same, law, length-keep_zero (is_pair gid sid) ms),
              λ g s. ground (arith, e, same, law, any-delete_member gid sid g s ms),
              ground (arith, e, same, law),
            )
        | inr (f, e) ↦ ground (arith, e)
      ]

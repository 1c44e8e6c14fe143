-- ===== src/Storage/Groups/Replace.antt =====
-- `ReplaceGroupMembers` of internal/storage/groups.go.
use identity_api.Common.{
  ◌≡◌, not, ◌&&◌, ◌||◌, inl, inr, List, [], ◌++◌, Option, none, ap, sym, ◌∙◌, arith, any,
  contains-append, keep, map, contains, ◌==◌, if◌then◌else◌, eq_iff,
}
use identity_api.Types.{PrefixedId}
use identity_api.Types.Errors.{Failure}
use identity_api.Exec.{ok, Result-cases}
use identity_api.Platform.{Platform, IsDocumented, View}
use identity_api.Platform.Schema.{Member}
use identity_api.Storage.{with_tx}
use identity_api.Storage.Diff.{diff}
use identity_api.Storage.Diff.Changes.{diff_texts}
use identity_api.Storage.Groups.{list_all_group_members, replace_group_members}
use identity_api.Storage.Groups.Sql.{in_group, is_pair, put_members, delete_members}
use identity_api.Storage.Groups.Membership.{
  is_member, contains-select_members, any-put_members, any-delete_members,
}
use identity_api.Storage.Groups.Steps.{
  SameButMembers, asked_members, view-list_all_group_members, list_all_group_members_ok,
  add_group_members_ok,
}

abbrev current_members : PrefixedId → List Member → List PrefixedId
current_members gid ms = map (λ m. m.subject_id) (keep (in_group gid) ms)

-- What is to be added to a group and removed from it, by the members that were read.
abbrev changes : List PrefixedId → List PrefixedId → List PrefixedId × List PrefixedId
changes incoming read = diff (λ (x : PrefixedId). x) read incoming

abbrev without : PrefixedId → List PrefixedId → List Member → List Member
without gid sids = keep (λ m. not (m.group_id == gid && contains m.subject_id sids))

module _ {p : Platform} (d : IsDocumented p) where
  replace_group_members_ok :
      (gid : PrefixedId) (incoming : List PrefixedId) (w : p.World)
      (out : List PrefixedId × List PrefixedId)
      → (replace_group_members p with_tx gid incoming w).0 ≡ ok out
      → (read : List PrefixedId) × (unread : List PrefixedId) × (left : Option Failure)
        × (current_members gid (p.view w).committed.group_members ≡ read ++ unread)
        × (asked_members p with_tx gid w ≡ ok (read, left))
        × (left ≡ none → unread ≡ [])
        × (out ≡ changes incoming read)
        × (p.view (replace_group_members p with_tx gid incoming w).1 ≡ record (p.view w) {
          working = record ((p.view w).working) {
            group_members =
                put_members gid out.0 (without gid out.1 (p.view w).working.group_members);
          };
        })
  unfolding replace_group_members delete_members
  replace_group_members_ok gid incoming w out h =
      elim (Result-cases (list_all_group_members p with_tx gid w).0) [
        | inl (current, e) ↦
            let both = diff (λ (x : PrefixedId). x) current incoming in
            let w1 = (list_all_group_members p with_tx gid w).1 in
            let w2 = (p.exec (delete_members gid both.1) w1).1 in
            let (unread, left, members, asked, all) =
              list_all_group_members_ok d with_tx gid w current e in
            let view = view-list_all_group_members d with_tx gid w in
            let deleted = d.exec_law (delete_members gid both.1) w1 in
            let added = add_group_members_ok d gid both.0 w2 in
            (
              current,
              unread,
              left,
              members,
              asked,
              all,
              ground (arith, e, h, deleted),
              ground (arith, e, h, view, deleted, added),
            )
        | inr (f, e) ↦ ground (arith, e)
      ]

-- Set algebra of one replacement: remove what is not incoming, add what is not current.
replaced :
    (gid g s : PrefixedId) (incoming read unread : List PrefixedId) (ms : List Member)
    → current_members gid ms ≡ read ++ unread
    → any
        (is_pair g s)
        (put_members gid (changes incoming read).0 (without gid (changes incoming read).1 ms))
      ≡ (if g == gid
          then contains s incoming || (any (is_pair g s) ms && not (contains s read))
          else any (is_pair g s) ms)
replaced gid g s incoming read unread ms h = ground (
  arith,
  any-put_members gid g s (changes incoming read).0 (without gid (changes incoming read).1 ms),
  any-delete_members gid g s (changes incoming read).1 ms,
  diff_texts s read incoming,
  ap (λ l. contains s l) h,
  contains-append s read unread,
  contains-select_members gid s ms,
  eq_iff g gid,
  eq_iff gid g,
)

-- The members of one group are the incoming subjects and those that were there and were not read, those
-- of every other group are what they were, nothing else has changed, and the lists are the subjects
-- added and the members removed, by what was read.
abbrev pub IsReplaced :
    PrefixedId
    → List PrefixedId
    → List PrefixedId
    → List PrefixedId × List PrefixedId
    → View
    → View
    → Type 0
IsReplaced gid incoming read out before after =
    ((g s : PrefixedId)
      → is_member g s after.working ≡ (
          if g == gid
          then contains s incoming || (is_member g s before.working && not (contains s read))
          else is_member g s before.working))
    × ((s : PrefixedId)
        → (contains s out.0 ≡ (contains s incoming && not (contains s read)))
          × (contains s out.1 ≡ (contains s read && not (contains s incoming))))
    × SameButMembers before after

-- When `ReplaceGroupMembers` returns without error in a transaction that has not yet changed the
-- memberships, a beginning of the list of the group's members was read, and all of it where the rows
-- did not break off. The group's members are then the incoming subjects and those members that were not
-- read, so exactly the incoming subjects where the rows did not break off; the members of every other
-- group are what they were, and no other table, committed row or event has changed. The lists returned
-- are, as sets, the incoming subjects that were not read, and the members read that are not incoming.
pub replace_group_members-is_member :
    {p : Platform} (d : IsDocumented p) (gid : PrefixedId) (incoming : List PrefixedId)
    (w : p.World) (out : List PrefixedId × List PrefixedId)
    → (p.view w).working.group_members ≡ (p.view w).committed.group_members
    → (replace_group_members p with_tx gid incoming w).0 ≡ ok out
    → let after = p.view (replace_group_members p with_tx gid incoming w).1 in
      (read : List PrefixedId) × (unread : List PrefixedId) × (left : Option Failure)
      × (asked_members p with_tx gid w ≡ ok (read, left))
      × ((s : PrefixedId)
          → is_member gid s (p.view w).working ≡ (contains s read || contains s unread))
      × IsReplaced gid incoming read out (p.view w) after
      × (left ≡ none
          → (unread ≡ [])
            × ((s : PrefixedId) → is_member gid s after.working ≡ contains s incoming))
unfolding contains
replace_group_members-is_member {p} d gid incoming w out fresh h =
    let (read, unread, left, members, asked, all, same, after) =
      replace_group_members_ok d gid incoming w out h in
    let ms = (p.view w).working.group_members in
    let now : current_members gid ms ≡ read ++ unread =
      ap (λ (l : List Member). current_members gid l) fresh ∙ members in
    let was = λ (s : PrefixedId).
      sym (contains-select_members gid s ms)
      ∙ ap (λ (l : List PrefixedId). contains s l) now
      ∙ contains-append s read unread in
    let replaced_here = λ (g s : PrefixedId). replaced gid g s incoming read unread ms now in
    (
      read,
      unread,
      left,
      asked,
      λ s. was s,
      (
        λ g s. ground (arith, same, after, replaced_here g s),
        λ s. ground (arith, same, diff_texts s read incoming),
        ground (arith, after),
      ),
      λ e. (
        all e,
        λ s. ground (
          arith,
          same,
          after,
          replaced_here gid s,
          was s,
          ap (λ (l : List PrefixedId). contains s l) (all e),
          eq_iff gid gid,
        ),
      ),
    )

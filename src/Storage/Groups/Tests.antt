-- ===== src/Storage/Groups/Tests.antt =====
-- The theorems on groups at concrete inputs.
use identity_api.Common.{
  List, Option, ◌≡◌, ◌≢◌, refl, true, false, not, ◌&&◌, ◌||◌, none, some, [], ◌∷◌, ◌==◌, any, keep,
  find?, contains, if◌then◌else◌, ◌⊎◌,
}
use identity_api.Types.{PrefixedId, Group, GroupUpdate}
use identity_api.Types.Errors.{Failure, db, pq, group_exists, duplicate_key}
use identity_api.Exec.{ok, err}
use identity_api.Sandbox.{World, sandbox, sandbox-IsDocumented}
use identity_api.Sandbox.Data.{start, ops, dev, qa}
use identity_api.Storage.{with_tx}
use identity_api.Storage.Groups.{
  create_group, update_group, delete_group, add_group_members, remove_group_member,
  replace_group_members,
}
use identity_api.Storage.Groups.Sql.{
  in_group, clashes, insert_group_row, select_group, update_group_row, delete_group_row,
  delete_member, delete_members, upsert_members, select_members,
}
use identity_api.Storage.Groups.Membership.{is_member}
use identity_api.Storage.Groups.Steps.{asked_members, SameButGroups, SameButMembers}
use identity_api.Storage.Groups.Lookup.{
  group_at, IsUpdated, create_group-group_at, create_group_refused, update_group-group_at,
  delete_group-group_at,
}
use identity_api.Storage.Groups.Members.{add_group_members-is_member, remove_group_member-is_member}
use identity_api.Storage.Groups.Replace.{IsReplaced, replace_group_members-is_member}

replaces :
    (replace_group_members sandbox with_tx "g-ops" ("bob" ∷ "eve" ∷ []) start).0
    ≡ ok ("eve" ∷ [], "ann" ∷ [])
unfolding replace_group_members select_group select_members delete_members upsert_members any keep
    find? contains
replaces = refl

replace_group_members-is_member_example :
    let after = (replace_group_members sandbox with_tx "g-ops" ("bob" ∷ "eve" ∷ []) start).1.view in
    (read : List PrefixedId) × (unread : List PrefixedId) × (left : Option Failure) × (asked_members
        sandbox with_tx "g-ops" start
      ≡ ok (read, left))
    × ((s : PrefixedId)
        → is_member "g-ops" s start.view.working ≡ (contains s read || contains s unread))
    × IsReplaced "g-ops" ("bob" ∷ "eve" ∷ []) read ("eve" ∷ [], "ann" ∷ []) start.view after
    × (left ≡ none
        → (unread ≡ [])
          × ((s : PrefixedId)
              → is_member "g-ops" s after.working ≡ contains s ("bob" ∷ "eve" ∷ [])))
replace_group_members-is_member_example =
    replace_group_members-is_member sandbox-IsDocumented "g-ops" ("bob" ∷ "eve" ∷ []) start
      ("eve" ∷ [], "ann" ∷ []) refl replaces

creates : (create_group sandbox with_tx qa start).0 ≡ ok qa
unfolding create_group insert_group_row clashes select_group any find?
creates = refl

create_group-group_at_example :
    let after = (create_group sandbox with_tx qa start).1.view in
    ◌≡◌ {A = Group} qa qa
    × (qa.name ≢ "")
    × (group_at "g-qa" start.view ≡ none)
    × (any (λ r. r.owner_id == "tnt" && r.name == "qa") (ops ∷ dev ∷ []) ≡ false)
    × ((id : PrefixedId)
        → group_at id after ≡ (if "g-qa" == id then some qa else group_at id start.view))
    × SameButGroups start.view after
create_group-group_at_example = create_group-group_at sandbox-IsDocumented qa qa start creates

abbrev second_ops : Group
second_ops = record { id = "g-2"; owner_id = "tnt"; name = "ops"; description = "" }

clash : ((second_ops.name == "") || any (clashes second_ops) start.view.working.groups) ≡ true
unfolding clashes any
clash = refl

create_group_refused_example :
    (((create_group sandbox with_tx second_ops start).0 ≡ err group_exists)
      ⊎ ((f : Failure) × ((create_group sandbox with_tx second_ops start).0 ≡ err (db f))
          × (f ≢ pq duplicate_key)
          × (second_ops.name ≢ "")))
    × ((create_group sandbox with_tx second_ops start).1.view ≡ start.view)
create_group_refused_example = create_group_refused sandbox-IsDocumented second_ops start clash

abbrev rename : GroupUpdate
rename = record { name = some "builders"; description = none }

abbrev builders : Group
builders = record { id = "g-dev"; owner_id = "tnt"; name = "builders"; description = "builds" }

updates : (update_group sandbox with_tx "g-dev" rename start).0 ≡ ok builders
unfolding update_group update_group_row select_group any find?
updates = refl

update_group-group_at_example :
    let after = (update_group sandbox with_tx "g-dev" rename start).1.view in
    (old : Group) × (group_at "g-dev" start.view ≡ some old)
    × IsUpdated (record { name = some "builders"; description = none }) old builders
    × ((builders.name ≡ "") → (old.name ≡ ""))
    × ((other : PrefixedId)
        → group_at other after
          ≡ (if "g-dev" == other then some builders else group_at other start.view))
    × SameButGroups start.view after
update_group-group_at_example =
    update_group-group_at sandbox-IsDocumented "g-dev" rename builders start updates

abbrev emptied : World
emptied = (remove_group_member sandbox with_tx "g-dev" "ann" start).1

removes : (remove_group_member sandbox with_tx "g-dev" "ann" start).0 ≡ ok tt
unfolding remove_group_member delete_member select_group any find? keep
removes = refl

remove_group_member-is_member_example :
    (is_member "g-dev" "ann" start.view.working ≡ true)
    × ((g s : PrefixedId)
        → is_member g s emptied.view.working
          ≡ (is_member g s start.view.working && not (g == "g-dev" && s == "ann")))
    × SameButMembers start.view emptied.view
remove_group_member-is_member_example =
    remove_group_member-is_member sandbox-IsDocumented "g-dev" "ann" start removes

deletes : (delete_group sandbox with_tx "g-dev" emptied).0 ≡ ok tt
unfolding remove_group_member delete_member delete_group delete_group_row select_group any find?
    keep
deletes = refl

delete_group-group_at_example :
    let after = (delete_group sandbox with_tx "g-dev" emptied).1.view in
    (group_at "g-dev" emptied.view ≢ none)
    × (any (in_group "g-dev") emptied.view.working.group_members ≡ false)
    × ((other : PrefixedId)
        → group_at other after ≡ (if "g-dev" == other then none else group_at other emptied.view))
    × SameButGroups emptied.view after
delete_group-group_at_example = delete_group-group_at sandbox-IsDocumented "g-dev" emptied deletes

adds : (add_group_members sandbox with_tx "g-dev" ("eve" ∷ []) start).0 ≡ ok tt
unfolding add_group_members upsert_members select_group any find?
adds = refl

add_group_members-is_member_example :
    let after = (add_group_members sandbox with_tx "g-dev" ("eve" ∷ []) start).1.view in
    ((g s : PrefixedId)
      → is_member g s after.working
        ≡ (is_member g s start.view.working || ("g-dev" == g && contains s ("eve" ∷ []))))
    × SameButMembers start.view after
add_group_members-is_member_example =
    add_group_members-is_member sandbox-IsDocumented "g-dev" ("eve" ∷ []) start adds

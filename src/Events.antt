-- ===== src/Events.antt =====
-- internal/events/groups_event.go: what is told to the permissions API about groups.
pub mod Mirror
use identity_api.Common.{String, Bool, not, ◌==◌, List, [], ◌∷◌, map, keep, if◌then◌else◌}
use identity_api.Types.{PrefixedId}
use identity_api.Exec.{Exec, pure}
use identity_api.Platform.{Platform, Relation, Event, create_relationships, delete_relationships}

abbrev pub direct_member : String
direct_member = "direct_member"

abbrev pub group_parent : String
group_parent = "parent"

abbrev pub group_topic : String
group_topic = "group"

-- One relation for each subject that is not empty.
unfoldable pub member_relations : List PrefixedId → List Relation
member_relations subjects =
    map (λ (s : PrefixedId). record { relation = direct_member; subject_id = s })
      (keep (λ s. not (s == "")) subjects)

-- Nothing is sent where there is no relation.
unfoldable pub send : {W : Type 0} → List Relation → Exec W (Unit {0}) → Exec W (Unit {0})
send [] m = pure tt
send (r ∷ rs) m = m

module _ (p : Platform) where
  unfoldable pub add_group_members : PrefixedId → List PrefixedId → Exec p.World (Unit {0})
  add_group_members gid subjects =
      send (member_relations subjects)
        (p.publish (create_relationships group_topic gid (member_relations subjects)))

  unfoldable pub remove_group_members : PrefixedId → List PrefixedId → Exec p.World (Unit {0})
  remove_group_members gid subjects =
      send (member_relations subjects)
        (p.publish (delete_relationships group_topic gid (member_relations subjects)))

  unfoldable pub create_group : PrefixedId → PrefixedId → Exec p.World (Unit {0})
  create_group parent_id gid = p.publish (
      create_relationships group_topic gid
        (record { relation = group_parent; subject_id = parent_id } ∷ []))

  unfoldable pub delete_group : PrefixedId → PrefixedId → Exec p.World (Unit {0})
  delete_group parent_id gid = p.publish (
      delete_relationships group_topic gid
        (record { relation = group_parent; subject_id = parent_id } ∷ []))

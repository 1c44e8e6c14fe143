-- ===== src/Constraints/Groups.antt =====
-- internal/storage/groups.go: every statement keeps the constraints.
use identity_api.Common.{
  String, ◌≡◌, ◌∙◌, Bool, true, false, not, ◌&&◌, inl, inr, List, [], ◌∷◌, ◌++◌, map, arith, any,
  keep, Bool-cases, contains, ◌==◌, eq_comm, eq_cases,
}
use identity_api.Types.{PrefixedId, Group}
use identity_api.Platform.Schema.{Member, Tables}
use identity_api.Storage.Groups.Sql.{
  has_id, in_group, is_pair, clashes, insert_group_row, name_taken, set_group, update_group_row,
  delete_group_row, put_member, put_members, upsert_members, delete_member, delete_members,
}
use identity_api.Constraints.{AreGroups, IsConsistent, Respects, same_member, belongs_to}
use identity_api.Constraints.Rows.{
  In, any-false_at, keep-Apart, append-Apart, any-map, linked_delete, linked_append, map-Apart,
  linked_shift, linked_grow, linked_keep,
}

clashes_comm : (g r : Group) → clashes g r ≡ clashes r g
unfolding clashes
clashes_comm g r =
    ground (arith, eq_comm g.id r.id, eq_comm g.owner_id r.owner_id, eq_comm g.name r.name)

with_groups :
    (t : Tables) (groups : List Group) (members : List Member)
    → IsConsistent t
    → AreGroups groups members
    → IsConsistent (record t { groups = groups; group_members = members })
with_groups t groups members h g = record { issuers = h.issuers; clients = h.clients; groups = g }

pub insert_group_row-Respects : (g : Group) → Respects (insert_group_row g)
unfolding insert_group_row
insert_group_row-Respects g t h = elim (Bool-cases (any (clashes g) t.groups)) [
  | inl e ↦ rw e h
  | inr e ↦ rw e (
      with_groups t (t.groups ++ g ∷ []) t.group_members h (record {
        apart = append-Apart clashes t.groups g clashes_comm e h.groups.apart;
        members_apart = h.groups.members_apart;
        refer = linked_grow belongs_to t.group_members t.groups (g ∷ []) h.groups.refer;
      }))
]

set_group-has_id :
    (gid id : PrefixedId) (name description : String) (g : Group)
    → has_id gid (set_group id name description g) ≡ has_id gid g
unfolding set_group
set_group-has_id gid id name description g = ground arith

name_free :
    (id : PrefixedId) (name : String) (groups : List Group)
    → any (λ x. has_id id x && any (name_taken id name x) groups) groups ≡ false
    → (x y : Group) → In x groups
    → In y groups
    → has_id id x ≡ true
    → name_taken id name x y ≡ false
name_free id name groups h x y m n e =
    any-false_at (name_taken id name x) groups
      (ground (
        arith,
        e,
        any-false_at (λ x. has_id id x && any (name_taken id name x) groups) groups h x m,
      ))
      y n

set_group_same :
    (id : PrefixedId) (name description : String) (g : Group)
    → has_id id g ≡ true
    → set_group id name description g ≡ record g { name = name; description = description }
unfolding set_group
set_group_same id name description g h = ground (arith, h)

set_group_other :
    (id : PrefixedId) (name description : String) (g : Group)
    → has_id id g ≡ false
    → set_group id name description g ≡ g
unfolding set_group
set_group_other id name description g h = ground (arith, h)

-- A renamed group stays apart from the others where none of them has the name.
set_group-clashes :
    (id : PrefixedId) (name description : String) (groups : List Group)
    → any (λ x. has_id id x && any (name_taken id name x) groups) groups ≡ false
    → (a b : Group) → In a groups
    → In b groups
    → clashes a b ≡ false
    → clashes (set_group id name description a) (set_group id name description b) ≡ false
unfolding clashes name_taken
set_group-clashes id name description groups h a b i j k = elim (Bool-cases (has_id id a)) [
  | inl e ↦ rw (set_group_same id name description a e) (elim (Bool-cases (has_id id b)) [
    | inl f ↦
        rw (set_group_same id name description b f)
          (ground (arith, k, eq_cases a.id id, eq_cases b.id id, eq_cases b.id a.id, e, f))
    | inr f ↦
        rw (set_group_other id name description b f)
          (ground (arith, k, f, name_free id name groups h a b i j e))
  ])
  | inr e ↦ rw (set_group_other id name description a e) (elim (Bool-cases (has_id id b)) [
    | inl f ↦ rw (set_group_same id name description b f) (
        ground (
          arith,
          k,
          e,
          eq_comm b.owner_id a.owner_id,
          eq_comm a.name name,
          name_free id name groups h b a j i f,
        ))
    | inr f ↦ rw (set_group_other id name description b f) k
  ])
]

pub update_group_row-Respects :
    (name description : String) (id : PrefixedId) → Respects (update_group_row name description id)
unfolding update_group_row
update_group_row-Respects name description id t h =
    elim (Bool-cases (any (λ x. has_id id x && any (name_taken id name x) t.groups) t.groups)) [
      | inl e ↦ rw e h
      | inr e ↦ rw e (
          with_groups t (map (set_group id name description) t.groups) t.group_members h (record {
            apart =
                map-Apart clashes (set_group id name description) t.groups
                  (set_group-clashes id name description t.groups e) h.groups.apart;
            members_apart = h.groups.members_apart;
            refer =
                linked_shift belongs_to t.group_members t.groups
                  (map (set_group id name description) t.groups)
                  (λ m i k.
                    any-map (belongs_to m) (set_group id name description) t.groups
                      (set_group-has_id m.group_id id name description)
                    ∙ k)
                  h.groups.refer;
          }))
    ]

pub delete_group_row-Respects : (id : PrefixedId) → Respects (delete_group_row id)
unfolding delete_group_row
delete_group_row-Respects id t h = elim (Bool-cases (any (in_group id) t.group_members)) [
  | inl e ↦ rw e h
  | inr e ↦ rw e (
      with_groups t (keep (λ g. not (has_id id g)) t.groups) t.group_members h (record {
        apart = keep-Apart clashes (λ g. not (has_id id g)) t.groups h.groups.apart;
        members_apart = h.groups.members_apart;
        refer =
            linked_delete belongs_to t.group_members t.groups (λ g. not (has_id id g))
              (λ m g i q. ground (
                arith,
                eq_cases g.id m.group_id,
                any-false_at (in_group id) t.group_members e m i,
                q,
              ))
              h.groups.refer;
      }))
]

without_members :
    (t : Tables) (q : Member → Bool)
    → IsConsistent t
    → IsConsistent (record t { group_members = keep q t.group_members })
without_members t q h = with_groups t t.groups (keep q t.group_members) h (record {
  apart = h.groups.apart;
  members_apart = keep-Apart same_member q t.group_members h.groups.members_apart;
  refer = linked_keep belongs_to t.group_members t.groups q h.groups.refer;
})

pub delete_member-Respects : (gid sid : PrefixedId) → Respects (delete_member gid sid)
unfolding delete_member
delete_member-Respects gid sid t h = without_members t (λ m. not (is_pair gid sid m)) h

pub delete_members-Respects :
    (gid : PrefixedId) (sids : List PrefixedId) → Respects (delete_members gid sids)
unfolding delete_members
delete_members-Respects gid sids t h =
    without_members t (λ m. not (m.group_id == gid && contains m.subject_id sids)) h

same_member_comm : (m n : Member) → same_member m n ≡ same_member n m
same_member_comm m n =
    ground (arith, eq_comm m.group_id n.group_id, eq_comm m.subject_id n.subject_id)

put_member-AreGroups :
    (groups : List Group) (gid sid : PrefixedId) (ms : List Member)
    → any (has_id gid) groups ≡ true
    → AreGroups groups ms
    → AreGroups groups (put_member gid sid ms)
unfolding put_member
put_member-AreGroups groups gid sid ms k h = elim (Bool-cases (any (is_pair gid sid) ms)) [
  | inl e ↦ rw e h
  | inr e ↦
      let new : Member = record { group_id = gid; subject_id = sid } in
      rw e (record {
        apart = h.apart;
        members_apart = append-Apart same_member ms new same_member_comm e h.members_apart;
        refer = linked_append belongs_to ms groups new k h.refer;
      })
]

put_members-AreGroups :
    (groups : List Group) (gid : PrefixedId) (sids : List PrefixedId) (ms : List Member)
    → any (has_id gid) groups ≡ true
    → AreGroups groups ms
    → AreGroups groups (put_members gid sids ms)
unfolding put_members
put_members-AreGroups groups gid [] ms k h = h
put_members-AreGroups groups gid (sid ∷ sids) ms k h =
    put_members-AreGroups groups gid sids (put_member gid sid ms) k
      (put_member-AreGroups groups gid sid ms k h)

pub upsert_members-Respects :
    (gid : PrefixedId) (sids : List PrefixedId) → Respects (upsert_members gid sids)
unfolding upsert_members
upsert_members-Respects gid sids t h = elim (Bool-cases (any (has_id gid) t.groups)) [
  | inl e ↦ rw e (
      with_groups t t.groups (put_members gid sids t.group_members) h
        (put_members-AreGroups t.groups gid sids t.group_members e h.groups))
  | inr e ↦ rw e h
]

-- ===== src/Storage/Groups/Sql.antt =====
-- The SQL statements of internal/storage/groups.go, over the tables of the migrations.
use identity_api.Common.{
  ℕ, String, Bool, not, ◌&&◌, ◌||◌, Option, List, [], ◌∷◌, ◌++◌, map, ◌==◌, if◌then◌else◌, keep,
  any, find?, contains, length,
}
use identity_api.Types.{PrefixedId, Group}
use identity_api.Types.Errors.{duplicate_key, foreign_key}
use identity_api.Platform.Schema.{Member, Stmt, rows, violation}

abbrev pub has_id : PrefixedId → Group → Bool
has_id id g = g.id == id

abbrev pub in_group : PrefixedId → Member → Bool
in_group gid m = m.group_id == gid

abbrev pub is_pair : PrefixedId → PrefixedId → Member → Bool
is_pair gid sid m = m.group_id == gid && m.subject_id == sid

-- The PRIMARY KEY (id) and the UNIQUE (owner_id, name) of `groups`.
unfoldable pub clashes : Group → Group → Bool
clashes g r = r.id == g.id || (r.owner_id == g.owner_id && r.name == g.name)

-- INSERT INTO groups (id, owner_id, name, description) VALUES ($1, $2, $3, $4)
unfoldable pub insert_group_row : Group → Stmt (Unit {0})
unfolding clashes
insert_group_row g t =
    if any (clashes g) t.groups
    then (violation duplicate_key, t)
    else (rows tt, record t { groups = t.groups ++ g ∷ [] })

-- SELECT id, owner_id, name, description FROM groups WHERE id = $1
unfoldable pub select_group : PrefixedId → Stmt (Option Group)
select_group id t = (rows (find? (has_id id) t.groups), t)

-- Another group of the same owner has the name.
unfoldable pub name_taken : PrefixedId → String → Group → Group → Bool
name_taken id name x r = not (r.id == id) && r.owner_id == x.owner_id && r.name == name

unfoldable pub set_group : PrefixedId → String → String → Group → Group
set_group id name description g =
    if g.id == id then record g { name = name; description = description } else g

-- UPDATE groups SET (name, description) = ($1, $2) WHERE id = $3
unfoldable pub update_group_row : String → String → PrefixedId → Stmt (Unit {0})
unfolding name_taken set_group
update_group_row name description id t =
    if any (λ x. has_id id x && any (name_taken id name x) t.groups) t.groups
    then (violation duplicate_key, t)
    else (rows tt, record t { groups = map (set_group id name description) t.groups })

-- DELETE FROM groups WHERE id = $1; group_members.group_id REFERENCES groups(id)
unfoldable pub delete_group_row : PrefixedId → Stmt (Unit {0})
delete_group_row id t =
    if any (in_group id) t.group_members
    then (violation foreign_key, t)
    else (rows tt, record t { groups = keep (λ g. not (has_id id g)) t.groups })

-- One row of the UPSERT: PRIMARY KEY (group_id, subject_id).
unfoldable pub put_member : PrefixedId → PrefixedId → List Member → List Member
put_member gid sid ms =
    if any (is_pair gid sid) ms then ms else ms ++ record { group_id = gid; subject_id = sid } ∷ []

unfoldable pub put_members : PrefixedId → List PrefixedId → List Member → List Member
unfolding put_member
put_members gid [] ms = ms
put_members gid (sid ∷ sids) ms = put_members gid sids (put_member gid sid ms)

-- UPSERT INTO group_members (group_id, subject_id) VALUES ($1, $2), ($1, $3), …
unfoldable pub upsert_members : PrefixedId → List PrefixedId → Stmt (Unit {0})
unfolding put_members
upsert_members gid sids t =
    if any (has_id gid) t.groups
    then (rows tt, record t { group_members = put_members gid sids t.group_members })
    else (violation foreign_key, t)

-- SELECT subject_id FROM group_members WHERE group_id = $1
unfoldable pub select_members : PrefixedId → Stmt (List PrefixedId)
select_members gid t = (rows (map (λ m. m.subject_id) (keep (in_group gid) t.group_members)), t)

-- DELETE FROM group_members WHERE group_id = $1 AND subject_id = $2, with the rows affected
unfoldable pub delete_member : PrefixedId → PrefixedId → Stmt ℕ
delete_member gid sid t = (
  rows (length (keep (is_pair gid sid) t.group_members)),
  record t { group_members = keep (λ m. not (is_pair gid sid m)) t.group_members },
)

-- DELETE FROM group_members WHERE group_id = $1 AND subject_id = ANY($2)
unfoldable pub delete_members : PrefixedId → List PrefixedId → Stmt (Unit {0})
delete_members gid sids t = (
  rows tt,
  record t {
    group_members =
        keep (λ m. not (m.group_id == gid && contains m.subject_id sids)) t.group_members;
  },
)

-- SELECT COUNT(*) FROM group_members WHERE group_id = $1
unfoldable pub count_members : PrefixedId → Stmt ℕ
count_members gid t = (rows (length (keep (in_group gid) t.group_members)), t)

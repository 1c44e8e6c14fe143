-- ===== src/Storage/Groups/Lookup.antt =====
-- Groups found under their ids, before and after each operation (internal/storage/groups.go).
use identity_api.Common.{
  String, eq_refl, ◌≡◌, ◌≢◌, refl, true, false, ◌&&◌, ◌||◌, Option, none, some, [], ◌∷◌, ◌++◌, map,
  ◌==◌, arith, any, find?, eq_iff, eq_refl, if◌then◌else◌, ◌⊎◌, inl, inr, Option-cases, Bool-cases,
  find?_sound, find?-eq-none,
}
use identity_api.Types.{PrefixedId, Group, GroupUpdate}
use identity_api.Types.Errors.{
  Failure, db, pq, driver, group_exists, group_name_empty, duplicate_key,
}
use identity_api.Exec.{ok, err, Result-cases}
use identity_api.Platform.{Platform, IsDocumented, View}
use identity_api.Storage.{with_tx}
use identity_api.Storage.Groups.{
  create_group, update_group, delete_group, apply_update, insert_group, fetch_group_by_id,
  group_error,
}
use identity_api.Storage.Groups.Sql.{
  has_id, in_group, clashes, insert_group_row, update_group_row, delete_group_row, set_group,
}
use identity_api.Storage.Groups.Rows.{
  any-clashes, any-clashes_name, find?-insert, find?-insert_ne, find?-set_group, find?-delete,
}
use identity_api.Storage.Groups.Steps.{SameButGroups, view-fetch_group_by_id, fetch_group_by_id_ok}

-- The lookup of one group in the tables of the transaction.
abbrev pub group_at : PrefixedId → View → Option Group
group_at id v = find? (has_id id) v.working.groups

-- A group with the name and the description that an update gives, where it gives them, and the name
-- given is not empty.
abbrev pub IsUpdated : GroupUpdate → Group → Group → Type 0
IsUpdated u old out =
    (out.id ≡ old.id)
    × (out.owner_id ≡ old.owner_id)
    × ((name : String) → u.name ≡ some name → name ≢ "" → out.name ≡ name)
    × ((u.name ≡ none) ⊎ (u.name ≡ some "") → out.name ≡ old.name)
    × ((text : String) → u.description ≡ some text → out.description ≡ text)
    × (u.description ≡ none → out.description ≡ old.description)

IsUpdated-apply :
    (u : GroupUpdate) (old out : Group) → out ≡ apply_update old u → IsUpdated u old out
unfolding apply_update
IsUpdated-apply u old out h = (
  ground (arith, h),
  ground (arith, h),
  λ name given named. ground (arith, h, given, named, eq_iff name ""),
  λ missing. ground (arith, h, missing, eq_refl ""),
  λ text given. ground (arith, h, given),
  λ missing. ground (arith, h, missing),
)

updated_name_empty :
    (u : GroupUpdate) (old out : Group) → out ≡ apply_update old u → out.name ≡ "" → old.name ≡ ""
unfolding apply_update
updated_name_empty u old out same h = elim (Option-cases u.name) [
  | inl e ↦ ground (arith, same, h, e)
  | inr (name, e) ↦ ground (arith, same, h, e, eq_iff name "")
]

group_error_fault : (f : Failure) → f ≢ pq duplicate_key → group_error (db f) ≡ db f
unfolding group_error
group_error_fault (pq code) h = ground (arith, eq_iff code duplicate_key)
group_error_fault (driver n) h = refl

module _ {p : Platform} (d : IsDocumented p) where
  create_group_ok :
      (g out : Group) (w : p.World)
      → (create_group p with_tx g w).0 ≡ ok out
      → ((g.name == "") ≡ false)
        × (any (clashes g) (p.view w).working.groups ≡ false)
        × (out ≡ g)
        × (p.view (create_group p with_tx g w).1 ≡ record (p.view w) {
          working = record ((p.view w).working) { groups = (p.view w).working.groups ++ g ∷ [] };
        })
  unfolding create_group insert_group insert_group_row
  create_group_ok g out w h = ground (
    arith,
    d.exec_law (insert_group_row g) w,
    view-fetch_group_by_id d with_tx g.id (p.exec (insert_group_row g) w).1,
    fetch_group_by_id_ok d g.id (p.exec (insert_group_row g) w).1 out,
    find?-insert g (p.view w).working.groups,
  )

  update_group_ok :
      (id : PrefixedId) (u : GroupUpdate) (old : Group) (out : Group) (w : p.World)
      → (update_group p with_tx id u w).0 ≡ ok out
      → (fetch_group_by_id p with_tx id w).0 ≡ ok old
      → (out ≡ apply_update old u)
        × (p.view (update_group p with_tx id u w).1 ≡ record (p.view w) {
          working = record ((p.view w).working) {
            groups = map (set_group old.id out.name out.description) (p.view w).working.groups;
          };
        })
  unfolding update_group update_group_row
  update_group_ok id u old out w h e = ground (
    arith,
    e,
    view-fetch_group_by_id d with_tx id w,
    d.exec_law (update_group_row (apply_update old u).name (apply_update old u).description old.id)
        (fetch_group_by_id p with_tx id w).1,
  )

  -- When `CreateGroup` returns a group, it is the one given; its name is not empty, no group had its
  -- id, and no group of its owner had its name; it is then found under its id, every other lookup
  -- answers as before, and nothing else has changed.
  pub create_group-group_at :
      (g out : Group) (w : p.World)
      → (create_group p with_tx g w).0 ≡ ok out
      → let after = p.view (create_group p with_tx g w).1 in
        (out ≡ g)
        × (g.name ≢ "")
        × (group_at g.id (p.view w) ≡ none)
        × (any (λ r. r.owner_id == g.owner_id && r.name == g.name) (p.view w).working.groups
            ≡ false)
        × ((id : PrefixedId)
            → group_at id after ≡ (if g.id == id then some g else group_at id (p.view w)))
        × SameButGroups (p.view w) after
  create_group-group_at g out w h =
      let (named, free, same, after) = create_group_ok g out w h in
      let gs = (p.view w).working.groups in
      (
        same,
        ground (arith, named, eq_iff g.name ""),
        find?-eq-none (has_id g.id) gs (any-clashes g gs free),
        any-clashes_name g gs free,
        λ id.
            ground (arith, after, eq_iff g.id id, find?-insert g gs free, find?-insert_ne g id gs),
        ground (arith, after),
      )

  -- `CreateGroup` with an empty name returns ErrGroupNameEmpty; with a name, and an id or an owner
  -- and name that are taken, it returns ErrGroupExists or another database failure. Nothing has
  -- changed in either case.
  pub create_group_refused :
      (g : Group) (w : p.World)
      → ((g.name == "") || any (clashes g) (p.view w).working.groups) ≡ true
      → (((create_group p with_tx g w).0
            ≡ err (if g.name == "" then group_name_empty else group_exists))
          ⊎ ((f : Failure) × ((create_group p with_tx g w).0 ≡ err (db f))
              × (f ≢ pq duplicate_key)
              × (g.name ≢ "")))
        × (p.view (create_group p with_tx g w).1 ≡ p.view w)
  unfolding create_group insert_group insert_group_row
  create_group_refused g w h = elim (Bool-cases (g.name == "")) [
    | inl empty ↦ (inl (ground (arith, empty)), ground (arith, empty))
    | inr named ↦ elim (d.exec_law (insert_group_row g) w) [
      | inl (f, failed, other, same) ↦ (
        inr (
          f,
          ground (arith, named, failed, group_error_fault f other),
          other,
          ground (arith, named, eq_iff g.name ""),
        ),
        ground (arith, named, failed, same),
      )
      | inr (refused, same) ↦ (
        inl (ground (arith, named, refused, h, eq_refl duplicate_key)),
        ground (arith, named, refused, same, h),
      )
    ]
  ]

  -- When `UpdateGroup` returns a group, the group was there; the result has its id and owner, the
  -- new name if one is given that is not empty, and the new description if one is given; it is found
  -- under the id, every other lookup answers as before, and nothing but `groups` has changed.
  pub update_group-group_at :
      (id : PrefixedId) (u : GroupUpdate) (out : Group) (w : p.World)
      → (update_group p with_tx id u w).0 ≡ ok out
      → let after = p.view (update_group p with_tx id u w).1 in
        (old : Group) × (group_at id (p.view w) ≡ some old)
        × IsUpdated u old out
        × ((out.name ≡ "") → (old.name ≡ ""))
        × ((other : PrefixedId)
            → group_at other after ≡ (if id == other then some out else group_at other (p.view w)))
        × SameButGroups (p.view w) after
  unfolding update_group apply_update
  update_group-group_at id u out w h = elim (Result-cases (fetch_group_by_id p with_tx id w).0) [
    | inl (old, e) ↦
        let found = fetch_group_by_id_ok d id w old e in
        let (same, after) = update_group_ok id u old out w h e in
        let key = (eq_iff old.id id).0 (find?_sound (has_id id) _ old found) in
        (
          old,
          found,
          IsUpdated-apply u old out same,
          updated_name_empty u old out same,
          λ other. ground (
            arith,
            after,
            same,
            found,
            key,
            eq_iff id other,
            find?-set_group old.id other out.name out.description (p.view w).working.groups,
          ),
          ground (arith, after),
        )
    | inr (f, e) ↦ ground (arith, e)
  ]

  -- When `DeleteGroup` returns without error, the group was there and had no member; it is no longer
  -- found, every other lookup answers as before, and nothing but `groups` has changed.
  pub delete_group-group_at :
      (id : PrefixedId) (w : p.World)
      → (delete_group p with_tx id w).0 ≡ ok tt
      → let after = p.view (delete_group p with_tx id w).1 in
        (group_at id (p.view w) ≢ none)
        × (any (in_group id) (p.view w).working.group_members ≡ false)
        × ((other : PrefixedId)
            → group_at other after ≡ (if id == other then none else group_at other (p.view w)))
        × SameButGroups (p.view w) after
  unfolding delete_group delete_group_row
  delete_group-group_at id w h = elim (Result-cases (fetch_group_by_id p with_tx id w).0) [
    | inl (old, e) ↦
        let w1 = (fetch_group_by_id p with_tx id w).1 in
        let same = view-fetch_group_by_id d with_tx id w in
        let law = d.exec_law (delete_group_row id) w1 in
        (
          ground (arith, fetch_group_by_id_ok d id w old e),
          ground (arith, e, same, law),
          λ other. ground (arith, e, same, law, find?-delete id other (p.view w).working.groups),
          ground (arith, e, same, law),
        )
    | inr (f, e) ↦ ground (arith, e)
  ]

-- ===== src/Storage/Groups/Rows.antt =====
-- Looking a group up before and after the statements on `groups`.
use identity_api.Common.{
  String, ◌≡◌, refl, false, not, ◌&&◌, Option, none, some, List, [], ◌∷◌, ◌++◌, map, ◌==◌, arith,
  any, keep, find?, find?-append, eq_iff, eq_refl, if◌then◌else◌,
}
use identity_api.Types.{PrefixedId, Group}
use identity_api.Storage.Groups.Sql.{has_id, clashes, set_group}

pub any-clashes :
    (g : Group) (gs : List Group) → any (clashes g) gs ≡ false → any (has_id g.id) gs ≡ false
unfolding any clashes
any-clashes g [] h = refl
any-clashes g (r ∷ gs) h = ground (arith, any-clashes g gs)

pub any-clashes_name :
    (g : Group) (gs : List Group)
    → any (clashes g) gs ≡ false
    → any (λ r. r.owner_id == g.owner_id && r.name == g.name) gs ≡ false
unfolding any clashes
any-clashes_name g [] h = refl
any-clashes_name g (r ∷ gs) h = ground (arith, any-clashes_name g gs)

-- An inserted group is the one found under its id.
pub find?-insert :
    (g : Group) (gs : List Group)
    → any (clashes g) gs ≡ false
    → find? (has_id g.id) (gs ++ g ∷ []) ≡ some g
find?-insert g gs h = find?-append (has_id g.id) gs g (any-clashes g gs h) (eq_refl g.id)

pub find?-insert_ne :
    (g : Group) (id : PrefixedId) (gs : List Group)
    → (g.id == id) ≡ false
    → find? (has_id id) (gs ++ g ∷ []) ≡ find? (has_id id) gs
unfolding find?
find?-insert_ne g id [] h = ground arith
find?-insert_ne g id (r ∷ gs) h = ground (arith, find?-insert_ne g id gs h)

abbrev renamed : PrefixedId → String → String → PrefixedId → Option Group → Option Group
renamed id name description other none = none
renamed id name description other (some g) =
    if id == other then some (record g { name = name; description = description }) else some g

-- An update changes the row under its id and no other.
pub find?-set_group :
    (id other : PrefixedId) (name description : String) (gs : List Group)
    → find? (has_id other) (map (set_group id name description) gs)
      ≡ renamed id name description other (find? (has_id other) gs)
unfolding find? set_group
find?-set_group id other name description [] = refl
find?-set_group id other name description (r ∷ gs) = ground (
  arith,
  find?-set_group id other name description gs,
  eq_iff r.id id,
  eq_iff r.id other,
  eq_iff id other,
)

-- A deletion removes the rows under its id and no other.
pub find?-delete :
    (id other : PrefixedId) (gs : List Group)
    → find? (has_id other) (keep (λ g. not (has_id id g)) gs)
      ≡ (if id == other then none else find? (has_id other) gs)
unfolding find? keep
find?-delete id other [] = ground arith
find?-delete id other (r ∷ gs) =
    ground (arith, find?-delete id other gs, eq_iff r.id id, eq_iff r.id other, eq_iff id other)

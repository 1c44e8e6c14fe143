-- ===== src/Storage/Groups/Steps.antt =====
-- What each group operation has done to the world when it returns a value.
use identity_api.Common.{
  ◌≡◌, refl, some, List, [], ◌∷◌, ◌++◌, Option, none, ◌∙◌, ap, inl, inr, arith, find?, keep, map,
}
use identity_api.Types.{PrefixedId, Group}
use identity_api.Exec.{Result, ok, Result-cases}
use identity_api.Types.Errors.{Failure}
use identity_api.Storage.Reads.{next_rows-AreTaken, view-next_rows}
use identity_api.Platform.{Platform, IsDocumented, View}
use identity_api.Platform.Outcomes.{exec_read}
use identity_api.Storage.{Ctx, with_tx, background}
use identity_api.Storage.Groups.{fetch_group_by_id, add_group_members, list_all_group_members}
use identity_api.Storage.Groups.Sql.{
  has_id, select_group, upsert_members, put_members, select_members, in_group,
}

-- Of all that is observed, only the rows of one table may differ, as the transaction sees them.
abbrev pub SameButGroups : View → View → Type 0
SameButGroups v v' = v' ≡ record v { working = record (v.working) { groups = v'.working.groups } }

abbrev pub SameButMembers : View → View → Type 0
SameButMembers v v' =
    v' ≡ record v { working = record (v.working) { group_members = v'.working.group_members } }

-- What the database answers when the members of a group are listed.
abbrev pub asked_members :
    (p : Platform) → Ctx → PrefixedId → p.World → Result (List PrefixedId × Option Failure)
asked_members p ctx gid w =
    (p.query_rows "" (select_members gid) (fetch_group_by_id p ctx gid w).1).0

module _ {p : Platform} (d : IsDocumented p) where
  pub view-fetch_group_by_id :
      (ctx : Ctx) (id : PrefixedId) (w : p.World)
      → p.view (fetch_group_by_id p ctx id w).1 ≡ p.view w
  unfolding fetch_group_by_id select_group
  view-fetch_group_by_id with_tx id w = ground (arith, exec_read d (select_group id) w)
  view-fetch_group_by_id background id w = ground (arith, d.query_view "" (select_group id) w)

  pub fetch_group_by_id_ok :
      (id : PrefixedId) (w : p.World) (g : Group)
      → (fetch_group_by_id p with_tx id w).0 ≡ ok g
      → find? (has_id id) (p.view w).working.groups ≡ some g
  unfolding fetch_group_by_id select_group
  fetch_group_by_id_ok id w g h = ground (arith, d.exec_law (select_group id) w)

  pub add_group_members_ok :
      (gid : PrefixedId) (subjects : List PrefixedId) (w : p.World)
      → (add_group_members p with_tx gid subjects w).0 ≡ ok tt
      → p.view (add_group_members p with_tx gid subjects w).1 ≡ record (p.view w) {
        working = record ((p.view w).working) {
          group_members = put_members gid subjects (p.view w).working.group_members;
        };
      }
  unfolding add_group_members upsert_members put_members
  add_group_members_ok gid [] w h = refl
  add_group_members_ok gid (s ∷ ss) w h = ground (
    arith,
    view-fetch_group_by_id with_tx gid w,
    d.exec_law (upsert_members gid (s ∷ ss)) (fetch_group_by_id p with_tx gid w).1,
  )

  pub view-list_all_group_members :
      (ctx : Ctx) (gid : PrefixedId) (w : p.World)
      → p.view (list_all_group_members p ctx gid w).1 ≡ p.view w
  unfolding list_all_group_members
  view-list_all_group_members ctx gid w = ground (
    arith,
    view-fetch_group_by_id ctx gid w,
    view-next_rows d "" (select_members gid) (fetch_group_by_id p ctx gid w).1,
  )

  -- The members listed are a beginning of those of the committed table: all of them, where the reading
  -- has not broken off.
  pub list_all_group_members_ok :
      (ctx : Ctx) (gid : PrefixedId) (w : p.World) (ms : List PrefixedId)
      → (list_all_group_members p ctx gid w).0 ≡ ok ms
      → (unread : List PrefixedId) × (left : Option Failure) × (map
            (λ m. m.subject_id)
            (keep (in_group gid) (p.view w).committed.group_members)
          ≡ ms ++ unread)
        × (asked_members p ctx gid w ≡ ok (ms, left))
        × (left ≡ none → unread ≡ [])
  unfolding list_all_group_members select_members
  list_all_group_members_ok ctx gid w ms h =
      let w1 = (fetch_group_by_id p ctx gid w).1 in
      let view = view-fetch_group_by_id ctx gid w in
      let now = d.snapshot_now w1 in
      elim (Result-cases (fetch_group_by_id p ctx gid w).0) [
        | inr (f, e) ↦ ground (arith, e, h)
        | inl (g, e) ↦ elim (next_rows-AreTaken d "" (select_members gid) w1) [
          | inl (f, _, r) ↦ ground (arith, e, r, h)
          | inr (found, rest, left, same, asked, r, all) ↦
              let taken : found ≡ ms = ground (arith, e, r, h) in
              (
                rest,
                left,
                ground (arith, same, now, view, taken),
                asked ∙ ap (λ (l : List PrefixedId). ok (l, left)) taken,
                all,
              )
        ]
      ]

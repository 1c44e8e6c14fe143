-- ===== src/Http/Access.antt =====
-- Without permission, no handler of groups reads or changes anything.
use identity_api.Common.{
  String, ◌≡◌, refl, List, [], ◌∷◌, arith, inl, inr, Bool-cases, any, not, if◌then◌else◌, Option,
}
use identity_api.Types.{PrefixedId, GroupUpdate}
use identity_api.Types.Errors.{http, permission_denied}
use identity_api.Exec.{ok, err, Exec, ◌>>◌}
use identity_api.Platform.{Platform, IsDocumented}
use identity_api.Storage.{Ctx}
use identity_api.Http.{parse_id, parse_ids, check_access}
use identity_api.Http.Groups.{
  CreateGroup, create_group, get_group_by_id, update_group, delete_group,
}
use identity_api.Http.Listing.{list_groups, list_group_members}
use identity_api.Http.Members
use identity_api.Paging.{Codec}
use identity_api.Paging.Page.{Params}

-- Nothing observed has changed, and the status is 403, or 400 where an id of the request is malformed.
abbrev pub IsRefused :
    (p : Platform) → List PrefixedId → {A : Type 0} → Exec p.World A → p.World → Type 0
IsRefused p ids m w =
    ((m w).0 ≡ err (http (if any (λ id. not (p.valid_id id)) ids then 400 else 403)))
    × (p.view (m w).1 ≡ p.view w)

parse_ids-any :
    (p : Platform) (ids : List PrefixedId) (w : p.World)
    → parse_ids p ids w ≡ (if any (λ id. not (p.valid_id id)) ids then err (http 400) else ok tt, w)
unfolding parse_ids parse_id any
parse_ids-any p [] w = refl
parse_ids-any p (id ∷ ids) w = ground (arith, parse_ids-any p ids w)

module _ {p : Platform} (d : IsDocumented p) where
  guarded :
      {A : Type 0} (id : PrefixedId) (action : String) (w : p.World) (next : Exec p.World A)
      → (p.check_access id action w).0 ≡ err permission_denied
      → IsRefused p (id ∷ []) (parse_id p id >> (check_access p id action >> next)) w
  unfolding parse_id check_access any
  guarded id action w next h = elim (Bool-cases (p.valid_id id)) [
    | inl e ↦ (ground (arith, e, h), ground (arith, e, h, d.check_view id action w))
    | inr e ↦ (ground (arith, e), ground (arith, e))
  ]

  guarded_list :
      {A : Type 0} (id : PrefixedId) (ids : List PrefixedId) (action : String) (w : p.World)
      (next : Exec p.World A)
      → (p.check_access id action w).0 ≡ err permission_denied
      → IsRefused p
          (id ∷ ids)
          (parse_id p id >> (parse_ids p ids >> (check_access p id action >> next)))
          w
  unfolding parse_id check_access any
  guarded_list id ids action w next h =
      let parsed = parse_ids-any p ids w in
      elim (Bool-cases (p.valid_id id)) [
        | inr e ↦ (ground (arith, e), ground (arith, e))
        | inl e ↦ elim (Bool-cases (any (λ i. not (p.valid_id i)) ids)) [
          | inl bad ↦ (ground (arith, e, parsed, bad), ground (arith, e, parsed, bad))
          | inr good ↦ (
            ground (arith, e, parsed, good, h),
            ground (arith, e, parsed, good, h, d.check_view id action w),
          )
        ]
      ]

  guarded_two :
      {A : Type 0} (id sid : PrefixedId) (action : String) (w : p.World) (next : Exec p.World A)
      → (p.check_access id action w).0 ≡ err permission_denied
      → IsRefused p
          (id ∷ sid ∷ [])
          (parse_id p id >> (parse_id p sid >> (check_access p id action >> next)))
          w
  unfolding parse_id check_access any
  guarded_two id sid action w next h = elim (Bool-cases (p.valid_id id)) [
    | inr e ↦ (ground (arith, e), ground (arith, e))
    | inl e ↦ elim (Bool-cases (p.valid_id sid)) [
      | inr bad ↦ (ground (arith, e, bad), ground (arith, e, bad))
      | inl good ↦
          (ground (arith, e, good, h), ground (arith, e, good, h, d.check_view id action w))
    ]
  ]

  -- A caller to whom every action on the owner or the group is denied gets a 403, or a 400 exactly where
  -- an id of the request is malformed, from every handler of groups and of the members of a group, the
  -- listings too; no table is changed and no event sent.
  pub access_denied :
      (c : Codec) (as_of : Option String) (ctx : Ctx) (id sid : PrefixedId) (ids : List PrefixedId)
      (body : CreateGroup) (update : GroupUpdate) (params : Params) (w : p.World)
      → ((action : String) → (p.check_access id action w).0 ≡ err permission_denied)
      → IsRefused p (id ∷ []) (create_group p ctx id body) w
        × IsRefused p (id ∷ []) (get_group_by_id p ctx id) w
        × IsRefused p (id ∷ []) (update_group p ctx id update) w
        × IsRefused p (id ∷ []) (delete_group p ctx id) w
        × IsRefused p (id ∷ []) (list_groups p c as_of id params) w
        × IsRefused p (id ∷ []) (list_group_members p c as_of ctx id params) w
        × IsRefused p (id ∷ ids) (Members.add_group_members p ctx id ids) w
        × IsRefused p (id ∷ sid ∷ []) (Members.remove_group_member p ctx id sid) w
        × IsRefused p (id ∷ ids) (Members.replace_group_members p ctx id ids) w
  unfolding create_group get_group_by_id update_group delete_group list_groups list_group_members
      Members.add_group_members Members.remove_group_member Members.replace_group_members
  access_denied c as_of ctx id sid ids body update params w h = (
    guarded id _ w _ (h _),
    guarded id _ w _ (h _),
    guarded id _ w _ (h _),
    guarded id _ w _ (h _),
    guarded id _ w _ (h _),
    guarded id _ w _ (h _),
    guarded_list id ids _ w _ (h _),
    guarded_two id sid _ w _ (h _),
    guarded_list id ids _ w _ (h _),
  )

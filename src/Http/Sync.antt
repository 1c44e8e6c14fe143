-- ===== src/Http/Sync.antt =====
-- The permissions API and the table group_members hold the same memberships.
use identity_api.Common.{
  ℕ, String, ◌≡◌, ◌≢◌, refl, false, List, [], ◌∷◌, arith, inl, inr, contains, eq_iff,
}
use identity_api.Types.{PrefixedId}
use identity_api.Exec.{ok, Exec, Result-cases}
use identity_api.Platform.{Platform, IsDocumented, View}
use identity_api.Storage.{with_tx}
use identity_api.Storage.Groups as Storage
use identity_api.Storage.Groups.Membership.{is_member}
use identity_api.Storage.Groups.Members.{add_group_members-is_member, remove_group_member-is_member}
use identity_api.Storage.Groups.Replace.{replace_group_members-is_member}
use identity_api.Events
use identity_api.Events.Mirror.{
  granted, granted-add_group_members, granted-remove_group_members, working-add_group_members,
  working-remove_group_members,
}
use identity_api.Http.{parse_id, parse_ids, check_access, notify, rollback_and_return_error}
use identity_api.Http.Members

-- What the permissions API was told agrees with the table, as the transaction sees it.
abbrev pub InSync : View → Type 0
InSync v = (g s : PrefixedId) → s ≢ "" → granted g s false v.published ≡ is_member g s v.working

module _ (p : Platform) where
  rollback_and_return_error_ne :
      {A : Type 0} (code : ℕ) (w : p.World) (a : A)
      → (rollback_and_return_error p with_tx code w).0 ≢ ok a
  unfolding rollback_and_return_error
  rollback_and_return_error_ne code w a = ground arith

  -- A notification that returns has been accepted.
  notify_ok :
      (m : Exec p.World (Unit {0})) (w : p.World)
      → (notify p with_tx m w).0 ≡ ok tt
      → ((m w).0 ≡ ok tt) × ((notify p with_tx m w).1 ≡ (m w).1)
  unfolding notify
  notify_ok m w h = elim (Result-cases (m w).0) [
    | inl (a, e) ↦ (ground (arith, e), ground (arith, e))
    | inr (f, e) ↦ ground (arith, e, rollback_and_return_error_ne 500 (m w).1 tt)
  ]

  parse_ids_world : (ids : List PrefixedId) (w : p.World) → (parse_ids p ids w).1 ≡ w
  unfolding parse_ids
  parse_ids_world [] w = refl
  parse_ids_world (id ∷ ids) w = ground (arith, parse_ids_world ids w)

  view-check_access :
      (d : IsDocumented p) (id : PrefixedId) (action : String) (w : p.World)
      → p.view (check_access p id action w).1 ≡ p.view w
  unfolding check_access
  view-check_access d id action w = ground (arith, d.check_view id action w)

  parse_id_world : (id : PrefixedId) (w : p.World) → (parse_id p id w).1 ≡ w
  unfolding parse_id
  parse_id_world id w = refl

module _ {p : Platform} (d : IsDocumented p) where
  -- The storage call of each handler of the members begins where the handler began.
  abbrev checked : PrefixedId → List PrefixedId → String → p.World → p.World
  checked gid ids action w = (check_access p gid action (parse_ids p ids (parse_id p gid w).1).1).1

  view-checked :
      (gid : PrefixedId) (ids : List PrefixedId) (action : String) (w : p.World)
      → p.view (checked gid ids action w) ≡ p.view w
  view-checked gid ids action w =
      ground
        (arith, parse_id_world p gid w, parse_ids_world p ids w, view-check_access p d gid action w)

  -- When the handler of POST members succeeds, an API and a table that agreed on who is a member
  -- still agree (on every subject id but the empty one).
  pub add_group_members-InSync :
      (gid : PrefixedId) (member_ids : List PrefixedId) (w : p.World)
      → InSync (p.view w)
      → (Members.add_group_members p with_tx gid member_ids w).0 ≡ ok tt
      → InSync (p.view (Members.add_group_members p with_tx gid member_ids w).1)
  unfolding Members.add_group_members
  add_group_members-InSync gid ids w sync h g s ne =
      let w1 = checked gid ids Members.action_group_members_add w in
      let stored = Storage.add_group_members p with_tx gid ids w1 in
      let told = Events.add_group_members p gid ids in
      ground (
        arith,
        sync g s ne,
        view-checked gid ids Members.action_group_members_add w,
        λ (e : stored.0 ≡ ok tt). (add_group_members-is_member d gid ids w1 e).0 g s,
        λ (e : stored.0 ≡ ok tt). (add_group_members-is_member d gid ids w1 e).1,
        notify_ok p told stored.1,
        granted-add_group_members d gid g s ids stored.1 ne,
        working-add_group_members d gid ids stored.1,
      )

  -- When the handler of DELETE of a member succeeds, an API and a table that agreed on who is a member
  -- still agree (on every subject id but the empty one).
  pub remove_group_member-InSync :
      (gid sid : PrefixedId) (w : p.World)
      → InSync (p.view w)
      → (Members.remove_group_member p with_tx gid sid w).0 ≡ ok tt
      → InSync (p.view (Members.remove_group_member p with_tx gid sid w).1)
  unfolding Members.remove_group_member contains
  remove_group_member-InSync gid sid w sync h g s ne =
      let w0 = (parse_id p sid (parse_id p gid w).1).1 in
      let w1 = (check_access p gid Members.action_group_members_remove w0).1 in
      let stored = Storage.remove_group_member p with_tx gid sid w1 in
      let told = Events.remove_group_members p gid (sid ∷ []) in
      ground (
        arith,
        sync g s ne,
        parse_id_world p gid w,
        parse_id_world p sid (parse_id p gid w).1,
        view-check_access p d gid Members.action_group_members_remove w0,
        λ (e : stored.0 ≡ ok tt). (remove_group_member-is_member d gid sid w1 e).1 g s,
        λ (e : stored.0 ≡ ok tt). (remove_group_member-is_member d gid sid w1 e).2,
        notify_ok p told stored.1,
        granted-remove_group_members d gid g s (sid ∷ []) stored.1 ne,
        working-remove_group_members d gid (sid ∷ []) stored.1,
        eq_iff g gid,
        eq_iff gid g,
      )

  -- When the handler of PUT members succeeds, in a transaction that had not changed the memberships, an
  -- API and a table that agreed on who is a member still agree (on every subject id but the empty one).
  pub replace_group_members-InSync :
      (gid : PrefixedId) (member_ids : List PrefixedId) (w : p.World)
      → (p.view w).working.group_members ≡ (p.view w).committed.group_members
      → InSync (p.view w)
      → (Members.replace_group_members p with_tx gid member_ids w).0 ≡ ok tt
      → InSync (p.view (Members.replace_group_members p with_tx gid member_ids w).1)
  unfolding Members.replace_group_members
  replace_group_members-InSync gid ids w fresh sync h g s ne =
      let w1 = checked gid ids Members.action_group_members_put w in
      let stored = Storage.replace_group_members p with_tx gid ids w1 in
      elim (Result-cases stored.0) [
        | inl (out, e) ↦
            let removed = Events.remove_group_members p gid out.1 stored.1 in
            let same = view-checked gid ids Members.action_group_members_put w in
            let (read, unread, _, _, was, spec, _) =
              replace_group_members-is_member d gid ids w1 out (ground (arith, same, fresh)) e in
            ground (
              arith,
              e,
              sync g s ne,
              same,
              spec.0 g s,
              was s,
              (spec.1 s).0,
              (spec.1 s).1,
              spec.2,
              notify_ok p (Events.remove_group_members p gid out.1) stored.1,
              granted-remove_group_members d gid g s out.1 stored.1 ne,
              working-remove_group_members d gid out.1 stored.1,
              notify_ok p (Events.add_group_members p gid out.0) removed.1,
              granted-add_group_members d gid g s out.0 removed.1 ne,
              working-add_group_members d gid out.0 removed.1,
              eq_iff g gid,
              eq_iff gid g,
            )
        | inr (f, e) ↦ ground (arith, e)
      ]

-- ===== src/Events/Mirror.antt =====
-- The memberships that the permissions API holds after the requests it has accepted.
use identity_api.Common.{
  String, ◌≡◌, ◌≢◌, refl, Bool, false, not, ◌&&◌, ◌||◌, List, [], ◌∷◌, ◌++◌, keep, any, contains,
  ◌==◌, arith, eq_iff, eq_refl,
}
use identity_api.Types.{PrefixedId}
use identity_api.Platform.{
  Platform, IsDocumented, Relation, Event, create_relationships, delete_relationships,
}
use identity_api.Exec.{ok}
use identity_api.Events.{
  direct_member, group_topic, member_relations, send, add_group_members, remove_group_members,
}

-- The request names the subject as a direct member of the group.
unfoldable pub names : String → PrefixedId → List Relation → PrefixedId → PrefixedId → Bool
names topic resource rels g s =
    topic == group_topic
    && resource == g
    && any (λ r. r.relation == direct_member && r.subject_id == s) rels

unfoldable pub apply : Event → PrefixedId → PrefixedId → Bool → Bool
unfolding names
apply (create_relationships topic resource rels) g s b = b || names topic resource rels g s
apply (delete_relationships topic resource rels) g s b = b && not (names topic resource rels g s)

-- Is the subject a direct member of the group after the requests?
unfoldable pub granted : PrefixedId → PrefixedId → Bool → List Event → Bool
unfolding apply
granted g s b [] = b
granted g s b (e ∷ es) = granted g s (apply e g s b) es

pub granted-append :
    (g s : PrefixedId) (b : Bool) (es : List Event) (e : Event)
    → granted g s b (es ++ e ∷ []) ≡ apply e g s (granted g s b es)
unfolding granted
granted-append g s b [] e = refl
granted-append g s b (x ∷ es) e = granted-append g s (apply x g s b) es e

any-member_relations :
    (s : PrefixedId) (subjects : List PrefixedId)
    → s ≢ ""
    → any (λ r. r.relation == direct_member && r.subject_id == s) (member_relations subjects)
      ≡ contains s subjects
unfolding member_relations any keep contains
any-member_relations s [] h = refl
any-member_relations s (x ∷ xs) h =
    ground (
      arith,
      any-member_relations s xs h,
      eq_iff x s,
      eq_iff s x,
      eq_iff x "",
      eq_refl direct_member,
    )

module _ {p : Platform} (d : IsDocumented p) where
  granted-send_create :
      (gid g s : PrefixedId) (rels : List Relation) (w : p.World)
      → (send rels (p.publish (create_relationships group_topic gid rels)) w).0 ≡ ok tt
      → granted g s false
          (p.view (send rels (p.publish (create_relationships group_topic gid rels)) w).1).published
        ≡ (granted g s false (p.view w).published || names group_topic gid rels g s)
  unfolding send apply any
  granted-send_create gid g s [] w h = ground arith
  granted-send_create gid g s (r ∷ rs) w h =
      let e = create_relationships group_topic gid (r ∷ rs) in
      ground (arith, d.publish_law e w, granted-append g s false (p.view w).published e)

  granted-send_delete :
      (gid g s : PrefixedId) (rels : List Relation) (w : p.World)
      → (send rels (p.publish (delete_relationships group_topic gid rels)) w).0 ≡ ok tt
      → granted g s false
          (p.view (send rels (p.publish (delete_relationships group_topic gid rels)) w).1).published
        ≡ (granted g s false (p.view w).published && not (names group_topic gid rels g s))
  unfolding send apply any
  granted-send_delete gid g s [] w h = ground arith
  granted-send_delete gid g s (r ∷ rs) w h =
      let e = delete_relationships group_topic gid (r ∷ rs) in
      ground (arith, d.publish_law e w, granted-append g s false (p.view w).published e)

  working-send :
      (rels : List Relation) (e : Event) (w : p.World)
      → (p.view (send rels (p.publish e) w).1).working ≡ (p.view w).working
  unfolding send
  working-send [] e w = refl
  working-send (r ∷ rs) e w = ground (arith, d.publish_law e w)

  names-member_relations :
      (gid g s : PrefixedId) (subjects : List PrefixedId)
      → s ≢ ""
      → names group_topic gid (member_relations subjects) g s ≡ (gid == g && contains s subjects)
  unfolding names
  names-member_relations gid g s subjects h =
      ground (arith, any-member_relations s subjects h, eq_refl group_topic)

  -- An accepted addition grants the membership to the subjects, and changes no other grant.
  pub granted-add_group_members :
      (gid g s : PrefixedId) (subjects : List PrefixedId) (w : p.World)
      → s ≢ ""
      → (add_group_members p gid subjects w).0 ≡ ok tt
      → granted g s false (p.view (add_group_members p gid subjects w).1).published
        ≡ (granted g s false (p.view w).published || (gid == g && contains s subjects))
  unfolding add_group_members
  granted-add_group_members gid g s subjects w h k = ground (
    arith,
    granted-send_create gid g s (member_relations subjects) w k,
    names-member_relations gid g s subjects h,
  )

  pub granted-remove_group_members :
      (gid g s : PrefixedId) (subjects : List PrefixedId) (w : p.World)
      → s ≢ ""
      → (remove_group_members p gid subjects w).0 ≡ ok tt
      → granted g s false (p.view (remove_group_members p gid subjects w).1).published
        ≡ (granted g s false (p.view w).published && not (gid == g && contains s subjects))
  unfolding remove_group_members
  granted-remove_group_members gid g s subjects w h k = ground (
    arith,
    granted-send_delete gid g s (member_relations subjects) w k,
    names-member_relations gid g s subjects h,
  )

  -- Whatever the outcome, the tables stay as they are.
  pub working-add_group_members :
      (gid : PrefixedId) (subjects : List PrefixedId) (w : p.World)
      → (p.view (add_group_members p gid subjects w).1).working ≡ (p.view w).working
  unfolding add_group_members
  working-add_group_members gid subjects w = working-send (member_relations subjects) _ w

  pub working-remove_group_members :
      (gid : PrefixedId) (subjects : List PrefixedId) (w : p.World)
      → (p.view (remove_group_members p gid subjects w).1).working ≡ (p.view w).working
  unfolding remove_group_members
  working-remove_group_members gid subjects w = working-send (member_relations subjects) _ w

-- ===== src/Storage/Groups/Membership.antt =====
-- Who is a member of which group, before and after the statements on group_members.
use identity_api.Common.{
  ◌≡◌, refl, Bool, not, ◌&&◌, ◌||◌, List, [], ◌∷◌, map, ◌==◌, arith, any, keep, contains,
  any-append, eq_iff,
}
use identity_api.Types.{PrefixedId}
use identity_api.Platform.Schema.{Member, Tables}
use identity_api.Storage.Groups.Sql.{in_group, is_pair, put_member, put_members}

-- A row of group_members holds the pair.
abbrev pub is_member : PrefixedId → PrefixedId → Tables → Bool
is_member gid sid t = any (is_pair gid sid) t.group_members

pub contains-select_members :
    (gid sid : PrefixedId) (ms : List Member)
    → contains sid (map (λ m. m.subject_id) (keep (in_group gid) ms)) ≡ any (is_pair gid sid) ms
unfolding contains keep any
contains-select_members gid sid [] = refl
contains-select_members gid sid (m ∷ ms) =
    ground
      (arith, contains-select_members gid sid ms, eq_iff sid m.subject_id, eq_iff m.subject_id sid)

any-put_member :
    (gid sid g s : PrefixedId) (ms : List Member)
    → any (is_pair g s) (put_member gid sid ms) ≡ (any (is_pair g s) ms || (gid == g && s == sid))
unfolding put_member any
any-put_member gid sid g s ms = ground (
  arith,
  any-append (is_pair g s) ms (record { group_id = gid; subject_id = sid } ∷ []),
  eq_iff gid g,
  eq_iff s sid,
  eq_iff sid s,
)

pub any-put_members :
    (gid g s : PrefixedId) (sids : List PrefixedId) (ms : List Member)
    → any (is_pair g s) (put_members gid sids ms)
      ≡ (any (is_pair g s) ms || (gid == g && contains s sids))
unfolding put_members contains
any-put_members gid g s [] ms = ground arith
any-put_members gid g s (sid ∷ sids) ms =
    ground
      (arith, any-put_members gid g s sids (put_member gid sid ms), any-put_member gid sid g s ms)

pub any-delete_members :
    (gid g s : PrefixedId) (sids : List PrefixedId) (ms : List Member)
    → any (is_pair g s) (keep (λ m. not (m.group_id == gid && contains m.subject_id sids)) ms)
      ≡ (any (is_pair g s) ms && not (g == gid && contains s sids))
unfolding keep any
any-delete_members gid g s sids [] = refl
any-delete_members gid g s sids (m ∷ ms) = ground (
  arith,
  any-delete_members gid g s sids ms,
  eq_iff m.group_id gid,
  eq_iff m.group_id g,
  eq_iff g gid,
  eq_iff m.subject_id s,
)

pub any-delete_member :
    (gid sid g s : PrefixedId) (ms : List Member)
    → any (is_pair g s) (keep (λ m. not (is_pair gid sid m)) ms)
      ≡ (any (is_pair g s) ms && not (g == gid && s == sid))
unfolding keep any
any-delete_member gid sid g s [] = refl
any-delete_member gid sid g s (m ∷ ms) = ground (
  arith,
  any-delete_member gid sid g s ms,
  eq_iff m.group_id gid,
  eq_iff m.group_id g,
  eq_iff g gid,
  eq_iff m.subject_id s,
  eq_iff m.subject_id sid,
  eq_iff s sid,
)

-- ===== src/Service/Agreement.antt =====
-- The permissions API and the committed memberships agree, as an invariant of what does not change
-- memberships.
use identity_api.Common.{String, ◌≡◌, ◌≢◌, refl, sym, ◌∙◌, Bool, false, List, [], ◌∷◌, arith, any}
use identity_api.Types.{PrefixedId, Group}
use identity_api.Platform.{View, Event}
use identity_api.Platform.Schema.{Tables, Stmt, UserRow}
use identity_api.Storage.Groups.Membership.{is_member}
use identity_api.Storage.Groups.Sql.{insert_group_row, update_group_row, delete_group_row}
use identity_api.Storage.Issuers.Sql.{
  insert_issuer_row, ColBinding, update_issuer_row, delete_users_of_issuer, delete_issuer_row,
}
use identity_api.Storage.Users.Sql.{upsert_user}
use identity_api.Storage.Clients.Sql.{insert_client, delete_client}
use identity_api.Events.{group_topic}
use identity_api.Events.Mirror.{granted, apply, names, granted-append}
use identity_api.Invariant.{Allows, Tells, IsInvariant, parent}

-- No membership is changed that is not committed, and on every subject id but the empty one the
-- permissions API was told of the members that are committed.
pub record Agrees (v : View) : Type 0 where
  pub settled : v.working.group_members ≡ v.committed.group_members
  pub told : (g s : PrefixedId) → s ≢ "" → granted g s false v.published ≡ is_member g s v.committed

same_members :
    (g s : PrefixedId) (t u : Tables)
    → t.group_members ≡ u.group_members
    → is_member g s t ≡ is_member g s u
same_members g s t u e = rw e refl

allow :
    {A : Type 0} {st : Stmt A}
    → ((t : Tables) → (st t).1.group_members ≡ t.group_members)
    → Allows Agrees st
allow k = record { runs = λ v h. record { settled = k v.working ∙ h.settled; told = h.told } }

tell : {e : Event} → ((g s : PrefixedId) (b : Bool) → apply e g s b ≡ b) → Tells Agrees e
tell {e = e} k = record {
  accepts = λ v h. record {
    settled = h.settled;
    told = λ g s ne.
        granted-append g s false v.published e
        ∙ k g s (granted g s false v.published)
        ∙ h.told g s ne;
  };
}

insert_group_row-members :
    (g : Group) (t : Tables) → (insert_group_row g t).1.group_members ≡ t.group_members
unfolding insert_group_row
insert_group_row-members g t = ground arith

update_group_row-members :
    (name description : String) (id : PrefixedId) (t : Tables)
    → (update_group_row name description id t).1.group_members ≡ t.group_members
unfolding update_group_row
update_group_row-members name description id t = ground arith

delete_group_row-members :
    (id : PrefixedId) (t : Tables) → (delete_group_row id t).1.group_members ≡ t.group_members
unfolding delete_group_row
delete_group_row-members id t = ground arith

update_issuer_row-members :
    (id : PrefixedId) (bs : List ColBinding) (t : Tables)
    → (update_issuer_row id bs t).1.group_members ≡ t.group_members
unfolding update_issuer_row
update_issuer_row-members id [] t = refl
update_issuer_row-members id (b ∷ bs) t = ground arith

upsert_user-members :
    (u : UserRow) (t : Tables) → (upsert_user u t).1.group_members ≡ t.group_members
unfolding upsert_user
upsert_user-members u t = ground arith

-- A request about a group's parent names no member.
names-parent : (gid id g s : PrefixedId) → names group_topic gid (parent id) g s ≡ false
unfolding names any
names-parent gid id g s = ground arith

pub Agrees-IsInvariant : IsInvariant Agrees
unfolding insert_issuer_row delete_users_of_issuer delete_issuer_row insert_client delete_client
    apply
Agrees-IsInvariant = record {
  begins = λ v h. record { settled = refl; told = h.told };
  commits = λ v h. record {
    settled = refl;
    told = λ g s ne. h.told g s ne ∙ sym (same_members g s v.working v.committed h.settled);
  };
  swaps = λ v h. record {
    settled = sym h.settled;
    told = λ g s ne. h.told g s ne ∙ sym (same_members g s v.working v.committed h.settled);
  };
  inserts_group = λ g. allow (insert_group_row-members g);
  updates_group = λ name description id. allow (update_group_row-members name description id);
  deletes_group = λ id. allow (delete_group_row-members id);
  inserts_issuer = λ i. allow (λ t. ground arith);
  updates_issuer = λ id bs. allow (update_issuer_row-members id bs);
  deletes_users = λ id. allow (λ t. refl);
  deletes_issuer = λ id. allow (λ t. ground arith);
  upserts_user = λ u. allow (upsert_user-members u);
  inserts_client = λ c. allow (λ t. ground arith);
  deletes_client = λ id. allow (λ t. refl);
  tells_created = λ gid id. tell (λ g s b. ground (arith, names-parent gid id g s));
  tells_deleted = λ gid id. tell (λ g s b. ground (arith, names-parent gid id g s));
}

-- ===== src/Constraints/Users.antt =====
-- internal/storage/userinfo.go: the statement that stores a user keeps the constraints.
use identity_api.Common.{
  ◌≡◌, refl, false, inl, inr, none, List, [], ◌∷◌, ◌++◌, arith, any, find?, Bool-cases,
  Option-cases, eq_comm,
}
use identity_api.Platform.Schema.{UserRow}
use identity_api.Storage.Users.Sql.{has_user_id, issued_by, same_user, upsert_user}
use identity_api.Constraints.{Respects, same_row}
use identity_api.Constraints.Issuers.{with_issuers}
use identity_api.Constraints.Rows.{append-Apart, linked_append}

same_row_comm : (u v : UserRow) → same_row u v ≡ same_row v u
same_row_comm u v =
    ground (arith, eq_comm u.id v.id, eq_comm u.iss_id v.iss_id, eq_comm u.sub v.sub)

any-same_row :
    (new : UserRow) (users : List UserRow)
    → find? (same_user new) users ≡ none
    → any (has_user_id new.id) users ≡ false
    → any (same_row new) users ≡ false
unfolding any find?
any-same_row new [] h k = refl
any-same_row new (u ∷ users) h k = ground (arith, h, k, any-same_row new users)

pub upsert_user-Respects : (new : UserRow) → Respects (upsert_user new)
unfolding upsert_user
upsert_user-Respects new t h = elim (Option-cases (find? (same_user new) t.user_info)) [
  | inr (old, e) ↦ rw (e, upsert_user) h
  | inl e ↦
      rw (e, upsert_user)
        (elim (Bool-cases (any (has_user_id new.id) t.user_info)) [
          | inl k ↦ rw k h
          | inr k ↦ rw k (elim (Bool-cases (any (issued_by new) t.issuers)) [
            | inr m ↦ rw m h
            | inl m ↦ rw m (
                with_issuers t t.issuers (t.user_info ++ new ∷ []) h (record {
                  apart = h.issuers.apart;
                  users_apart =
                      append-Apart same_row t.user_info new same_row_comm
                        (any-same_row new t.user_info e k) h.issuers.users_apart;
                  refer = linked_append issued_by t.user_info t.issuers new m h.issuers.refer;
                }))
          ])
        ])
]

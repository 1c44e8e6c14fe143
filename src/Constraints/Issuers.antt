-- ===== src/Constraints/Issuers.antt =====
-- internal/storage/issuer.go and query.go: every statement keeps the constraints.
use identity_api.Common.{
  ◌≡◌, refl, ◌∙◌, Bool, true, false, not, ◌&&◌, inl, inr, List, [], ◌∷◌, ◌++◌, map, arith, any,
  keep, Bool-cases, eq_comm, eq_cases,
}
use identity_api.Types.{PrefixedId}
use identity_api.Platform.Schema.{IssuerRow, UserRow, Tables}
use identity_api.Storage.Issuers.Sql.{
  has_id, of_issuer, clashes, insert_issuer_row, ColBinding, set_columns, set_issuer, uri_taken,
  update_issuer_row, delete_users_of_issuer, delete_issuer_row,
}
use identity_api.Storage.Users.Sql.{issued_by}
use identity_api.Storage.Issuers.Columns.{set_columns-id}
use identity_api.Constraints.{AreIssuers, IsConsistent, Respects, same_row}
use identity_api.Constraints.Rows.{
  In, any-false_at, any-map, keep-Apart, append-Apart, map-Apart, linked_shift, linked_grow,
  linked_keep, linked_delete,
}

clashes_comm : (i r : IssuerRow) → clashes i r ≡ clashes r i
unfolding clashes
clashes_comm i r = ground (arith, eq_comm i.id r.id, eq_comm i.uri r.uri)

pub with_issuers :
    (t : Tables) (issuers : List IssuerRow) (users : List UserRow)
    → IsConsistent t
    → AreIssuers issuers users
    → IsConsistent (record t { issuers = issuers; user_info = users })
with_issuers t issuers users h i = record { issuers = i; clients = h.clients; groups = h.groups }

pub insert_issuer_row-Respects : (i : IssuerRow) → Respects (insert_issuer_row i)
unfolding insert_issuer_row
insert_issuer_row-Respects i t h = elim (Bool-cases (any (clashes i) t.issuers)) [
  | inl e ↦ rw e h
  | inr e ↦ rw e (
      with_issuers t (t.issuers ++ i ∷ []) t.user_info h (record {
        apart = append-Apart clashes t.issuers i clashes_comm e h.issuers.apart;
        users_apart = h.issuers.users_apart;
        refer = linked_grow issued_by t.user_info t.issuers (i ∷ []) h.issuers.refer;
      }))
]

set_issuer_same :
    (id : PrefixedId) (bs : List ColBinding) (i : IssuerRow)
    → has_id id i ≡ true
    → set_issuer id bs i ≡ set_columns bs i
unfolding set_issuer
set_issuer_same id bs i h = ground (arith, h)

set_issuer_other :
    (id : PrefixedId) (bs : List ColBinding) (i : IssuerRow)
    → has_id id i ≡ false
    → set_issuer id bs i ≡ i
unfolding set_issuer
set_issuer_other id bs i h = ground (arith, h)

set_issuer-issued_by :
    (id : PrefixedId) (bs : List ColBinding) (u : UserRow) (i : IssuerRow)
    → issued_by u (set_issuer id bs i) ≡ issued_by u i
set_issuer-issued_by id bs u i = elim (Bool-cases (has_id id i)) [
  | inl e ↦ rw (set_issuer_same id bs i e) (rw (set_columns-id bs i) refl)
  | inr e ↦ rw (set_issuer_other id bs i e) refl
]

uri_free :
    (id : PrefixedId) (bs : List ColBinding) (issuers : List IssuerRow)
    → any (λ i. has_id id i && any (uri_taken id bs i) issuers) issuers ≡ false
    → (x y : IssuerRow) → In x issuers
    → In y issuers
    → has_id id x ≡ true
    → uri_taken id bs x y ≡ false
uri_free id bs issuers h x y m n e =
    any-false_at (uri_taken id bs x) issuers
      (ground (
        arith,
        e,
        any-false_at (λ i. has_id id i && any (uri_taken id bs i) issuers) issuers h x m,
      ))
      y n

-- An updated issuer stays apart from the others where none of them has the URI.
set_issuer-clashes :
    (id : PrefixedId) (bs : List ColBinding) (issuers : List IssuerRow)
    → any (λ i. has_id id i && any (uri_taken id bs i) issuers) issuers ≡ false
    → (a b : IssuerRow) → In a issuers
    → In b issuers
    → clashes a b ≡ false
    → clashes (set_issuer id bs a) (set_issuer id bs b) ≡ false
unfolding clashes uri_taken
set_issuer-clashes id bs issuers h a b i j k = elim (Bool-cases (has_id id a)) [
  | inl e ↦ rw (set_issuer_same id bs a e) (elim (Bool-cases (has_id id b)) [
    | inl f ↦ ground (arith, k, eq_cases a.id id, eq_cases b.id id, eq_cases b.id a.id, e, f)
    | inr f ↦
        rw (set_issuer_other id bs b f)
          (ground (arith, k, f, set_columns-id bs a, uri_free id bs issuers h a b i j e))
  ])
  | inr e ↦ rw (set_issuer_other id bs a e) (elim (Bool-cases (has_id id b)) [
    | inl f ↦ rw (set_issuer_same id bs b f) (
        ground (
          arith,
          k,
          e,
          set_columns-id bs b,
          eq_comm a.uri (set_columns bs b).uri,
          uri_free id bs issuers h b a j i f,
        ))
    | inr f ↦ rw (set_issuer_other id bs b f) k
  ])
]

pub update_issuer_row-Respects :
    (id : PrefixedId) (bs : List ColBinding) → Respects (update_issuer_row id bs)
unfolding update_issuer_row
update_issuer_row-Respects id [] t h = h
update_issuer_row-Respects id (b ∷ bs) t h =
    let set = set_issuer id (b ∷ bs) in
    elim (Bool-cases
      (any (λ i. has_id id i && any (uri_taken id (b ∷ bs) i) t.issuers) t.issuers)) [
        | inl e ↦ rw e h
        | inr e ↦ rw e (
            with_issuers t (map set t.issuers) t.user_info h (record {
              apart =
                  map-Apart clashes set t.issuers (set_issuer-clashes id (b ∷ bs) t.issuers e)
                    h.issuers.apart;
              users_apart = h.issuers.users_apart;
              refer =
                  linked_shift issued_by t.user_info t.issuers (map set t.issuers)
                    (λ u i k.
                      any-map (issued_by u) set t.issuers (set_issuer-issued_by id (b ∷ bs) u) ∙ k)
                    h.issuers.refer;
            }))
      ]

pub delete_users_of_issuer-Respects : (id : PrefixedId) → Respects (delete_users_of_issuer id)
unfolding delete_users_of_issuer
delete_users_of_issuer-Respects id t h =
    let others : UserRow → Bool = λ u. not (of_issuer id u) in
    with_issuers t t.issuers (keep others t.user_info) h (record {
      apart = h.issuers.apart;
      users_apart = keep-Apart same_row others t.user_info h.issuers.users_apart;
      refer = linked_keep issued_by t.user_info t.issuers others h.issuers.refer;
    })

pub delete_issuer_row-Respects : (id : PrefixedId) → Respects (delete_issuer_row id)
unfolding delete_issuer_row
delete_issuer_row-Respects id t h = elim (Bool-cases (any (of_issuer id) t.user_info)) [
  | inl e ↦ rw e h
  | inr e ↦
      let others : IssuerRow → Bool = λ i. not (has_id id i) in
      rw e (
        with_issuers t (keep others t.issuers) t.user_info h (record {
          apart = keep-Apart clashes others t.issuers h.issuers.apart;
          users_apart = h.issuers.users_apart;
          refer =
              linked_delete issued_by t.user_info t.issuers others
                (λ u i m q.
                  ground (
                    arith,
                    eq_cases i.id u.iss_id,
                    any-false_at (of_issuer id) t.user_info e u m,
                    q,
                  ))
                h.issuers.refer;
        }))
]

-- ===== src/Storage/Users/Stored.antt =====
-- One user for each issuer and subject.
use identity_api.Common.{
  eq_iff, ◌≢◌, String, ◌≡◌, refl, ◌&&◌, Option, none, some, [], ◌∷◌, ◌++◌, ◌==◌, arith, find?,
  find?-append_some, inl, inr, Option-cases, eq_refl, ◌⊎◌, ◌∙◌, ap,
}
use identity_api.Types.{PrefixedId}
use identity_api.Types.Users.{UserInfo}
use identity_api.Exec.{ok, Result-cases}
use identity_api.Platform.{Platform, IsDocumented, View}
use identity_api.Platform.Outcomes.{exec_ok}
use identity_api.Platform.Schema.{UserRow, Tables, rows}
use identity_api.Storage.{with_tx}
use identity_api.Storage.Issuers.Sql.{has_uri}
use identity_api.Storage.Users.{store_user_info, new_user_id, generate_subject_id}
use Prim.Native.String
use text.Mathlib.TextLemmas.{append_assoc}
use identity_api.Storage.Users.Sql.{select_issuer_id, id_of, upsert_user, same_user}

-- The row of a user under an issuer's id.
abbrev pub user_at : PrefixedId → String → Tables → Option UserRow
user_at iss_id sub t = find? (λ u. u.iss_id == iss_id && u.sub == sub) t.user_info

abbrev pub issuer_id_of : String → Tables → Option PrefixedId
issuer_id_of uri t = id_of (find? (has_uri uri) t.issuers)

abbrev new_row : UserInfo → PrefixedId → PrefixedId → UserRow
new_row u id iss_id = record {
  id = id;
  name = u.name;
  email = u.email;
  sub = u.subject;
  iss_id = iss_id;
}

-- An upsert that returns: the row was there and nothing has changed, or it is new, with the id given.
upsert_user_rows :
    (new : UserRow) (t : Tables) (id : PrefixedId)
    → (upsert_user new t).0 ≡ rows id
    → ((old : UserRow) × (find? (same_user new) t.user_info ≡ some old)
        × (old.id ≡ id)
        × ((upsert_user new t).1 ≡ t))
      ⊎ ((find? (same_user new) t.user_info ≡ none)
          × (new.id ≡ id)
          × ((upsert_user new t).1 ≡ record t { user_info = t.user_info ++ new ∷ [] }))
unfolding upsert_user
upsert_user_rows new t id h = elim (Option-cases (find? (same_user new) t.user_info)) [
  | inl e ↦ inr (e, ground (arith, e), ground (arith, e))
  | inr (old, e) ↦ inl (old, e, ground (arith, e), ground (arith, e))
]

new_user_id-cases :
    (p : Platform) (u : UserInfo) (id : PrefixedId)
    → new_user_id p u ≡ ok id
    → (u.id ≢ "" → id ≡ u.id)
      × (u.id ≡ "" → id ≡ String.◌++◌ "idntusr-" (p.digest (String.◌++◌ u.issuer u.subject)))
unfolding new_user_id generate_subject_id
new_user_id-cases p u id h =
    let prefix = append_assoc "idntusr" "-" (p.digest (String.◌++◌ u.issuer u.subject)) in
    (
      λ given. ground (arith, h, eq_iff u.id "", given),
      λ missing. ground (arith, h, eq_iff u.id "", missing, prefix),
    )

-- What a successful store has done: the issuer is known; the user's row is there, and its id is
-- returned; either it was there before and nothing has changed, or it is new, with the data given
-- and the id given, or generated where none is given.
abbrev pub IsStored : (p : Platform) → UserInfo → UserInfo → View → View → Type 0
IsStored p u out before after =
    (iss_id : PrefixedId) × (row : UserRow) × (issuer_id_of u.issuer before.working ≡ some iss_id)
    × (user_at iss_id u.subject after.working ≡ some row)
    × (out ≡ record u { id = row.id })
    × (((user_at iss_id u.subject before.working ≡ some row) × (after ≡ before))
        ⊎ ((user_at iss_id u.subject before.working ≡ none)
            × (u.id ≢ "" → row.id ≡ u.id)
            × (u.id ≡ ""
                → row.id ≡ String.◌++◌ "idntusr-" (p.digest (String.◌++◌ u.issuer u.subject)))
            × (row ≡ new_row u row.id iss_id)
            × (after ≡ record before {
              working = record (before.working) {
                user_info = before.working.user_info ++ row ∷ [];
              };
            })))

module _ {p : Platform} (d : IsDocumented p) where
  -- When `StoreUserInfo` returns, the issuer's URI is known and the user has a row, whose id is the
  -- one returned. A row that was there is kept as it is, its name and email too. A new row has the
  -- data given, and the id given or the digest of issuer and subject where none is given.
  pub store_user_info-IsStored :
      (u out : UserInfo) (w : p.World)
      → (store_user_info p with_tx u w).0 ≡ ok out
      → IsStored p u out (p.view w) (p.view (store_user_info p with_tx u w).1)
  unfolding store_user_info select_issuer_id
  store_user_info-IsStored u out w h =
      let w1 = (p.exec (select_issuer_id u.issuer) w).1 in
      elim (Option-cases (issuer_id_of u.issuer (p.view w).working)) [
        | inl e ↦ ground (arith, e, d.exec_law (select_issuer_id u.issuer) w)
        | inr (iss_id, e) ↦ elim (Result-cases (new_user_id p u)) [
          | inr (f, r) ↦ ground (arith, e, r, d.exec_law (select_issuer_id u.issuer) w)
          | inl (id, r) ↦
              let new = new_row u id iss_id in
              elim (Result-cases (p.exec (upsert_user new) w1).0) [
                | inr (f, x) ↦ ground (arith, e, r, x, d.exec_law (select_issuer_id u.issuer) w)
                | inl (user_id, x) ↦
                    let law = d.exec_law (select_issuer_id u.issuer) w in
                    let (answered, after) = exec_ok d (upsert_user new) w1 user_id x in
                    elim (upsert_user_rows new (p.view w1).working user_id answered) [
                      | inl (old, found, same, kept) ↦ (
                        iss_id,
                        old,
                        e,
                        ground (arith, h, e, r, x, law, after, found, kept),
                        ground (arith, h, e, r, x, law, same),
                        inl (
                          ground (arith, h, e, r, x, law, found),
                          ground (arith, h, e, r, x, law, after, kept),
                        ),
                      )
                      | inr (free, same, added) ↦
                          let users = (p.view w1).working.user_info in
                          let found =
                            find?-append_some (same_user new) users new free
                              (ground (arith, eq_refl iss_id, eq_refl u.subject)) in
                          (
                            iss_id,
                            new,
                            e,
                            ground (arith, h, e, r, x, law, after, added, found),
                            ground (arith, h, e, r, x, law, same),
                            inr (
                              ground (arith, law, free),
                              (new_user_id-cases p u id r).0,
                              (new_user_id-cases p u id r).1,
                              refl,
                              ground (arith, h, e, r, x, law, after, added),
                            ),
                          )
                    ]
              ]
        ]
      ]

  issuer_id_of-stored :
      (u out : UserInfo) (w : p.World) (uri : String)
      → (store_user_info p with_tx u w).0 ≡ ok out
      → issuer_id_of uri (p.view (store_user_info p with_tx u w).1).working
        ≡ issuer_id_of uri (p.view w).working
  issuer_id_of-stored u out w uri h =
      let (_, _, _, _, _, how) = store_user_info-IsStored u out w h in ground (arith, how)

  -- After a user is stored, storing the same issuer and subject again, with whatever id, name and
  -- email, returns the first id if it returns, and changes nothing.
  pub store_user_info_again :
      (u out : UserInfo) (id name email : String) (again : UserInfo) (w : p.World)
      → (store_user_info p with_tx u w).0 ≡ ok out
      → let w1 = (store_user_info p with_tx u w).1 in
        let v : UserInfo = record {
          id = id;
          name = name;
          email = email;
          issuer = u.issuer;
          subject = u.subject;
        } in
        (store_user_info p with_tx v w1).0 ≡ ok again
        → (again.id ≡ out.id) × (p.view (store_user_info p with_tx v w1).1 ≡ p.view w1)
  store_user_info_again u out id name email again w h k =
      let w1 = (store_user_info p with_tx u w).1 in
      let (i1, row1, known1, at1, out1, _) = store_user_info-IsStored u out w h in
      let (i2, row2, known2, _, out2, how) = store_user_info-IsStored _ again w1 k in
      let same : i2 ≡ i1 = ground (arith, known1, known2, issuer_id_of-stored u out w u.issuer h) in
      let at2 : user_at i2 u.subject (p.view w1).working ≡ some row1 =
        ap (λ (i : String). user_at i u.subject (p.view w1).working) same ∙ at1 in
      (ground (arith, out1, out2, at2, how), ground (arith, at2, how))

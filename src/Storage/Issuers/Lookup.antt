-- ===== src/Storage/Issuers/Lookup.antt =====
-- An issuer that is created is found; one that is deleted is not, nor are its users.
use identity_api.Common.{
  String, ◌≡◌, refl, true, false, not, Option, none, some, List, [], ◌∷◌, ◌++◌, ◌==◌, arith, any,
  keep, find?, find?-eq-none, find?-append, length-keep_zero, inl, inr, Bool-cases, eq_iff, eq_refl,
  if◌then◌else◌,
}
use identity_api.Types.{PrefixedId}
use identity_api.Types.Issuers.{
  Cel, RoundTrips, Issuer, IssuerUpdate, Conditions, entries_of, marshal_mapping,
  marshal_conditions, unmarshal_conditions,
}
use identity_api.Types.Issuers.RoundTrip.{
  unmarshal_mapping-marshal_mapping, unmarshal_conditions-marshal_conditions,
}
use identity_api.Types.Errors.{Failure, pq, db}
use identity_api.Exec.{ok, err, Result-cases}
use identity_api.Platform.{Platform, IsDocumented, View}
use identity_api.Platform.Schema.{IssuerRow}
use identity_api.Storage.{with_tx}
use identity_api.Storage.Issuers.{
  scan_issuer, scan_mapping, scan_conditions, conditions_column, issuer_row, create_issuer,
  insert_issuer, delete_issuer, update_issuer, issuer_update_to_col_bindings,
}
use identity_api.Storage.Issuers.Sql.{
  insert_issuer_row, clashes, has_id, has_uri, update_issuer_row, syntax_error, of_issuer,
  delete_issuer_row, delete_users_of_issuer,
}

abbrev pub issuer_at : PrefixedId → View → Option IssuerRow
issuer_at id v = find? (has_id id) v.working.issuers

abbrev pub issuer_by : String → View → Option IssuerRow
issuer_by uri v = find? (has_uri uri) v.working.issuers

any-clashes_id :
    (i : IssuerRow) (is : List IssuerRow)
    → any (clashes i) is ≡ false
    → any (has_id i.id) is ≡ false
unfolding any clashes
any-clashes_id i [] h = refl
any-clashes_id i (r ∷ is) h = ground (arith, any-clashes_id i is)

any-clashes_uri :
    (i : IssuerRow) (is : List IssuerRow)
    → any (clashes i) is ≡ false
    → any (has_uri i.uri) is ≡ false
unfolding any clashes
any-clashes_uri i [] h = refl
any-clashes_uri i (r ∷ is) h = ground (arith, any-clashes_uri i is)

find?-delete :
    (id other : PrefixedId) (is : List IssuerRow)
    → find? (has_id other) (keep (λ i. not (has_id id i)) is)
      ≡ (if id == other then none else find? (has_id other) is)
unfolding find? keep
find?-delete id other [] = ground arith
find?-delete id other (r ∷ is) =
    ground (arith, find?-delete id other is, eq_iff r.id id, eq_iff r.id other, eq_iff id other)

module _ (c : Cel) where
  abbrev pub stored_conditions : Option (Conditions c) → Conditions c
  stored_conditions none = none
  stored_conditions (some conditions) = conditions

  -- What an issuer is read back as: absent conditions come back as conditions that are nil.
  abbrev pub as_stored : Issuer c → Issuer c
  as_stored i = record i {
    claim_mappings = some (entries_of c i.claim_mappings);
    claim_conditions = some (stored_conditions i.claim_conditions);
  }

module _ {c : Cel} (r : RoundTrips c) where
  unmarshal-conditions_column :
      (o : Option (Conditions c)) (text : String)
      → conditions_column c o ≡ ok text
      → unmarshal_conditions c text ≡ ok (stored_conditions c o)
  unfolding conditions_column marshal_conditions
  unmarshal-conditions_column none text h = unmarshal_conditions-marshal_conditions r none text h
  unmarshal-conditions_column (some conditions) text h =
      unmarshal_conditions-marshal_conditions r conditions text h

  -- The row that is inserted is scanned as the issuer.
  scan_issuer-issuer_row :
      (i : Issuer c) (mappings conditions : String)
      → marshal_mapping c (entries_of c i.claim_mappings) ≡ ok mappings
      → conditions_column c i.claim_conditions ≡ ok conditions
      → scan_issuer c (some (issuer_row c i mappings conditions)) ≡ ok (as_stored c i)
  unfolding scan_issuer scan_mapping scan_conditions issuer_row
  scan_issuer-issuer_row i mappings conditions m k =
      let read = unmarshal_mapping-marshal_mapping r (entries_of c i.claim_mappings) mappings m in
      let read2 = unmarshal-conditions_column i.claim_conditions conditions k in
      ground (arith, read, read2)

module _ {p : Platform} (d : IsDocumented p) {c : Cel} (r : RoundTrips c) where
  -- When `CreateIssuer` returns, its result is the issuer given, neither its id nor its URI was
  -- taken, nothing but `issuers` has changed, and the row found under the id, and under the URI, is
  -- scanned as the issuer, an empty mapping and nil conditions in place of absent ones.
  pub create_issuer-issuer_at :
      (i out : Issuer c) (w : p.World)
      → (create_issuer p c with_tx i w).0 ≡ ok out
      → let after = p.view (create_issuer p c with_tx i w).1 in
        (out ≡ i)
        × (issuer_at i.id (p.view w) ≡ none)
        × (issuer_by i.uri (p.view w) ≡ none)
        × (scan_issuer c (issuer_at i.id after) ≡ ok (as_stored c i))
        × (scan_issuer c (issuer_by i.uri after) ≡ ok (as_stored c i))
        × ((row : IssuerRow) × (after ≡ record (p.view w) {
          working = record ((p.view w).working) {
            issuers = (p.view w).working.issuers ++ row ∷ [];
          };
        }))
  unfolding create_issuer insert_issuer insert_issuer_row
  create_issuer-issuer_at i out w h =
      elim (Result-cases (marshal_mapping c (entries_of c i.claim_mappings))) [
        | inr (f, e) ↦ ground (arith, e, h)
        | inl (mappings, e) ↦ elim (Result-cases (conditions_column c i.claim_conditions)) [
          | inr (f, k) ↦ ground (arith, e, k, h)
          | inl (conditions, k) ↦
              let row = issuer_row c i mappings conditions in
              let issuers = (p.view w).working.issuers in
              let scanned = scan_issuer-issuer_row r i mappings conditions e k in
              let law = d.exec_law (insert_issuer_row row) w in
              elim (Bool-cases (any (clashes row) issuers)) [
                | inl taken ↦ ground (arith, e, k, h, law, taken)
                | inr free ↦
                    let by_id = any-clashes_id row issuers free in
                    let by_uri = any-clashes_uri row issuers free in
                    let at_id = find?-append (has_id i.id) issuers row by_id (eq_refl i.id) in
                    let at_uri = find?-append (has_uri i.uri) issuers row by_uri (eq_refl i.uri) in
                    (
                      ground (arith, e, k, h, law),
                      find?-eq-none (has_id i.id) issuers by_id,
                      find?-eq-none (has_uri i.uri) issuers by_uri,
                      ground (arith, e, k, h, law, free, at_id, scanned),
                      ground (arith, e, k, h, law, free, at_uri, scanned),
                      (row, ground (arith, e, k, h, law, free)),
                    )
              ]
        ]
      ]

module _ {p : Platform} (d : IsDocumented p) where
  -- When `DeleteIssuer` returns without error, the issuer was there and is no longer; other lookups
  -- by id answer as before, its users and no others are gone, and nothing else has changed.
  pub delete_issuer-issuer_at :
      (id : PrefixedId) (w : p.World)
      → (delete_issuer p with_tx id w).0 ≡ ok tt
      → let after = p.view (delete_issuer p with_tx id w).1 in
        (any (has_id id) (p.view w).working.issuers ≡ true)
        × ((other : PrefixedId)
            → issuer_at other after ≡ (if id == other then none else issuer_at other (p.view w)))
        × (after ≡ record (p.view w) {
          working = record ((p.view w).working) {
            issuers = after.working.issuers;
            user_info = keep (λ u. not (of_issuer id u)) (p.view w).working.user_info;
          };
        })
  unfolding delete_issuer delete_issuer_row delete_users_of_issuer
  delete_issuer-issuer_at id w h = elim (Result-cases (p.exec (delete_users_of_issuer id) w).0) [
    | inr (f, e) ↦ ground (arith, e, h)
    | inl (_, e) ↦
        let w1 = (p.exec (delete_users_of_issuer id) w).1 in
        elim (Result-cases (p.exec (delete_issuer_row id) w1).0) [
          | inr (f, k) ↦ ground (arith, e, k, h)
          | inl (n, k) ↦
              let issuers = (p.view w).working.issuers in
              let law1 = d.exec_law (delete_users_of_issuer id) w in
              let law2 = d.exec_law (delete_issuer_row id) w1 in
              let empty = length-keep_zero (has_id id) issuers in
              (
                elim (Bool-cases (any (has_id id) issuers)) [
                  | inl there ↦ there
                  | inr absent ↦ ground (arith, e, k, h, law1, law2, empty absent)
                ],
                λ other. ground (arith, e, k, h, law1, law2, find?-delete id other issuers),
                ground (arith, e, k, h, law1, law2),
              )
        ]
  ]

  -- An update that names no column is refused as a database error, whether or not the issuer is there,
  -- and changes nothing.
  pub update_issuer_none :
      {c : Cel} (id : PrefixedId) (u : IssuerUpdate c) (w : p.World)
      → issuer_update_to_col_bindings c u ≡ ok []
      → ((f : Failure) × ((update_issuer p c with_tx id u w).0 ≡ err (db f)))
        × (p.view (update_issuer p c with_tx id u w).1 ≡ p.view w)
  unfolding update_issuer update_issuer_row
  update_issuer_none id u w h = elim (d.exec_law (update_issuer_row id []) w) [
    | inl (f, e, _, v) ↦ ((f, ground (arith, h, e)), ground (arith, h, e, v))
    | inr (e, v) ↦ ((pq syntax_error, ground (arith, h, e)), ground (arith, h, e, v))
  ]

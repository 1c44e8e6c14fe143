-- ===== src/Storage/Issuers/Updated.antt =====
-- What an update of an issuer changes.
use identity_api.Common.{
  String, ◌≡◌, ◌≢◌, refl, sym, ap, ◌∙◌, Option, none, some, List, [], ◌∷◌, map, ◌==◌, ◌&&◌, arith,
  any, find?, inl, inr, Bool-cases, Option-cases,
}
use identity_api.Types.{PrefixedId}
use identity_api.Types.Issuers.{Cel, RoundTrips, Issuer, IssuerUpdate}
use identity_api.Exec.{ok, err, Result-cases}
use identity_api.Platform.{Platform, IsDocumented}
use identity_api.Platform.Schema.{IssuerRow, Tables, rows}
use identity_api.Platform.Outcomes.{exec_ok}
use identity_api.Storage.{with_tx}
use identity_api.Storage.Issuers.{
  scan_issuer, scan_mapping, scan_conditions, update_issuer, issuer_update_to_col_bindings,
}
use identity_api.Storage.Issuers.Sql.{has_id, ColBinding, set_issuer, uri_taken, update_issuer_row}
use identity_api.Storage.Issuers.Lookup.{issuer_at, update_issuer_none}
use identity_api.Types.Errors.{Failure, db}
use identity_api.Storage.Issuers.Columns.{
  given, written, given_mappings, given_conditions, updated_row, update-effect, set_columns-id,
  set_issuer-find?, find?-set_issuer_other,
}

module _ {c : Cel} where
  -- What an update gives.
  pub record IsUpdated (u : IssuerUpdate c) (old : IssuerRow) (out : Issuer c) : Type 0 where
    pub id : out.id ≡ old.id
    pub owner_id : out.owner_id ≡ old.owner_id
    pub name : out.name ≡ given u.name old.name
    pub uri : out.uri ≡ given u.uri old.uri
    pub jwksuri : out.jwksuri ≡ given u.jwksuri old.jwksuri
    pub claim_mappings : given_mappings c u.claim_mappings old.mappings ≡ ok out.claim_mappings
    pub claim_conditions :
        given_conditions c u.claim_conditions old.conditions ≡ ok out.claim_conditions

update_issuer_row-rows :
    (id : PrefixedId) (bs : List ColBinding) (t : Tables) (row : Option IssuerRow)
    → (update_issuer_row id bs t).0 ≡ rows row
    → (find? (has_id id) (map (set_issuer id bs) t.issuers) ≡ row)
      × ((update_issuer_row id bs t).1 ≡ record t { issuers = map (set_issuer id bs) t.issuers })
unfolding update_issuer_row
update_issuer_row-rows id [] t row h = ground arith
update_issuer_row-rows id (b ∷ bs) t row h =
    elim (Bool-cases
      (any (λ i. has_id id i && any (uri_taken id (b ∷ bs) i) t.issuers) t.issuers)) [
        | inl e ↦ ground (arith, e, h)
        | inr e ↦ (ground (arith, e, h), ground (arith, e))
      ]

scan_issuer_ne : {c : Cel} (out : Issuer c) → scan_issuer c none ≢ ok out
unfolding scan_issuer
scan_issuer_ne out h = ground arith

module _ {c : Cel} (r : RoundTrips c) where
  scan_issuer-IsUpdated :
      (u : IssuerUpdate c) (m k : Option String) (old : IssuerRow) (out : Issuer c)
      → ((t : Option String) → scan_mapping c (written m t) ≡ given_mappings c u.claim_mappings t)
      → ((t : Option String)
          → scan_conditions c (written k t) ≡ given_conditions c u.claim_conditions t)
      → scan_issuer c (some (updated_row r u m k old)) ≡ ok out
      → IsUpdated u old out
  unfolding scan_issuer
  scan_issuer-IsUpdated u m k old out m_scan k_scan h =
      elim (Result-cases (scan_mapping c (written m old.mappings))) [
        | inr (e, a) ↦ ground (arith, a, h)
        | inl (mappings, a) ↦ elim (Result-cases (scan_conditions c (written k old.conditions))) [
          | inr (e, b) ↦ ground (arith, a, b, h)
          | inl (conditions, b) ↦ record {
            id = ground (arith, a, b, h);
            owner_id = ground (arith, a, b, h);
            name = ground (arith, a, b, h);
            uri = ground (arith, a, b, h);
            jwksuri = ground (arith, a, b, h);
            claim_mappings = sym (m_scan old.mappings) ∙ a ∙ ground (arith, a, b, h);
            claim_conditions = sym (k_scan old.conditions) ∙ b ∙ ground (arith, a, b, h);
          }
        ]
      ]

module _ {p : Platform} (d : IsDocumented p) {c : Cel} (r : RoundTrips c) where
  update_issuer-issuer_at :
      (id : PrefixedId) (u : IssuerUpdate c) (out : Issuer c) (w : p.World)
      → (update_issuer p c with_tx id u w).0 ≡ ok out
      → let after = p.view (update_issuer p c with_tx id u w).1 in
        ((old : IssuerRow) × (issuer_at id (p.view w) ≡ some old) × IsUpdated u old out)
        × (scan_issuer c (issuer_at id after) ≡ ok out)
        × ((other : PrefixedId) → other ≢ id → issuer_at other after ≡ issuer_at other (p.view w))
        × (after ≡ record (p.view w) {
          working = record ((p.view w).working) { issuers = after.working.issuers };
        })
  unfolding update_issuer
  update_issuer-issuer_at id u out w h = elim (Result-cases (issuer_update_to_col_bindings c u)) [
    | inr (e, b) ↦ ground (arith, b, h)
    | inl (bs, b) ↦ elim (Result-cases (p.exec (update_issuer_row id bs) w).0) [
      | inr (e, x) ↦ ground (arith, b, x, h)
      | inl (row, x) ↦
          let t = (p.view w).working in
          let (answered, after) = exec_ok d (update_issuer_row id bs) w row x in
          let (found, tables) = update_issuer_row-rows id bs t row answered in
          let (m, k, effect, m_scan, k_scan) = update-effect r u bs b in
          let scanned : scan_issuer c row ≡ ok out = ground (arith, b, x, h) in
          let now : p.view (update_issuer p c with_tx id u w).1 ≡ record (p.view w) {
            working = record t { issuers = map (set_issuer id bs) t.issuers };
          } =
            ground (arith, b, x, after, tables) in
          elim (Option-cases row) [
            | inl none_found ↦
                absurd (scan_issuer_ne out (ap (scan_issuer c) (sym none_found) ∙ scanned))
            | inr (new, one) ↦
                let (old, at_old, same) =
                  set_issuer-find? id bs t.issuers new
                    (λ i. ap (λ (z : String). z == id) (set_columns-id bs i)) (found ∙ one) in
                (
                  (
                    old,
                    at_old,
                    scan_issuer-IsUpdated r u m k old out m_scan k_scan (
                        ap (λ (z : IssuerRow). scan_issuer c (some z)) (sym (same ∙ effect old))
                        ∙ ap (scan_issuer c) (sym one)
                        ∙ scanned),
                  ),
                  rw now (ap (scan_issuer c) found ∙ scanned),
                  λ other ne.
                      rw now (find?-set_issuer_other id other bs t.issuers ne (set_columns-id bs)),
                  rw now refl,
                )
          ]
    ]
  ]

  -- When `UpdateIssuer` returns, an issuer was found under the id; the result is that issuer with the
  -- name, URI, JWKS URI, mappings and conditions that the update gives, and its own where the update
  -- gives none; the row then found under the id is scanned as the result, lookups by other ids answer
  -- as before, and nothing but `issuers` has changed. An update that
  -- sets no column is refused as a database error, whether or not the issuer is there, and changes
  -- nothing.
  pub update_issuer-outcomes :
      (id : PrefixedId) (u : IssuerUpdate c) (w : p.World)
      → let after = p.view (update_issuer p c with_tx id u w).1 in
        ((out : Issuer c)
          → (update_issuer p c with_tx id u w).0 ≡ ok out
          → ((old : IssuerRow) × (issuer_at id (p.view w) ≡ some old) × IsUpdated u old out)
            × (scan_issuer c (issuer_at id after) ≡ ok out)
            × ((other : PrefixedId)
                → other ≢ id
                → issuer_at other after ≡ issuer_at other (p.view w))
            × (after ≡ record (p.view w) {
              working = record ((p.view w).working) { issuers = after.working.issuers };
            }))
        × (issuer_update_to_col_bindings c u ≡ ok []
            → ((f : Failure) × ((update_issuer p c with_tx id u w).0 ≡ err (db f)))
              × (after ≡ p.view w))
  update_issuer-outcomes id u w =
      (λ out h. update_issuer-issuer_at id u out w h, λ h. update_issuer_none d id u w h)

-- ===== src/Storage/Seed/Rows.antt =====
-- What seeding commits.
use mathlib.Core.List.{append_assoc, append-nil}
use identity_api.Common.{
  String, ◌≡◌, ap, sym, List, [], ◌∷◌, ◌++◌, arith, any, inl, inr, Bool-cases,
}
use identity_api.Types.Issuers.{
  Cel, Issuer, new_claims_mapping, new_claim_conditions, marshal_mapping, entries_of,
}
use identity_api.Types.Errors.{Error}
use identity_api.Exec.{ok, err, Result-cases}
use identity_api.Platform.{Platform, IsDocumented, View}
use identity_api.Exec.Keeps.{Keeps, Keeps-pure, Keeps-lift, Keeps-bind}
use identity_api.Platform.Committed.{SameCommitted, committed_preorder}
use identity_api.Storage.Groups.Committed.{storage_rules}
use identity_api.Platform.Outcomes.{exec_ok}
use identity_api.Platform.Schema.{IssuerRow}
use identity_api.Storage.{with_tx, begin_tx_context, commit_context_tx, rollback_context_tx}
use identity_api.Storage.Issuers.{insert_issuer, issuer_row, conditions_column}
use identity_api.Storage.Issuers.Sql.{insert_issuer_row, clashes}
use identity_api.Storage.Seed.{SeedIssuer, build_issuer_from_seed, insert_seeds, seed_database}

-- A row has the texts of a seed.
abbrev pub IsSeeded : SeedIssuer → IssuerRow → Type 0
IsSeeded seed row =
    (row.id ≡ seed.id)
    × (row.owner_id ≡ seed.owner_id)
    × (row.name ≡ seed.name)
    × (row.uri ≡ seed.uri)
    × (row.jwksuri ≡ seed.jwksuri)

abbrev pub AreSeeded : List SeedIssuer → List IssuerRow → Type 0
AreSeeded [] [] = Unit {0}
AreSeeded (seed ∷ seeds) (row ∷ rows) = IsSeeded seed row × AreSeeded seeds rows
AreSeeded [] (row ∷ rows) = ⊥
AreSeeded (seed ∷ seeds) [] = ⊥

abbrev pub with_issuers : List IssuerRow → View → View
with_issuers rows v = record v {
  working = record (v.working) { issuers = v.working.issuers ++ rows };
}

with_issuers-cons :
    (row : IssuerRow) (rows : List IssuerRow) (v : View)
    → with_issuers rows (with_issuers (row ∷ []) v) ≡ with_issuers (row ∷ rows) v
with_issuers-cons row rows v =
    ap (λ (is : List IssuerRow). record v { working = record (v.working) { issuers = is } })
      (append_assoc v.working.issuers (row ∷ []) rows)

module _ (c : Cel) where
  build_issuer_from_seed-issuer_row :
      (seed : SeedIssuer) (iss : Issuer c) (m cs : String)
      → build_issuer_from_seed c seed ≡ ok iss
      → IsSeeded seed (issuer_row c iss m cs)
  unfolding build_issuer_from_seed issuer_row
  build_issuer_from_seed-issuer_row seed iss m cs h =
      elim (Result-cases (new_claims_mapping c seed.claim_mappings)) [
        | inr (e, r) ↦ ground (arith, r, h)
        | inl (mappings, r) ↦ elim (Result-cases (new_claim_conditions c seed.claim_conditions)) [
          | inr (e, s) ↦ ground (arith, r, s, h)
          | inl (conditions, s) ↦ (
            ground (arith, r, s, h),
            ground (arith, r, s, h),
            ground (arith, r, s, h),
            ground (arith, r, s, h),
            ground (arith, r, s, h),
          )
        ]
      ]

module _ {p : Platform} (d : IsDocumented p) (c : Cel) where
  insert_issuer_ok :
      (iss : Issuer c) (w : p.World)
      → (insert_issuer p c with_tx iss w).0 ≡ ok tt
      → (m : String) × (cs : String) × (p.view (insert_issuer p c with_tx iss w).1
          ≡ with_issuers (issuer_row c iss m cs ∷ []) (p.view w))
  unfolding insert_issuer insert_issuer_row
  insert_issuer_ok iss w h =
      elim (Result-cases (marshal_mapping c (entries_of c iss.claim_mappings))) [
        | inr (e, r) ↦ ground (arith, r, h)
        | inl (m, r) ↦ elim (Result-cases (conditions_column c iss.claim_conditions)) [
          | inr (e, s) ↦ ground (arith, r, s, h)
          | inl (cs, s) ↦
              let row = issuer_row c iss m cs in
              let done : (p.exec (insert_issuer_row row) w).0 ≡ ok tt = ground (arith, r, s, h) in
              let (answered, after) = exec_ok d (insert_issuer_row row) w tt done in
              elim (Bool-cases (any (clashes row) (p.view w).working.issuers)) [
                | inl e ↦ ground (arith, e, answered)
                | inr e ↦ (m, cs, ground (arith, r, s, e, after))
              ]
        ]
      ]

  insert_seeds-AreSeeded :
      (seeds : List SeedIssuer) (w : p.World)
      → (insert_seeds p c with_tx seeds w).0 ≡ ok tt
      → (rows : List IssuerRow) × AreSeeded seeds rows
        × (p.view (insert_seeds p c with_tx seeds w).1 ≡ with_issuers rows (p.view w))
  unfolding insert_seeds
  insert_seeds-AreSeeded [] w h = (
    [],
    tt,
    ap
        (λ (is : List IssuerRow). record (p.view w) {
          working = record ((p.view w).working) { issuers = is };
        })
        (sym (append-nil (p.view w).working.issuers)),
  )
  insert_seeds-AreSeeded (seed ∷ seeds) w h = elim (Result-cases (build_issuer_from_seed c seed)) [
    | inr (e, r) ↦ ground (arith, r, h)
    | inl (iss, r) ↦
        let w1 = (insert_issuer p c with_tx iss w).1 in
        elim (Result-cases (insert_issuer p c with_tx iss w).0) [
          | inr (e, i) ↦ ground (arith, r, i, h)
          | inl (u, i) ↦
              let (m, cs, added) = insert_issuer_ok iss w i in
              let row = issuer_row c iss m cs in
              let (rows, are, after) = insert_seeds-AreSeeded seeds w1 (ground (arith, r, i, h)) in
              (
                row ∷ rows,
                (build_issuer_from_seed-issuer_row c seed iss m cs r, are),
                ground (arith, r, i, after, added, with_issuers-cons row rows (p.view w)),
              )
        ]
  ]

  committed-insert_issuer :
      (iss : Issuer c) → Keeps (SameCommitted p) (insert_issuer p c with_tx iss)
  unfolding insert_issuer
  committed-insert_issuer iss = search (storage_rules, committed_preorder d)

  committed-insert_seeds :
      (seeds : List SeedIssuer) → Keeps (SameCommitted p) (insert_seeds p c with_tx seeds)
  unfolding insert_seeds
  committed-insert_seeds [] = Keeps-pure (committed_preorder d) tt
  committed-insert_seeds (seed ∷ seeds) =
      let pre = committed_preorder d in
      Keeps-bind pre _ _ (Keeps-lift pre _)
        λ iss. Keeps-bind pre _ _ (committed-insert_issuer iss) λ _. committed-insert_seeds seeds

  -- Where seeding succeeds, the committed tables have, behind the issuers that were there, a row for
  -- each seed, in order and with its id, owner, name, URI and JWKS URI; nothing else is changed. Where
  -- a seed fails, seeding returns its error and has committed nothing.
  pub seed_database-AreSeeded :
      (seeds : List SeedIssuer) (w : p.World)
      → ((seed_database p c seeds w).0 ≡ ok tt
          → (rows : List IssuerRow) × AreSeeded seeds rows
            × ((p.view (seed_database p c seeds w).1).committed
                ≡ record ((p.view w).committed) { issuers = (p.view w).committed.issuers ++ rows }))
        × ((e : Error)
            → (p.begin w).0 ≡ ok tt
            → (insert_seeds p c with_tx seeds (p.begin w).1).0 ≡ err e
            → ((seed_database p c seeds w).0 ≡ err e)
              × ((p.view (seed_database p c seeds w).1).committed ≡ (p.view w).committed))
  unfolding seed_database begin_tx_context commit_context_tx rollback_context_tx
  seed_database-AreSeeded seeds w =
      let w1 = (p.begin w).1 in
      let w2 = (insert_seeds p c with_tx seeds w1).1 in
      (
        λ h. elim (Result-cases (p.begin w).0) [
          | inr (e, b) ↦ ground (arith, b, h)
          | inl (u, b) ↦ elim (Result-cases (insert_seeds p c with_tx seeds w1).0) [
            | inr (e, s) ↦ ground (arith, b, s, h)
            | inl (v, s) ↦ elim (Result-cases (p.commit w2).0) [
              | inr (e, k) ↦ elim (Result-cases (p.rollback w2).0) [
                | inl (x, r) ↦ ground (arith, b, s, k, r, h)
                | inr (x, r) ↦ ground (arith, b, s, k, r, h)
              ]
              | inl (x, k) ↦
                  let (rows, are, after) = insert_seeds-AreSeeded seeds w1 s in
                  (rows, are, ground (arith, b, s, k, d.commit_law w2 k, after, d.begin_law w))
            ]
          ]
        ],
        λ e b s. (
          ground (arith, b, s),
          ground (arith, b, s, (committed-insert_seeds seeds).at w1, d.begin_law w),
        ),
      )

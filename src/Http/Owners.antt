-- ===== src/Http/Owners.antt =====
-- The owner of a stored issuer decides who may read or change it.
use identity_api.Common.{String, ◌≡◌, refl, arith, inl, inr}
use identity_api.Types.{PrefixedId}
use identity_api.Types.Issuers.{Cel, Issuer}
use identity_api.Types.Errors.{http, permission_denied}
use identity_api.Exec.{ok, err, Exec, ◌>>=◌, ◌>>◌, map_err, Result-cases}
use identity_api.Platform.{Platform, IsDocumented}
use identity_api.Platform.Outcomes.{exec_read}
use identity_api.Storage.{Ctx, with_tx, background, query_row}
use identity_api.Storage.Issuers as Storage
use identity_api.Storage.Issuers.Sql.{select_issuer_by_id}
use identity_api.Http.{check_access, permissions_error}
use identity_api.Http.Issuers.{
  UpdateIssuer, get_issuer_by_id, update_issuer, delete_issuer, not_found_error,
}

-- The status is 403 and nothing observed has changed.
abbrev pub IsForbidden : (p : Platform) {A : Type 0} → Exec p.World A → p.World → Type 0
IsForbidden p m w = ((m w).0 ≡ err (http 403)) × (p.view (m w).1 ≡ p.view w)

module _ {p : Platform} (d : IsDocumented p) (c : Cel) where
  get_issuer_by_id-view :
      (ctx : Ctx) (id : PrefixedId) (w : p.World)
      → p.view (Storage.get_issuer_by_id p c ctx id w).1 ≡ p.view w
  unfolding Storage.get_issuer_by_id query_row select_issuer_by_id
  get_issuer_by_id-view with_tx id w =
      let st = select_issuer_by_id id in
      elim (Result-cases (p.exec st w).0) [
        | inl (row, e) ↦ ground (arith, e, exec_read d st w refl)
        | inr (f, e) ↦ ground (arith, e, exec_read d st w refl)
      ]
  get_issuer_by_id-view background id w =
      let st = select_issuer_by_id id in
      elim (Result-cases (p.query "" st w).0) [
        | inl (row, e) ↦ ground (arith, e, d.query_view "" st w)
        | inr (f, e) ↦ ground (arith, e, d.query_view "" st w)
      ]

  forbidden :
      {A : Type 0} (ctx : Ctx) (id : PrefixedId) (action : String) (iss : Issuer c) (w : p.World)
      (next : Issuer c → Exec p.World A)
      → (Storage.get_issuer_by_id p c ctx id w).0 ≡ ok iss
      → (p.check_access iss.owner_id action (Storage.get_issuer_by_id p c ctx id w).1).0
        ≡ err permission_denied
      → IsForbidden p
          (map_err not_found_error (Storage.get_issuer_by_id p c ctx id) >>= λ i.
            check_access p i.owner_id action >> next i)
          w
  unfolding check_access permissions_error
  forbidden ctx id action iss w next found h =
      let w1 = (Storage.get_issuer_by_id p c ctx id w).1 in
      (
        ground (arith, found, h),
        ground
            (arith, found, h, d.check_view iss.owner_id action w1, get_issuer_by_id-view ctx id w),
      )

  -- A caller to whom every action on the owner of a stored issuer is denied gets a 403 for reading,
  -- updating and deleting the issuer, whatever the request says, and nothing is changed.
  pub owner_denied :
      (ctx : Ctx) (id : PrefixedId) (body : UpdateIssuer) (iss : Issuer c) (w : p.World)
      → (Storage.get_issuer_by_id p c ctx id w).0 ≡ ok iss
      → ((action : String)
          → (p.check_access iss.owner_id action (Storage.get_issuer_by_id p c ctx id w).1).0
            ≡ err permission_denied)
      → IsForbidden p (get_issuer_by_id p c ctx id) w
        × IsForbidden p (update_issuer p c ctx id body) w
        × IsForbidden p (delete_issuer p c ctx id) w
  unfolding get_issuer_by_id update_issuer delete_issuer
  owner_denied ctx id body iss w found h = (
    forbidden ctx id _ iss w _ found (h _),
    forbidden ctx id _ iss w _ found (h _),
    forbidden ctx id _ iss w _ found (h _),
  )

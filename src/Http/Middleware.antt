-- ===== src/Http/Middleware.antt =====
-- `storageMiddleware` of internal/api/httpsrv/handler.go: one transaction for each request.
use identity_api.Common.{◌≡◌, arith, inl, inr}
use identity_api.Types.Errors.{Error}
use identity_api.Exec.{ok, err, Exec, Result-cases}
use identity_api.Exec.Keeps.{Keeps}
use identity_api.Platform.{Platform, IsDocumented}
use identity_api.Platform.Committed.{SameCommitted}
use identity_api.Storage.{Ctx, with_tx}
use identity_api.Http.{storage_middleware}

-- For a handler that does not itself commit: when it returns an error, what is committed after the
-- request is what was committed before; when the request succeeds, the handler ran in a transaction
-- that began at the committed tables and returned the same response, and what is committed after is
-- what the transaction held when the handler returned.
pub storage_middleware_atomic :
    {p : Platform} (d : IsDocumented p) {A : Type 0} (next : Ctx → Exec p.World A) (w : p.World)
    → ((ctx : Ctx) → Keeps (SameCommitted p) (next ctx))
    → let start = (p.begin w).1 in
      let after = p.view (storage_middleware p next w).1 in
      ((e : Error) → (next with_tx start).0 ≡ err e → after.committed ≡ (p.view w).committed)
      × ((a : A)
          → (storage_middleware p next w).0 ≡ ok a
          → ((next with_tx start).0 ≡ ok a)
            × ((p.view start).working ≡ (p.view w).committed)
            × (after.committed ≡ (p.view (next with_tx start).1).working))
unfolding storage_middleware
storage_middleware_atomic {p} d next w keeps =
    let start = (p.begin w).1 in
    let end = (next with_tx start).1 in
    (
      λ e h. ground (arith, h, d.begin_law w, (keeps with_tx).at start, d.rollback_law end),
      λ a h. elim (Result-cases (next with_tx start).0) [
        | inl (b, r) ↦ (
          ground (arith, h, r),
          ground (arith, h, r, d.begin_law w),
          ground (arith, h, r, d.commit_law end),
        )
        | inr (e, r) ↦ (ground (arith, h, r), ground (arith, h, r), ground (arith, h, r))
      ],
    )

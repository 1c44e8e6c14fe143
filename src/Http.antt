-- ===== src/Http.antt =====
-- internal/api/httpsrv/handler.go and errors.go: the storage middleware and what the handlers share.
-- Of an HTTP error the status is modelled, not its text.
pub mod Groups
pub mod Members
pub mod Issuers
pub mod Middleware
pub mod Access
pub mod Owners
pub mod Sync
pub mod Listing
pub mod Clients
mod Tests
pub mod Committed
use identity_api.Common.{ℕ, String, Bool, not, List, [], ◌∷◌}
use identity_api.Types.{PrefixedId}
use identity_api.Types.Errors.{Error, http, permission_denied}
use identity_api.Exec.{Result, ok, err, Exec, pure, fail, fail_if, map_err, branch, ◌>>=◌, ◌>>◌}
use identity_api.Platform.{Platform}
use identity_api.Storage.{Ctx, begin_tx_context, commit_context_tx, rollback_context_tx}

-- `permissionsError`: a denial is a 403, any other error stays.
unfoldable pub permissions_error : Error → Error
permissions_error permission_denied = http 403
permissions_error e = e

module _ (p : Platform) where
  -- `if _, err := gidx.Parse(id); err != nil { return 400 }`
  unfoldable pub parse_id : PrefixedId → Exec p.World (Unit {0})
  parse_id id = fail_if (not (p.valid_id id)) (http 400)

  unfoldable pub parse_ids : List PrefixedId → Exec p.World (Unit {0})
  unfolding parse_id
  parse_ids [] = pure tt
  parse_ids (id ∷ ids) = do parse_id id; parse_ids ids

  -- `if err := permissions.CheckAccess(...); err != nil { return permissionsError(err) }`
  unfoldable pub check_access : PrefixedId → String → Exec p.World (Unit {0})
  unfolding permissions_error
  check_access id action = map_err permissions_error (p.check_access id action)

  unfoldable pub rollback_and_return_error : {A : Type 0} → Ctx → ℕ → Exec p.World A
  unfolding rollback_context_tx
  rollback_and_return_error ctx code =
      branch (rollback_context_tx p ctx) (λ _. fail (http code)) (λ _. fail (http 500))

  -- A call of the event service, and what its failure does to the request.
  unfoldable pub notify : Ctx → Exec p.World (Unit {0}) → Exec p.World (Unit {0})
  unfolding rollback_and_return_error
  notify ctx m = branch m pure (λ _. rollback_and_return_error ctx 500)

  -- What follows `next` in the middleware: an error rolls back, a response commits.
  unfoldable pub storage_middleware : {A : Type 0} → (Ctx → Exec p.World A) → Exec p.World A
  unfolding begin_tx_context commit_context_tx rollback_context_tx
  storage_middleware next = do
    ctx ← map_err (λ _. http 502) (begin_tx_context p)
    branch (next ctx)
        (λ response. map_err (λ _. http 502) (commit_context_tx p ctx) >> pure response)
        (λ e. branch (rollback_context_tx p ctx) (λ _. fail e) (λ _. fail (http 502)))

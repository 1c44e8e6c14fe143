-- ===== src/Storage.antt =====
-- internal/storage/context.go: a request's context carries the transaction that the middleware began.
pub mod Diff
pub mod Groups
pub mod Clients
pub mod Listing
pub mod Issuers
pub mod Users
pub mod Seed
pub mod Reads
use identity_api.Common.{String, List}
use identity_api.Types.Errors.{Error, missing_context_tx}
use identity_api.Exec.{Result, ok, err, Exec, pure, ◌>>=◌}
use identity_api.Platform.{Platform}
use identity_api.Platform.Schema.{Stmt}

-- `ctx.Value(txKey)`: nothing, or the transaction. The key is private to the package and only
-- `beginTxContext` sets it, so the panic on a value of another type cannot happen.
pub data Ctx : Type 0 where
  background with_tx : Ctx

unfoldable pub get_context_tx : Ctx → Result (Unit {0})
get_context_tx with_tx = ok tt
get_context_tx background = err missing_context_tx

module _ (p : Platform) where
  unfoldable pub begin_tx_context : Exec p.World Ctx
  begin_tx_context w = finish (p.begin w).0
    where
      finish : Result (Unit {0}) → Result Ctx × p.World
      finish (ok _) = (ok with_tx, (p.begin w).1)
      finish (err e) = (err e, (p.begin w).1)

  unfoldable pub commit_context_tx : Ctx → Exec p.World (Unit {0})
  commit_context_tx with_tx w = p.commit w
  commit_context_tx background w = (err missing_context_tx, w)

  unfoldable pub rollback_context_tx : Ctx → Exec p.World (Unit {0})
  rollback_context_tx with_tx w = p.rollback w
  rollback_context_tx background w = (err missing_context_tx, w)

  -- `QueryContext` and the loop on `rows.Next`. No listing asks for rows.Err: rows that break off are
  -- taken for all.
  unfoldable pub next_rows : {A : Type 0} → String → Stmt (List A) → Exec p.World (List A)
  next_rows clause st = do read ← p.query_rows clause st; pure read.0

  -- The switch on `getContextTx`: by the transaction if there is one, by the pool if not.
  unfoldable pub query_row : {A : Type 0} → Ctx → Stmt A → Exec p.World A
  query_row with_tx st w = p.exec st w
  query_row background st w = p.query "" st w

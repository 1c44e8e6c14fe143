-- ===== src/Sandbox/Secrets.antt =====
-- A hash of secrets for the sandbox, and a token.
use Prim.Native.String.{◌++◌}
use identity_api.Common.{ℕ, String}
use identity_api.Exec.{Exec, ok}
use identity_api.Sandbox.{World, sandbox}
use identity_api.Storage.Clients.{Hasher}

abbrev pub hasher : Hasher sandbox
hasher = record { hash = λ s w. (ok ("#" ++ s), w) }

abbrev pub draw : ℕ → String → Exec World String
draw length chars w = (ok "s3cret", w)

-- ===== src/Routes/Skips.antt =====
-- internal/routes/routes.go and cmd/serve.go: which paths need no authentication.
use identity_api.Common.{
  String, ◌≡◌, Bool, true, false, ◌||◌, List, [], ◌∷◌, ◌==◌, any, arith, if◌then◌else◌, eq_comm,
}

-- The routes that `Router.Routes` registers: method and path.
unfoldable pub router_routes : List (String × String)
router_routes =
    ("POST", "/token") ∷ ("GET", "/jwks.json") ∷ ("GET", "/.well-known/openid-configuration") ∷ []

-- The switch on the request's path.
unfoldable pub skip_no_auth_routes : String → Bool
skip_no_auth_routes path =
    if path == "/token"
    then true
    else if path == "/jwks.json"
    then true
    else path == "/.well-known/openid-configuration"

unfoldable pub multi_skipper : List (String → Bool) → String → Bool
multi_skipper [] path = false
multi_skipper (skipper ∷ skippers) path =
    let rest = multi_skipper skippers path in if skipper path then true else rest

-- `authMdwSkippers`; echox.SkipDefaultEndpoints is a parameter.
unfoldable pub skips_auth : (String → Bool) → String → Bool
unfolding multi_skipper skip_no_auth_routes
skips_auth skip_default_endpoints =
    multi_skipper (skip_default_endpoints ∷ skip_no_auth_routes ∷ [])

-- Authentication is skipped for exactly the server's default endpoints and the paths of the routes that
-- the router registers: no other route is open, and none of these needs a token.
pub skips_auth-router_routes :
    (default : String → Bool) (path : String)
    → skips_auth default path ≡ (default path || any (λ r. r.1 == path) router_routes)
unfolding skips_auth multi_skipper skip_no_auth_routes router_routes any
skips_auth-router_routes default path = ground (
  arith,
  eq_comm path "/token",
  eq_comm path "/jwks.json",
  eq_comm path "/.well-known/openid-configuration",
)

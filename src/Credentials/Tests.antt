-- ===== src/Credentials/Tests.antt =====
-- The theorem on the client credentials grant at a concrete client.
use identity_api.Common.{◌++◌, refl, String, ◌≡◌, true, contains, List, [], ◌∷◌, if◌then◌else◌}
use identity_api.Types.Errors.{invalid_request}
use identity_api.Exec.{Result, Exec, ok, err}
use identity_api.Sandbox.{World, sandbox}
use identity_api.Sandbox.Data.{start}
use identity_api.Exchange.{jwt_session}
use identity_api.Credentials.{Request, Config, Session, handle_token_endpoint_request}
use identity_api.Credentials.Granted.{
  granted_session, IsGranted, handle_token_endpoint_request-granted_session,
}

-- One audience may be asked for, among the client's.
abbrev one_of : List String → List String → Result (Unit {0})
one_of allowed [] = ok tt
one_of allowed (aud ∷ auds) =
    if contains aud allowed then one_of allowed auds else err invalid_request

abbrev settings : Config sandbox
settings = record {
  audience_strategy = one_of;
  effective_lifespan = λ client. 600;
  grant_audience = λ granted aud. if contains aud granted then granted else granted ++ aud ∷ [];
  signing_key_id = "key-1";
  now = λ w. (1000, w);
  issue_access_token = λ lifespan req w. (ok "token", w);
}

abbrev app_request : Request
app_request = record {
  client = record {
    id = "idntcli-app";
    owner_id = "tnt";
    name = "app";
    secret = "#s3cret";
    audience = "https://api" ∷ [];
  };
  resources = "https://api" ∷ [];
  grant_types = "client_credentials" ∷ [];
  session = jwt_session;
  granted = [];
}

handle_token_endpoint_request-granted_session_example :
    (one_of ("https://api" ∷ []) ("https://api" ∷ []) ≡ ok tt
      → jwt_session ≡ jwt_session
      → sandbox.valid_id "idntcli-app" ≡ true
      → (audience : List String) × ((handle_token_endpoint_request sandbox settings app_request
            start).0
          ≡ ok (granted_session settings app_request start, audience))
        × IsGranted [] ("https://api" ∷ []) audience)
    × ((out : Session × List String)
        → (handle_token_endpoint_request sandbox settings app_request start).0 ≡ ok out
        → (one_of ("https://api" ∷ []) ("https://api" ∷ []) ≡ ok tt)
          × (jwt_session ≡ jwt_session)
          × (sandbox.valid_id "idntcli-app" ≡ true))
handle_token_endpoint_request-granted_session_example =
    handle_token_endpoint_request-granted_session settings (λ granted aud. refl) app_request start

abbrev mint : Exec World String
mint w = (ok "token", w)

-- ===== src/Types/Clients.antt =====
-- internal/types/client.go: OAuth clients.
use identity_api.Common.{String, Bool, false, Option, none, List, map}
use identity_api.Types.{PrefixedId}
use identity_api.Types.Errors.{panic}
use identity_api.Exec.{Result, err}

pub record OAuthClient : Type 0 where
  pub id : PrefixedId
  pub owner_id : PrefixedId
  pub name : String
  pub secret : String
  pub audience : List String

-- v1.OAuthClient of pkg/api/v1.
pub record V1OAuthClient : Type 0 where
  pub id : PrefixedId
  pub name : String
  pub audience : List String
  pub secret : Option String

unfoldable pub to_v1_oauth_client : OAuthClient → V1OAuthClient
to_v1_oauth_client c = record { id = c.id; name = c.name; audience = c.audience; secret = none }

-- OAuthClients.ToV1OAuthClients, which never returns an error
unfoldable pub to_v1_oauth_clients : List OAuthClient → List V1OAuthClient
unfolding to_v1_oauth_client
to_v1_oauth_clients = map to_v1_oauth_client

-- What the client answers to fosite. Four of the methods are not implemented.
unfoldable pub get_audience : OAuthClient → List String
get_audience c = c.audience

unfoldable pub get_hashed_secret : OAuthClient → String
get_hashed_secret c = c.secret

unfoldable pub get_id : OAuthClient → String
get_id c = c.id

unfoldable pub is_public : OAuthClient → Bool
is_public c = false

-- GetGrantTypes, GetRedirectURIs, GetResponseTypes, GetScopes
unfoldable pub unimplemented : OAuthClient → Result (List String)
unimplemented c = err panic

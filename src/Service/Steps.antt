-- ===== src/Service/Steps.antt =====
-- The whole service: what any sequence of requests, token exchanges and seedings can lead to.
use identity_api.Common.{ℤ, String, ◌≡◌, List}
use identity_api.Types.{PrefixedId}
use identity_api.Exec.{Result}
use identity_api.Platform.{Platform, IsDocumented, View}
use identity_api.Storage.{background}
use identity_api.Storage.Seed.{SeedIssuer, seed_database}
use identity_api.Userinfo
use identity_api.Invariant.Listings.{kept-userinfo, kept-userinfo_groups}
use identity_api.Exchange
use identity_api.Exchange.Mapping.{Jwt}
use identity_api.Service.{Request, Outside, handle_request}
use identity_api.Service.Kept.{LeavesTables, kept-handle_request}
use identity_api.Invariant.{IsInvariant, AllowsMembers, same_view}
use identity_api.Invariant.Exchanges.{IsOutside, kept-exchange, kept-seed_database}
use identity_api.Constraints.Sound.{IsSound, IsSound-IsInvariant, IsSound-AllowsMembers}

module _ (p : Platform) (o : Outside p) (j : Jwt p) where
  -- One step: a request, a token exchange, a seeding of issuers or a request to a user info endpoint,
  -- whatever its outcome, or anything that leaves what is observed alone.
  pub data Step : p.World → p.World → Type 0 where
    request : {w : p.World} (r : Request) → Step w (handle_request p o r w).1
    exchange :
        {w : p.World} (r : Exchange.Request)
        → Step w (Exchange.handle_token_endpoint_request p j o.cel r w).1
    seed : {w : p.World} (issuers : List SeedIssuer) → Step w (seed_database p o.cel issuers w).1
    user_info :
        {w : p.World} (subject : PrefixedId) → Step w (Userinfo.handle p background subject w).1
    user_groups :
        {w : p.World} (atoi : String → Result ℤ) (subject cursor limit : String)
        → Step w (Userinfo.list_user_groups p o.codec o.as_of atoi subject cursor limit w).1
    elsewhere : {w v : p.World} → p.view v ≡ p.view w → Step w v

  pub data Reach (w : p.World) : p.World → Type 0 where
    here : Reach w w
    next : {v u : p.World} → Reach w v → Step v u → Reach w u

module _ {p : Platform} (d : IsDocumented p) {o : Outside p} (l : LeavesTables p o) {j : Jwt p}
    (apart : IsOutside p j) where
  Step-keeps :
      {I : View → Type 0}
      → IsInvariant I
      → AllowsMembers I
      → {w v : p.World} → Step p o j w v
      → I (p.view w)
      → I (p.view v)
  Step-keeps inv m (request r) = ((kept-handle_request d inv l r (λ _. m)).at _).holds
  Step-keeps inv m (exchange r) = ((kept-exchange d inv apart o.cel r).at _).holds
  Step-keeps inv m (seed issuers) = ((kept-seed_database d inv o.cel issuers).at _).holds
  Step-keeps inv m (user_info subject) = ((kept-userinfo d inv background subject).at _).holds
  Step-keeps inv m (user_groups atoi subject cursor limit) =
      ((kept-userinfo_groups d inv o.codec o.as_of atoi subject cursor limit).at _).holds
  Step-keeps {I = I} inv m (elsewhere e) = same_view I e

  -- The constraints of the migrations: ids, issuer URIs, subjects of an issuer, names of an owner's
  -- groups and memberships are unique, and users and memberships refer to issuers and groups that are
  -- there. If the committed tables and those of the open transaction satisfy them, they do so after any
  -- sequence of requests to the API and the user info endpoints, token exchanges and seedings,
  -- whatever fails in between.
  pub Reach-IsSound : {w v : p.World} → IsSound (p.view w) → Reach p o j w v → IsSound (p.view v)
  Reach-IsSound h here = h
  Reach-IsSound h (next r s) =
      Step-keeps IsSound-IsInvariant IsSound-AllowsMembers s (Reach-IsSound h r)

-- ===== src/Credentials/Granted.antt =====
-- When the client credentials grant succeeds, and what it grants.
use mathlib.Core.List.{append_assoc, append-nil}
use identity_api.Common.{
  ◌+◌, String, ◌≡◌, refl, ◌∙◌, true, List, [], ◌∷◌, ◌++◌, arith, inl, inr, Bool-cases, ◌||◌, false,
  contains, contains-append, sym, ap, subst, eq_iff, if◌then◌else◌,
}
use identity_api.Types.Users.{ClaimValue}
use identity_api.Exec.{ok, Result-cases}
use identity_api.Platform.{Platform}
use identity_api.Exchange.{jwt_session, no_session, other_session, claim_client_id}
use identity_api.Credentials.{
  Request, Config, Session, grant_audiences, handle_token_endpoint_request, is_jwt_session,
}

-- fosite's documented behaviour: an audience that is granted already is not granted again.
abbrev pub GrantsOnce : {p : Platform} → Config p → Type 0
GrantsOnce cfg =
    (granted : List String) (aud : String)
    → cfg.grant_audience granted aud
      ≡ (if contains aud granted then granted else granted ++ aud ∷ [])

-- Each is not among those before it.
abbrev pub AreFresh : List String → List String → Type 0
AreFresh granted [] = Unit
AreFresh granted (aud ∷ auds) = (contains aud granted ≡ false) × AreFresh (granted ++ aud ∷ []) auds

-- What was granted stays, in its place; behind it come, each once, the audiences asked for that were not
-- granted before.
abbrev pub IsGranted : List String → List String → List String → Type 0
IsGranted granted auds out =
    (new : List String) × (out ≡ granted ++ new)
    × ((aud : String) → contains aud out ≡ (contains aud granted || contains aud auds))
    × AreFresh granted new

grant_audiences-IsGranted :
    {p : Platform} (cfg : Config p)
    → GrantsOnce cfg
    → (granted auds : List String)
    → IsGranted granted auds (grant_audiences cfg.grant_audience granted auds)
unfolding grant_audiences contains
grant_audiences-IsGranted cfg once granted [] =
    ([], sym (append-nil granted), λ aud. ground arith, tt)
grant_audiences-IsGranted cfg once granted (a ∷ auds) = elim (Bool-cases (contains a granted)) [
  | inl had ↦
      let same : cfg.grant_audience granted a ≡ granted = ground (arith, once granted a, had) in
      let (new, out, all, fresh) = grant_audiences-IsGranted cfg once granted auds in
      subst (λ l. IsGranted granted (a ∷ auds) (grant_audiences cfg.grant_audience l auds))
        (sym same)
        (
          new,
          out,
          λ aud. ground (
            arith,
            all aud,
            had,
            eq_iff aud a,
            λ (e : aud ≡ a). ap (λ (x : String). contains x granted) e,
          ),
          fresh,
        )
  | inr has_not ↦
      let same : cfg.grant_audience granted a ≡ granted ++ a ∷ [] =
        ground (arith, once granted a, has_not) in
      let (new, out, all, fresh) = grant_audiences-IsGranted cfg once (granted ++ a ∷ []) auds in
      subst (λ l. IsGranted granted (a ∷ auds) (grant_audiences cfg.grant_audience l auds))
        (sym same)
        (
          a ∷ new,
          out ∙ append_assoc granted (a ∷ []) new,
          λ aud. ground (arith, all aud, contains-append aud granted (a ∷ [])),
          (has_not, fresh),
        )
]

is_jwt_session-eq-true : (s : _) → is_jwt_session s ≡ true → s ≡ jwt_session
unfolding is_jwt_session
is_jwt_session-eq-true jwt_session h = refl
is_jwt_session-eq-true no_session h = ground arith
is_jwt_session-eq-true other_session h = ground arith

module _ {p : Platform} (cfg : Config p) where
  -- The session that is granted: it names the client, is signed with the configured key, and lasts as
  -- long as the client's tokens do.
  abbrev pub granted_session : Request → p.World → Session
  granted_session req w = record {
    kid = cfg.signing_key_id;
    claims = (claim_client_id, ClaimValue.text req.client.id) ∷ [];
    expires_at = (cfg.now w).0 + cfg.effective_lifespan req.client;
    subject = req.client.id;
  }

  -- The grant succeeds exactly where the strategy allows the client the resources that are asked for,
  -- the session is fosite's JWT session, and the client's id is well-formed. It then names the client in
  -- the token, and the audiences of the request keep their places; behind them come the resources that
  -- were not among them, each once.
  pub handle_token_endpoint_request-granted_session :
      GrantsOnce cfg
      → (req : Request) (w : p.World)
      → (cfg.audience_strategy req.client.audience req.resources ≡ ok tt
          → req.session ≡ jwt_session
          → p.valid_id req.client.id ≡ true
          → (audience : List String) × ((handle_token_endpoint_request p cfg req w).0
              ≡ ok (granted_session req w, audience))
            × IsGranted req.granted req.resources audience)
        × ((out : Session × List String)
            → (handle_token_endpoint_request p cfg req w).0 ≡ ok out
            → (cfg.audience_strategy req.client.audience req.resources ≡ ok tt)
              × (req.session ≡ jwt_session)
              × (p.valid_id req.client.id ≡ true))
  unfolding handle_token_endpoint_request is_jwt_session
  handle_token_endpoint_request-granted_session once req w = (
    λ allowed jwt valid. (
      grant_audiences cfg.grant_audience req.granted req.resources,
      ground (arith, allowed, jwt, valid),
      grant_audiences-IsGranted cfg once req.granted req.resources,
    ),
    λ out h. elim (Result-cases (cfg.audience_strategy req.client.audience req.resources)) [
      | inr (e, r) ↦ ground (arith, r, h)
      | inl (u, r) ↦ elim (Bool-cases (is_jwt_session req.session)) [
        | inr e ↦ ground (arith, r, e, h)
        | inl jwt ↦ elim (Bool-cases (p.valid_id req.client.id)) [
          | inr e ↦ ground (arith, r, jwt, e, h)
          | inl valid ↦ (r, is_jwt_session-eq-true req.session jwt, valid)
        ]
      ]
    ],
  )

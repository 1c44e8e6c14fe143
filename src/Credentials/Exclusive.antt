-- ===== src/Credentials/Exclusive.antt =====
-- A request gets a token from one grant at most.
use identity_api.Common.{
  ℕ, String, ◌≡◌, refl, true, false, List, [], ◌∷◌, arith, inl, inr, eq_cases, Bool-cases, ap,
}
use identity_api.Types.Errors.{unknown_request}
use identity_api.Exec.{err, Exec}
use identity_api.Platform.{Platform}
use identity_api.Exchange.Response.{can_exchange, populate_response, grant_type_token_exchange}
use identity_api.Credentials.{
  Request, Config, populate_token_endpoint_response, can_handle_token_endpoint_request,
}

can_exchange-single :
    (grants : List String) → can_exchange grants ≡ true → grants ≡ grant_type_token_exchange ∷ []
unfolding can_exchange
can_exchange-single [] h = ground (arith, h)
can_exchange-single (grant ∷ []) h = elim (eq_cases grant grant_type_token_exchange) [
  | inl (e, _) ↦ ap (λ (g : String). g ∷ []) e
  | inr (_, e) ↦ ground (arith, h, e)
]
can_exchange-single (grant ∷ other ∷ others) h = ground (arith, h)

exclusive :
    (req : Request)
    → can_exchange req.grant_types ≡ true
    → can_handle_token_endpoint_request req ≡ false
unfolding can_handle_token_endpoint_request
exclusive req h = rw (can_exchange-single req.grant_types h) refl

module _ {p : Platform} (cfg : Config p) (generate : Exec p.World String) (lifespan : ℕ) where
  -- Where a request's grant is a token exchange, the client credentials grant answers unknown_request
  -- and does nothing, and where its grant is client credentials, so does the token exchange.
  pub grants_exclusive :
      (req : Request) (w : p.World)
      → (can_exchange req.grant_types ≡ true
          → populate_token_endpoint_response p cfg req w ≡ (err unknown_request, w))
        × (can_handle_token_endpoint_request req ≡ true
            → populate_response generate lifespan req.grant_types w ≡ (err unknown_request, w))
  unfolding populate_token_endpoint_response populate_response
  grants_exclusive req w = (
    λ h. ground (arith, exclusive req h),
    λ h. elim (Bool-cases (can_exchange req.grant_types)) [
      | inl e ↦ ground (arith, h, exclusive req e)
      | inr e ↦ ground (arith, e)
    ],
  )

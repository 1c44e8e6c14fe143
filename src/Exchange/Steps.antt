-- ===== src/Exchange/Steps.antt =====
-- The steps of a token exchange that has succeeded.
use identity_api.Common.{
  String, ◌≡◌, refl, true, false, ◌==◌, Option, none, some, arith, inl, inr, Option-cases, find?,
  find?_sound, eq_iff, Bool-cases,
}
use identity_api.Types.Users.{UserInfo, Claims, ClaimValue, claim}
use identity_api.Types.Errors.{Error, is_user_info_not_found}
use identity_api.Exec.{ok, Exec, map_err, ◌>>=◌, Result-cases}
use identity_api.Exec.Pure
use identity_api.Platform.{Platform, IsDocumented}
use identity_api.Platform.Outcomes.{exec_ok, exec_read}
use identity_api.Storage.{Ctx, with_tx, begin_tx_context, query_row, rollback_context_tx}
use identity_api.Storage.Users.{
  lookup_user_info_by_claims, parse_user_info_from_claims, parse_claim, checked_claim,
  store_user_info, found_or,
}
use identity_api.Storage.Users.Sql.{select_user_by_claims, without_id, by_claims}
use identity_api.Exchange.{
  Request, Session, populate_user_info, override_id, store_or_rollback, new_session, added_claims,
}
use identity_api.Exchange.Mapping.{JwtClaims, Jwt, Jwk, Token, Key, found, accepted}

-- What the code relies on of the JWT library: the claims of a token as a map have its issuer and
-- its subject, where they are not empty, reading the clock changes nothing, and a token is accepted
-- only if the key function has given, with the tables as they
-- were, a key for it under which its signature verifies.
pub record IsStandard (p : Platform) (j : Jwt p) : Type 0 where
  pub to_map_iss :
      (c : JwtClaims)
      → (c.issuer == "") ≡ false
      → claim "iss" (j.to_map c) ≡ some (ClaimValue.text c.issuer)
  pub to_map_iss_empty : (c : JwtClaims) → (c.issuer == "") ≡ true → claim "iss" (j.to_map c) ≡ none
  pub to_map_sub :
      (c : JwtClaims)
      → (c.subject == "") ≡ false
      → claim "sub" (j.to_map c) ≡ some (ClaimValue.text c.subject)
  pub to_map_sub_empty :
      (c : JwtClaims) → (c.subject == "") ≡ true → claim "sub" (j.to_map c) ≡ none
  pub parse_law :
      (text : String) (keyfunc : Token → p.World → Key × p.World) (w : p.World) (t : Token)
      → (j.parse text keyfunc w).0 ≡ accepted t
      → (key : Jwk) × (w2 : p.World) × (p.view w2 ≡ p.view w)
        × ((keyfunc t w2).0 ≡ found key)
        × (j.verifies text key ≡ true)
  pub expiry_view : (w : p.World) → p.view (j.expiry w).1 ≡ p.view w

module _ {p : Platform} (d : IsDocumented p) where
  pub begin_run :
      {A : Type 0} (g : Error → Error) (f : Ctx → Exec p.World A) (w : p.World) (a : A)
      → ((map_err g (begin_tx_context p) >>= f) w).0 ≡ ok a
      → ((map_err g (begin_tx_context p) >>= f) w ≡ f with_tx (p.begin w).1)
        × ((f with_tx (p.begin w).1).0 ≡ ok a)
        × (p.view (p.begin w).1 ≡ record (p.view w) { working = (p.view w).committed })
  unfolding begin_tx_context
  begin_run g f w a h = elim (Result-cases (p.begin w).0) [
    | inl (u, e) ↦ (ground (arith, e), ground (arith, e, h), ground (arith, e, d.begin_law w))
    | inr (x, e) ↦ ground (arith, e, h)
  ]

  pub lookup_user_info_by_claims-view :
      (iss sub : String) (w : p.World)
      → p.view (lookup_user_info_by_claims p with_tx iss sub w).1 ≡ p.view w
  unfolding lookup_user_info_by_claims select_user_by_claims query_row
  lookup_user_info_by_claims-view iss sub w =
      let st = select_user_by_claims iss sub in
      elim (Result-cases (p.exec st w).0) [
        | inl (row, e) ↦ ground (arith, e, exec_read d st w refl)
        | inr (f, e) ↦ ground (arith, e, exec_read d st w refl)
      ]

  lookup_user_info_by_claims-ok :
      (iss sub : String) (w : p.World) (u : UserInfo)
      → (lookup_user_info_by_claims p with_tx iss sub w).0 ≡ ok u
      → (u.issuer ≡ iss) × (u.subject ≡ sub)
  unfolding lookup_user_info_by_claims select_user_by_claims without_id query_row found_or
  lookup_user_info_by_claims-ok iss sub w u h =
      let st = select_user_by_claims iss sub in
      elim (Result-cases (p.exec st w).0) [
        | inl (row, e) ↦
            let t = (p.view w).working in
            let (answered, _) = exec_ok d st w row e in
            elim (Option-cases (find? (by_claims t.issuers iss sub) t.user_info)) [
              | inl none_found ↦ ground (arith, e, h, answered, none_found)
              | inr (user, one) ↦
                  let sound = find?_sound (by_claims t.issuers iss sub) t.user_info user one in
                  (
                    ground (arith, e, h, answered, one),
                    ground (arith, e, h, answered, one, sound, eq_iff user.sub sub),
                  )
            ]
        | inr (f, e) ↦ ground (arith, e)
      ]

  module _ {j : Jwt p} (standard : IsStandard p j) where
    claims_of_token :
        (c : JwtClaims) (u : UserInfo)
        → parse_user_info_from_claims (j.to_map c) ≡ ok u
        → (u.issuer ≡ c.issuer) × (u.subject ≡ c.subject)
    unfolding parse_user_info_from_claims parse_claim checked_claim
    claims_of_token c u h =
        let (iss, read_iss, h1) = Pure.unless_err-eq-ok _ (parse_claim (j.to_map c) "iss" true) h in
        let (sub, read_sub, h2) =
          Pure.unless_err-eq-ok _ (parse_claim (j.to_map c) "sub" true) h1 in
        let (name, _, h3) = Pure.unless_err-eq-ok _ (parse_claim (j.to_map c) "name" false) h2 in
        let (email, _, h4) = Pure.unless_err-eq-ok _ (parse_claim (j.to_map c) "email" false) h3 in
        (
          elim (Bool-cases (c.issuer == "")) [
            | inl e ↦ ground (arith, standard.to_map_iss_empty c e, read_iss, h4)
            | inr e ↦ ground (arith, standard.to_map_iss c e, read_iss, h4)
          ],
          elim (Bool-cases (c.subject == "")) [
            | inl e ↦ ground (arith, standard.to_map_sub_empty c e, read_sub, h4)
            | inr e ↦ ground (arith, standard.to_map_sub c e, read_sub, h4)
          ],
        )

    -- A user that was found or made from the claims has their issuer and their subject.
    pub populate_user_info_ok :
        (c : JwtClaims) (w : p.World) (u : UserInfo)
        → (populate_user_info p j with_tx c w).0 ≡ ok u
        → (u.issuer ≡ c.issuer)
          × (u.subject ≡ c.subject)
          × (p.view (populate_user_info p j with_tx c w).1 ≡ p.view w)
    unfolding populate_user_info
    populate_user_info_ok c w u h =
        let same = lookup_user_info_by_claims-view c.issuer c.subject w in
        elim (Result-cases (lookup_user_info_by_claims p with_tx c.issuer c.subject w).0) [
          | inl (row, e) ↦
              let of_row = lookup_user_info_by_claims-ok c.issuer c.subject w row e in
              (ground (arith, e, h, of_row), ground (arith, e, h, of_row), ground (arith, e, same))
          | inr (f, e) ↦ elim (Bool-cases (is_user_info_not_found f)) [
            | inl missing ↦
                let made =
                  λ (k : parse_user_info_from_claims (j.to_map c) ≡ ok u). claims_of_token c u k in
                let computed : parse_user_info_from_claims (j.to_map c) ≡ ok u =
                  ground (arith, e, h, missing) in
                ((made computed).0, (made computed).1, ground (arith, e, h, missing, same))
            | inr other ↦ ground (arith, e, h, other)
          ]
        ]

pub override_id_ok :
    (p : Platform) (j : Jwt p) (o : Option ClaimValue) (u v : UserInfo)
    → override_id p j o u ≡ ok v
    → (v.issuer ≡ u.issuer) × (v.subject ≡ u.subject)
unfolding override_id
override_id_ok p j none u v h = ground (arith, h)
override_id_ok p j (some ClaimValue.null) u v h = ground (arith, h)
override_id_ok p j (some (ClaimValue.text s)) u v h = ground (arith, h)
override_id_ok p j (some (ClaimValue.truth b)) u v h = ground (arith, h)
override_id_ok p j (some ClaimValue.other) u v h = ground (arith, h)

module _ {p : Platform} (j : Jwt p) where
  pub store_or_rollback_ok :
      (ctx : Ctx) (u v : UserInfo) (w : p.World)
      → (store_or_rollback p j ctx u w).0 ≡ ok v
      → ((store_user_info p ctx u w).0 ≡ ok v)
        × ((store_or_rollback p j ctx u w).1 ≡ (store_user_info p ctx u w).1)
  unfolding store_or_rollback
  store_or_rollback_ok ctx u v w h = elim (Result-cases (store_user_info p ctx u w).0) [
    | inl (a, e) ↦ (ground (arith, e, h), ground (arith, e, h))
    | inr (f, e) ↦ elim (Result-cases (rollback_context_tx p ctx (store_user_info p ctx u w).1).0) [
      | inl (a, r) ↦ ground (arith, e, r, h)
      | inr (g, r) ↦ ground (arith, e, r, h)
    ]
  ]

  pub new_session_ok :
      (standard : IsStandard p j) (req : Request) (c : JwtClaims) (mapped : Claims) (u : UserInfo)
      (s : Session) (w : p.World)
      → (new_session p j req c mapped u w).0 ≡ ok s
      → (s.claims ≡ record {
        subject = u.id;
        issuer = j.access_token_issuer;
        extra = added_claims mapped req.client_id;
      })
        × (s.subject ≡ c.subject)
        × (s.kid ≡ j.signing_kid)
        × (p.view (new_session p j req c mapped u w).1 ≡ p.view w)
  unfolding new_session
  new_session_ok standard req c mapped u s w h =
      elim (Result-cases (j.join_path j.access_token_issuer "userinfo")) [
        | inl (a, e) ↦ (
          ground (arith, e, h),
          ground (arith, e, h),
          ground (arith, e, h),
          ground (arith, e, h, standard.expiry_view w),
        )
        | inr (f, e) ↦ ground (arith, e, h)
      ]

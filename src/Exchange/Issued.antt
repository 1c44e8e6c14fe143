-- ===== src/Exchange/Issued.antt =====
-- A token is issued in the name of a stored user.
use identity_api.Common.{
  String, ◌≡◌, ◌≢◌, refl, sym, not, ◌==◌, keep, eq_iff, eq_refl, if◌then◌else◌, Option, none, some,
  arith, ◌∙◌, ap, subst, ◌⊎◌, inl, inr, ◌∷◌, [], ◌++◌,
}
use identity_api.Types.{PrefixedId}
use identity_api.Types.Users.{UserInfo, Claims, ClaimValue, claim}
use identity_api.Types.Issuers.{Cel}
use identity_api.Exec.{Result, ok, lift, bind_run, map_err_run}
use identity_api.Platform.{Platform, IsDocumented}
use identity_api.Platform.Schema.{UserRow, Tables}
use identity_api.Storage.{with_tx, commit_context_tx}
use identity_api.Storage.Users.{store_user_info}
use identity_api.Storage.Users.Stored.{user_at, issuer_id_of, store_user_info-IsStored}
use identity_api.Exchange.{
  Request, Session, with_mapped_subject, populate_user_info, override_id, sub_override,
  store_or_rollback, new_session, subject_of_request, handle_token_endpoint_request, added_claims,
}
use identity_api.Exchange.Mapping.{JwtClaims, Jwt}
use identity_api.Exchange.Steps.{
  IsStandard, begin_run, populate_user_info_ok, override_id_ok, store_or_rollback_ok,
  new_session_ok,
}

-- The subject that is mapped: the mapped `sub`, where it is a text, and else the token's own subject.
abbrev pub IsMappedSubject : Claims → String → String → Type 0
IsMappedSubject mapped own sub =
    ((s : String) → claim "sub" mapped ≡ some (ClaimValue.text s) → sub ≡ s)
    × (((s : String) → claim "sub" mapped ≢ some (ClaimValue.text s)) → sub ≡ own)

-- The claims of the new token besides: the client's id where the request has one, the mapped claims
-- under their names, and never the override.
abbrev pub AddsClaims : Claims → String → Claims → Type 0
AddsClaims mapped client_id extra =
    (client_id ≢ "" → claim "client_id" extra ≡ some (ClaimValue.text client_id))
    × (claim "identity-api.infratographer.com/sub" extra ≡ none)
    × ((key : String)
        → key ≢ "client_id"
        → key ≢ "identity-api.infratographer.com/sub"
        → claim key extra ≡ claim key mapped)

claim-keep :
    (key : String) (mapped : Claims)
    → claim key (keep (λ kv. not (kv.0 == sub_override)) mapped)
      ≡ (if key == sub_override then none else claim key mapped)
unfolding claim keep
claim-keep key [] = ground arith
claim-keep key ((k, v) ∷ mapped) =
    ground
      (arith, claim-keep key mapped, eq_iff k key, eq_iff k sub_override, eq_iff key sub_override)

added_claims-AddsClaims :
    (mapped : Claims) (client_id : String)
    → AddsClaims mapped client_id (added_claims mapped client_id)
unfolding added_claims claim
added_claims-AddsClaims mapped client_id = (
  λ given. ground (arith, given, eq_iff client_id "", eq_refl "client_id"),
  ground (arith, claim-keep sub_override mapped, eq_refl sub_override),
  λ key other kept.
      ground (
        arith,
        claim-keep key mapped,
        eq_iff "client_id" key,
        eq_iff key sub_override,
        other,
        kept,
      ),
)

-- A value is a text or none.
text_or_not :
    (v : Option ClaimValue)
    → ((s : String) × (v ≡ some (ClaimValue.text s)))
      ⊎ (((s : String) → v ≢ some (ClaimValue.text s))
          × ((own : JwtClaims) → with_mapped_subject own v ≡ own))
unfolding with_mapped_subject
text_or_not none = inr (λ s. ground arith, λ own. refl)
text_or_not (some (ClaimValue.text s)) = inl (s, refl)
text_or_not (some (ClaimValue.truth b)) = inr (λ s. ground arith, λ own. refl)
text_or_not (some ClaimValue.null) = inr (λ s. ground arith, λ own. refl)
text_or_not (some ClaimValue.other) = inr (λ s. ground arith, λ own. refl)

with_mapped_subject-IsMappedSubject :
    (own : JwtClaims) (mapped : Claims)
    → IsMappedSubject mapped own.subject (with_mapped_subject own (claim "sub" mapped)).subject
unfolding with_mapped_subject
with_mapped_subject-IsMappedSubject own mapped = elim (text_or_not (claim "sub" mapped)) [
  | inl (t, e) ↦ (λ s h. ground (arith, e, h), λ h. ground (arith, e, h t))
  | inr (other, same) ↦ (λ s h. ground (arith, other s, h), λ h. ground (arith, same own))
]

with_mapped_subject-issuer :
    (own : JwtClaims) (v : Option ClaimValue) → (with_mapped_subject own v).issuer ≡ own.issuer
unfolding with_mapped_subject
with_mapped_subject-issuer own none = refl
with_mapped_subject-issuer own (some (ClaimValue.text s)) = refl
with_mapped_subject-issuer own (some (ClaimValue.truth b)) = refl
with_mapped_subject-issuer own (some ClaimValue.null) = refl
with_mapped_subject-issuer own (some ClaimValue.other) = refl

IsMappedSubject-eq :
    (own : JwtClaims) (mapped : Claims) (sub : String)
    → IsMappedSubject mapped own.subject sub
    → (with_mapped_subject own (claim "sub" mapped)).subject ≡ sub
unfolding with_mapped_subject
IsMappedSubject-eq own mapped sub (given, missing) = elim (text_or_not (claim "sub" mapped)) [
  | inl (t, e) ↦ ground (arith, e, given t e)
  | inr (other, same) ↦ ground (arith, same own, missing other)
]

-- The token names the user with the issuer and the mapped subject of the subject token: a user that
-- the tables, as they were committed before, have, or that has been added to them and is committed.
abbrev pub IsIssued :
    (p : Platform) (j : Jwt p)
    → Request
    → JwtClaims
    → Claims
    → String
    → String
    → Session
    → Tables
    → Tables
    → Type 0
IsIssued p j req subject mapped iss sub s before after =
    (iss_id : PrefixedId) × (row : UserRow) × (issuer_id_of iss before ≡ some iss_id)
    × (user_at iss_id sub after ≡ some row)
    × ((after ≡ before)
        ⊎ ((user_at iss_id sub before ≡ none)
            × (after ≡ record before { user_info = before.user_info ++ row ∷ [] })))
    × (s.claims.subject ≡ row.id)
    × (s.claims.issuer ≡ j.access_token_issuer)
    × AddsClaims mapped req.client_id s.claims.extra
    × (s.subject ≡ subject.subject)

module _ {p : Platform} (d : IsDocumented p) {j : Jwt p} (standard : IsStandard p j) where
  -- From the stored user on: the commit and the session.
  issued :
      (req : Request) (subject : JwtClaims) (mapped : Claims) (s : Session)
      (asked stored : UserInfo) (w0 w3 w4 : p.World) (iss sub : String)
      (final : Result Session × p.World)
      → (asked.issuer ≡ iss) × (asked.subject ≡ sub)
      → p.view w3 ≡ record (p.view w0) { working = (p.view w0).committed }
      → (store_user_info p with_tx asked w3).0 ≡ ok stored
      → w4 ≡ (store_user_info p with_tx asked w3).1
      → (p.commit w4).0 ≡ ok tt
      → final ≡ new_session p j req subject mapped stored (p.commit w4).1
      → (new_session p j req subject mapped stored (p.commit w4).1).0 ≡ ok s
      → IsIssued p j req subject mapped iss sub s (p.view w0).committed (p.view final.1).committed
  issued req subject mapped s asked stored w0 w3 w4 iss sub final same start stores at4 commits at6
        ends =
      let (iss_id, row, known, stays, out, how) =
        store_user_info-IsStored d asked stored w3 stores in
      let committed = d.commit_law w4 commits in
      let (claims, subject_is, _, view) =
        new_session_ok j standard req subject mapped stored s (p.commit w4).1 ends in
      (
        iss_id,
        row,
        ground (arith, known, start, same),
        ground (arith, stays, view, committed, same, at4, at6),
        elim how [
          | inl (_, kept) ↦ inl (ground (arith, kept, view, committed, start, at4, at6))
          | inr (fresh, _, _, _, added) ↦ inr (
            ground (arith, fresh, start, same),
            ground (arith, added, view, committed, start, at4, at6),
          )
        ],
        ground (arith, claims, out),
        ground (arith, claims),
        subst (λ (x : JwtClaims). AddsClaims mapped req.client_id x.extra) (sym claims)
            (added_claims-AddsClaims mapped req.client_id),
        subject_is,
      )

  -- A successful exchange, by the mapped subject as the code computes it.
  exchange-IsIssued :
      (c : Cel) (req : Request) (s : Session) (w : p.World)
      → (handle_token_endpoint_request p j c req w).0 ≡ ok s
      → (subject : JwtClaims) × (mapped : Claims) × ((subject_of_request p j c req w).0
          ≡ ok (subject, mapped))
        × IsIssued p j req subject mapped
            (with_mapped_subject subject (claim "sub" mapped)).issuer
            (with_mapped_subject subject (claim "sub" mapped)).subject
            s
            (p.view (subject_of_request p j c req w).1).committed
            (p.view (handle_token_endpoint_request p j c req w).1).committed
  unfolding handle_token_endpoint_request commit_context_tx
  exchange-IsIssued c req s w h =
      let w1 = (subject_of_request p j c req w).1 in
      let ((subject, mapped), e1, r1, h1) = bind_run (subject_of_request p j c req) _ w s h in
      let (r2, h2, start) = begin_run d _ _ w1 s h1 in
      let w2 = (p.begin w1).1 in
      let claims = with_mapped_subject subject (claim "sub" mapped) in
      let (found, e3, r3, h3) = map_err_run _ (populate_user_info p j with_tx claims) _ w2 s h2 in
      let w3 = (populate_user_info p j with_tx claims w2).1 in
      let override = claim sub_override mapped in
      let (asked, e4, r4, h4) = bind_run (lift (override_id p j override found)) _ w3 s h3 in
      let (stored, e5, r5, h5) = bind_run (store_or_rollback p j with_tx asked) _ w3 s h4 in
      let (stores, same_world) = store_or_rollback_ok j with_tx asked stored w3 e5 in
      let w4 = (store_user_info p with_tx asked w3).1 in
      let (_, e6, r6, h6) =
        map_err_run _ p.commit _ (store_or_rollback p j with_tx asked w3).1 s h5 in
      let (iss, sub, view) = populate_user_info_ok d standard claims w2 found e3 in
      let (iss4, sub4) = override_id_ok p j override found asked e4 in
      (
        subject,
        mapped,
        e1,
        issued req subject mapped s asked stored w1 w3 (store_or_rollback p j with_tx asked w3).1
            claims.issuer claims.subject (handle_token_endpoint_request p j c req w)
            (iss4 ∙ iss, sub4 ∙ sub) (view ∙ start) stores same_world e6
            (r1 ∙ r2 ∙ r3 ∙ r4 ∙ r5 ∙ r6) h6,
      )

  -- Two exchanges of tokens of the same issuer and mapped subject, the second against the tables that
  -- the first has committed, give the same subject, and the second changes no table.
  again_from_session :
      (req req2 : Request) (c c2 : JwtClaims) (m m2 : Claims) (s s2 : Session) (iss sub : String)
      (t0 t1 t2 : Tables)
      → IsIssued p j req c m iss sub s t0 t1
      → IsIssued p j req2 c2 m2 iss sub s2 t1 t2
      → (s2.claims.subject ≡ s.claims.subject) × (t2 ≡ t1)
  again_from_session req req2 c c2 m m2 s s2 iss sub t0 t1 t2 first second =
      let (i1, row1, known1, at1, how1, claims1, _, _, _) = first in
      let (i2, row2, known2, at2, how2, claims2, _, _, _) = second in
      let uris : issuer_id_of iss t1 ≡ issuer_id_of iss t0 = elim how1 [
        | inl e ↦ ap (λ (t : Tables). issuer_id_of iss t) e
        | inr (_, e) ↦ ap (λ (t : Tables). issuer_id_of iss t) e
      ] in
      let ids : i2 ≡ i1 = ground (arith, known1, known2, uris) in
      let here : user_at i2 sub t1 ≡ some row1 = ap (λ (i : String). user_at i sub t1) ids ∙ at1 in
      elim how2 [
        | inl e ↦ (
          ground (arith, ap (λ (t : Tables). user_at i2 sub t) e, here, at2, claims1, claims2),
          e,
        )
        | inr (fresh, _) ↦ ground (arith, fresh, here)
      ]

  of_claims :
      (c : Cel) (req : Request) (s : Session) (w : p.World) (subject : JwtClaims) (mapped : Claims)
      → (handle_token_endpoint_request p j c req w).0 ≡ ok s
      → (subject_of_request p j c req w).0 ≡ ok (subject, mapped)
      → IsIssued p j req subject mapped
          (with_mapped_subject subject (claim "sub" mapped)).issuer
          (with_mapped_subject subject (claim "sub" mapped)).subject
          s
          (p.view (subject_of_request p j c req w).1).committed
          (p.view (handle_token_endpoint_request p j c req w).1).committed
  of_claims c req s w subject mapped h e =
      let (subject2, mapped2, e2, issued2) = exchange-IsIssued c req s w h in
      let same : (subject2, mapped2) ≡ (subject, mapped) = ground (arith, e, e2) in
      let before = (p.view (subject_of_request p j c req w).1).committed in
      let after = (p.view (handle_token_endpoint_request p j c req w).1).committed in
      subst
        (λ (x : JwtClaims × Claims).
          IsIssued p j req x.0 x.1 (with_mapped_subject x.0 (claim "sub" x.1)).issuer
            (with_mapped_subject x.0 (claim "sub" x.1)).subject s before after)
        same issued2

  -- When an exchange succeeds, the claims of its subject token were read and mapped. The user with the
  -- token's issuer and mapped subject (the mapped `sub` where it is a text, else the token's subject) is
  -- in the committed tables, and is the subject of the new token: it was committed before, or its row is
  -- the only change of the exchange. The new token has the configured issuer and, besides, the client id
  -- and the mapped claims without the override.
  pub handle_token_endpoint_request-IsIssued :
      (c : Cel) (req : Request) (s : Session) (w : p.World)
      → (handle_token_endpoint_request p j c req w).0 ≡ ok s
      → (subject : JwtClaims) × (mapped : Claims) × (sub : String) × ((subject_of_request p j c req
            w).0
          ≡ ok (subject, mapped))
        × IsMappedSubject mapped subject.subject sub
        × IsIssued p j req subject mapped subject.issuer sub s
            (p.view (subject_of_request p j c req w).1).committed
            (p.view (handle_token_endpoint_request p j c req w).1).committed
  handle_token_endpoint_request-IsIssued c req s w h =
      let (subject, mapped, e, issued_as) = exchange-IsIssued c req s w h in
      let sub = (with_mapped_subject subject (claim "sub" mapped)).subject in
      (
        subject,
        mapped,
        sub,
        e,
        with_mapped_subject-IsMappedSubject subject mapped,
        subst
            (λ (iss : String).
              IsIssued p j req subject mapped iss sub s
                (p.view (subject_of_request p j c req w).1).committed
                (p.view (handle_token_endpoint_request p j c req w).1).committed)
            (with_mapped_subject-issuer subject (claim "sub" mapped)) issued_as,
      )

  -- A later exchange of a token with the same issuer and the same mapped subject, against the tables
  -- that the first has committed, names the same subject, whatever the other claims and the override
  -- are, and changes no committed table.
  pub handle_token_endpoint_request_again :
      (c : Cel) (req req2 : Request) (s s2 : Session) (w w2 : p.World)
      (subject subject2 : JwtClaims) (mapped mapped2 : Claims)
      → (handle_token_endpoint_request p j c req w).0 ≡ ok s
      → (subject_of_request p j c req w).0 ≡ ok (subject, mapped)
      → (handle_token_endpoint_request p j c req2 w2).0 ≡ ok s2
      → (subject_of_request p j c req2 w2).0 ≡ ok (subject2, mapped2)
      → subject2.issuer ≡ subject.issuer
      → (sub : String) → IsMappedSubject mapped subject.subject sub
      → IsMappedSubject mapped2 subject2.subject sub
      → let between = (p.view (handle_token_endpoint_request p j c req w).1).committed in
        (p.view (subject_of_request p j c req2 w2).1).committed ≡ between
        → (s2.claims.subject ≡ s.claims.subject)
          × ((p.view (handle_token_endpoint_request p j c req2 w2).1).committed ≡ between)
  handle_token_endpoint_request_again c req req2 s s2 w w2 subject subject2 mapped mapped2 h e h2 e2
        same_iss sub is_sub is_sub2 start =
      let first = of_claims c req s w subject mapped h e in
      let second = of_claims c req2 s2 w2 subject2 mapped2 h2 e2 in
      let after = (p.view (handle_token_endpoint_request p j c req2 w2).1).committed in
      again_from_session req req2 subject subject2 mapped mapped2 s s2 _ _ _ _ after first (
        subst
          (λ (x : String × String × Tables).
            IsIssued p j req2 subject2 mapped2 x.0 x.1 s2 x.2 after)
          (ground (
            arith,
            with_mapped_subject-issuer subject (claim "sub" mapped),
            with_mapped_subject-issuer subject2 (claim "sub" mapped2),
            IsMappedSubject-eq subject mapped sub is_sub,
            IsMappedSubject-eq subject2 mapped2 sub is_sub2,
            same_iss,
            start,
          ))
          second)

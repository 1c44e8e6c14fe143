-- ===== src/Routes/Token.antt =====
-- internal/routes/exchange.go and internal/auditx/middleware.go: the token endpoint, and what is audited
-- of it. `Provider` is fosite's OAuth2Provider.
use identity_api.Common.{ℕ, String, ◌≡◌, refl, Option, none, some, List, [], ◌∷◌}
use identity_api.Routes.{Outcome, get_outcome}

abbrev pub Subject : Type 0
Subject = List (String × String)

-- What auditx keeps in the echo.Context, under its two keys.
pub record AuditContext : Type 0 where
  pub subject : Option Subject
  pub outcome : Option Outcome

unfoldable pub set_subject : AuditContext → Subject → AuditContext
set_subject c subject = record c { subject = some subject }

unfoldable pub set_outcome : AuditContext → Outcome → AuditContext
set_outcome c outcome = record c { outcome = some outcome }

unfoldable pub get_subject : AuditContext → Option Subject
get_subject c = c.subject

-- `default` is echoaudit.GetOutcomeDefault of the request.
unfoldable pub audited_outcome : Outcome → AuditContext → Outcome
audited_outcome default c = elim c.outcome [ none ↦ default | some outcome ↦ outcome ]

-- An error of the provider: the status of its RFC 6749 error, if it has one, and the subject of the
-- types.ErrorInvalidTokenRequest that it wraps, if it does.
pub record TokenError : Type 0 where
  pub status : Option ℕ
  pub subject : Option Subject

-- A request that is accepted comes with the session's claims, if there are any: their subject.
pub data Accepted (R : Type 0) : Type 0 where
  accepted : R → Option String → Accepted R
  refused : TokenError → Accepted R

pub data Answered (A : Type 0) : Type 0 where
  answered : A → Answered A
  unanswered : TokenError → Answered A

pub record Provider (W : Type 0) : Type 1 where
  pub AccessRequest : Type 0
  pub AccessResponse : Type 0
  pub new_access_request : W → Accepted AccessRequest × W
  pub new_access_response : AccessRequest → W → Answered AccessResponse × W

-- What the client is sent; the handler panics where the session has no claims.
pub data Written (A : Type 0) : Type 0 where
  wrote_error : TokenError → Written A
  wrote_response : A → Written A
  panicked : Written A

-- `errors.As(err, &tokErr)`
unfoldable pub set_subject_of : Option Subject → AuditContext → AuditContext
unfolding set_subject
set_subject_of none c = c
set_subject_of (some subject) c = set_subject c subject

unfoldable pub set_context_from_error : AuditContext → TokenError → AuditContext
unfolding set_outcome get_outcome set_subject_of
set_context_from_error c e = set_subject_of e.subject (set_outcome c (get_outcome e.status))

module _ {W : Type 0} (provider : Provider W) where
  abbrev pub Handled : Type 0
  Handled = (Written provider.AccessResponse × AuditContext) × W

  unfoldable pub after_response : AuditContext → Answered provider.AccessResponse → W → Handled
  after_response c (answered response) w = ((wrote_response response, c), w)
  after_response c (unanswered e) w = ((wrote_error e, c), w)

  unfoldable pub after_request : AuditContext → Accepted provider.AccessRequest → W → Handled
  unfolding set_context_from_error after_response set_subject
  after_request c (refused e) w = ((wrote_error e, set_context_from_error c e), w)
  after_request c (accepted request none) w = ((panicked, c), w)
  after_request c (accepted request (some subject)) w =
      let out = provider.new_access_response request w in
      after_response (set_subject c (("subject", subject) ∷ [])) out.0 out.1

  unfoldable pub handle_token : AuditContext → W → Handled
  unfolding after_request
  handle_token c w = let out = provider.new_access_request w in after_request c out.0 out.1

set_subject_of-outcome :
    (subject : Option Subject) (outcome default : Outcome)
    → audited_outcome default
        (set_subject_of subject (record { subject = none; outcome = some outcome }))
      ≡ outcome
unfolding audited_outcome set_subject_of set_subject
set_subject_of-outcome none outcome default = refl
set_subject_of-outcome (some s) outcome default = refl

set_subject_of-subject :
    (subject : Option Subject) (outcome : Option Outcome)
    → get_subject (set_subject_of subject (record { subject = none; outcome = outcome })) ≡ subject
unfolding get_subject set_subject_of set_subject
set_subject_of-subject none outcome = refl
set_subject_of-subject (some s) outcome = refl

-- The context of a request that has just come in.
abbrev pub fresh : AuditContext
fresh = record { subject = none; outcome = none }

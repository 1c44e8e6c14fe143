-- ===== src/Exchange/Tests.antt =====
-- The theorems on the token exchange at concrete inputs.
use identity_api.Common.{arith, String, ◌≡◌, refl, [], ◌∷◌, any, keep, find?}
use identity_api.Types.Users.{Claims, ClaimValue, claim}
use identity_api.Types.Issuers.{each}
use identity_api.Exec.{ok}
use identity_api.Sandbox.{sandbox, sandbox-IsDocumented}
use identity_api.Sandbox.Data.{start}
use identity_api.Sandbox.Tokens.{
  tokens-IsOutside, tokens, expressions, tokens-IsStandard, other_claims,
}
use identity_api.Storage.{begin_tx_context, commit_context_tx, query_row, get_context_tx}
use identity_api.Storage.Issuers.{get_issuer_by_uri, scan_issuer, scan_mapping, scan_conditions}
use identity_api.Storage.Issuers.Sql.{select_issuer_by_uri}
use identity_api.Storage.Users.{
  lookup_user_info_by_claims, store_user_info, found_or, new_user_id, generate_subject_id,
}
use identity_api.Storage.Users.Sql.{
  select_user_by_claims, select_issuer_id, upsert_user, without_id, id_of,
}
use identity_api.Exchange.{
  Request, Session, jwt_session, with_mapped_subject, added_claims, populate_user_info, override_id,
  store_or_rollback, is_other, new_session, subject_of_request, handle_token_endpoint_request,
  token_type_jwt,
}
use identity_api.Exchange.Mapping.{JwtClaims, map_claims, eval_condition, eval_conditions}
use identity_api.Exchange.Keys.{
  signature_key, get_issuer_jwks_uri, from_keys, from_uri, find_matching_key, parse_outcome,
  validate_jwt, get_subject_claims,
}
use identity_api.Exchange.Issued.{
  IsIssued, IsMappedSubject, handle_token_endpoint_request-IsIssued,
  handle_token_endpoint_request_again,
}
use identity_api.Exchange.Verified.{IsChecked, subject_of_request-IsChecked}

abbrev request : Request
request = record {
  subject_token = "ann-token";
  subject_token_type = token_type_jwt;
  actor_token = "";
  client_id = "app";
  session = jwt_session;
}

abbrev ann : JwtClaims
ann = record { subject = "ann"; issuer = "https://idp"; extra = [] }

abbrev ann_session : Session
ann_session = record {
  kid = "s1";
  claims = record {
    subject = "usr-1";
    issuer = "https://id";
    extra = ("client_id", ClaimValue.text "app") ∷ [];
  };
  expires_at = 60;
  subject = "ann";
  audience = "https://id";
}

reads : (subject_of_request sandbox tokens expressions request start).0 ≡ ok (ann, [])
unfolding subject_of_request get_subject_claims validate_jwt parse_outcome find_matching_key
    from_uri get_issuer_jwks_uri from_keys signature_key get_issuer_by_uri scan_issuer scan_mapping
    scan_conditions select_issuer_by_uri eval_conditions eval_condition map_claims each other_claims
    claim find? keep query_row
reads = refl

exchanges :
    (handle_token_endpoint_request sandbox tokens expressions request start).0 ≡ ok ann_session
unfolding handle_token_endpoint_request subject_of_request get_subject_claims validate_jwt
    parse_outcome find_matching_key from_uri get_issuer_jwks_uri from_keys signature_key
    get_issuer_by_uri scan_issuer scan_mapping scan_conditions select_issuer_by_uri eval_conditions
    eval_condition map_claims each other_claims claim find? any keep query_row begin_tx_context
    populate_user_info lookup_user_info_by_claims select_user_by_claims without_id found_or
    with_mapped_subject override_id store_or_rollback store_user_info get_context_tx
    select_issuer_id id_of new_user_id generate_subject_id upsert_user commit_context_tx new_session
    is_other added_claims
exchanges = refl

handle_token_endpoint_request-IsIssued_example :
    (subject : JwtClaims) × (mapped : Claims) × (sub : String) × ((subject_of_request sandbox tokens
        expressions request start).0
      ≡ ok (subject, mapped))
    × IsMappedSubject mapped subject.subject sub
    × IsIssued sandbox tokens request subject mapped subject.issuer sub ann_session
        (subject_of_request sandbox tokens expressions request start).1.view.committed
        (handle_token_endpoint_request sandbox tokens expressions request start).1.view.committed
handle_token_endpoint_request-IsIssued_example =
    handle_token_endpoint_request-IsIssued sandbox-IsDocumented tokens-IsStandard expressions
      request ann_session start exchanges

unchanged :
    (subject_of_request sandbox tokens expressions request start).1.view.committed
    ≡ (handle_token_endpoint_request sandbox tokens expressions request start).1.view.committed
unfolding handle_token_endpoint_request subject_of_request get_subject_claims validate_jwt
    parse_outcome find_matching_key from_uri get_issuer_jwks_uri from_keys signature_key
    get_issuer_by_uri scan_issuer scan_mapping scan_conditions select_issuer_by_uri eval_conditions
    eval_condition map_claims each other_claims claim find? any keep query_row begin_tx_context
    populate_user_info lookup_user_info_by_claims select_user_by_claims without_id found_or
    with_mapped_subject override_id store_or_rollback store_user_info get_context_tx
    select_issuer_id id_of new_user_id generate_subject_id upsert_user commit_context_tx new_session
    is_other added_claims
unchanged = refl

-- Nothing is mapped to `sub`.
ann_unmapped : IsMappedSubject [] ann.subject ann.subject
unfolding claim
ann_unmapped = (λ s h. ground arith, λ h. refl)

handle_token_endpoint_request_again_example :
    (ann_session.claims.subject ≡ ann_session.claims.subject)
    × ((handle_token_endpoint_request sandbox tokens expressions request start).1.view.committed
        ≡ (handle_token_endpoint_request sandbox tokens expressions request start).1.view.committed)
handle_token_endpoint_request_again_example =
    handle_token_endpoint_request_again sandbox-IsDocumented tokens-IsStandard expressions request
      request ann_session ann_session start start ann ann [] [] exchanges reads exchanges reads refl
      ann.subject ann_unmapped ann_unmapped unchanged

subject_of_request-IsChecked_example :
    IsChecked sandbox tokens expressions start.view.committed request ann []
subject_of_request-IsChecked_example =
    subject_of_request-IsChecked sandbox-IsDocumented tokens-IsStandard tokens-IsOutside expressions
      request start ann [] reads

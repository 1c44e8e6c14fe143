-- ===== src/Types/Errors.antt =====
-- internal/types/errors.go, internal/storage/errors.go and the HTTP errors of internal/api/httpsrv.
use identity_api.Common.{ℕ, String, Bool, true, false, ◌==◌}

-- A failure that the database server or its driver reports.
pub data Failure : Type 0 where
  pq : String → Failure
  driver : ℕ → Failure

-- The Go `error` values that the code makes or passes on.
pub data Error : Type 0 where
  not_found invalid_argument : Error
  issuer_not_found user_info_not_found oauth_client_not_found : Error
  invalid_user_info : Error
  group_not_found group_exists group_name_empty group_member_not_found : Error
  invalid_cel : Error
  missing_context_tx : Error
  missing_claim invalid_claim : Error
  no_rows : Error
  invalid_pagination_cursor : Error
  db : Failure → Error
  -- echo.NewHTTPError, and errorWithStatus of internal/api/httpsrv/errors.go, which echo does not know
  http : ℕ → Error
  with_status : ℕ → Error
  permission_denied : Error
  -- fosite's errors
  invalid_request server_error invalid_grant unknown_request : Error
  missing_sub missing_iss invalid_claim_condition : Error
  -- a failed type assertion, or a write to a nil map
  panic : Error
  -- fositex.ErrInvalidKey
  invalid_key : Error
  external : ℕ → Error

-- errors.Is(err, types.ErrNotFound), along the wrapping of the declarations
abbrev pub is_not_found : Error → Bool
is_not_found not_found = true
is_not_found group_not_found = true
is_not_found group_member_not_found = true
is_not_found _ = false

-- errors.Is(err, types.ErrInvalidArgument)
abbrev pub is_invalid_argument : Error → Bool
is_invalid_argument invalid_argument = true
is_invalid_argument group_exists = true
is_invalid_argument group_name_empty = true
is_invalid_argument invalid_cel = true
is_invalid_argument _ = false

abbrev pub duplicate_key : String
duplicate_key = "23505"

abbrev pub foreign_key : String
foreign_key = "23503"

-- isPQError and isPQDuplicateKeyError
abbrev pub is_pq_duplicate_key_error : Error → Bool
is_pq_duplicate_key_error (db (pq code)) = code == duplicate_key
is_pq_duplicate_key_error _ = false

-- errors.Is(err, types.ErrUserInfoNotFound)
abbrev pub is_user_info_not_found : Error → Bool
is_user_info_not_found user_info_not_found = true
is_user_info_not_found _ = false

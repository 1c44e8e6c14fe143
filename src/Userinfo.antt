-- ===== src/Userinfo.antt =====
-- internal/userinfo/handler.go: the endpoints for the user that a token names. `full_subject` is the
-- actor of the request's token, and `atoi` is strconv.Atoi.
pub mod Limits
mod Tests
use identity_api.Common.{
  ℕ, ℤ, pos, String, Bool, not, Option, none, some, List, ◌==◌, if◌then◌else◌,
}
use identity_api.Types.{PrefixedId, to_prefixed_ids}
use identity_api.Types.Users.{UserInfo}
use identity_api.Types.Errors.{Error, http}
use identity_api.Exec.{Result, ok, err, Exec, pure, lift, fail_if, map_err, ◌>>=◌, ◌>>◌}
use identity_api.Exec.Pure
use identity_api.Platform.{Platform}
use identity_api.Paging.{Codec, Cursor, limit}
use identity_api.Paging.Page.{Params, Pagination, paginator}
use identity_api.Storage.{Ctx}
use identity_api.Storage.Users.{lookup_user_info_by_id}
use identity_api.Storage.Listing.{list_groups_by_subject}
use identity_api.Http.Listing.{collection}

-- `if cursor != ""`
unfoldable pub given_cursor : String → Option Cursor
given_cursor cursor = if cursor == "" then none else some cursor

-- `if limit != ""`: the number given, brought into bounds by `crdbx.Limit`.
unfoldable pub parsed_limit : Result ℤ → Result (Option ℤ)
parsed_limit (ok n) = ok (some (pos (limit n)))
parsed_limit (err e) = err (http 400)

unfoldable pub given_limit : (String → Result ℤ) → String → Result (Option ℤ)
unfolding parsed_limit
given_limit atoi text = if text == "" then ok none else parsed_limit (atoi text)

module _ (p : Platform) where
  unfoldable pub handle : Ctx → String → Exec p.World UserInfo
  unfolding lookup_user_info_by_id
  handle ctx full_subject = do
    fail_if (not (p.valid_id full_subject)) (http 500)
    map_err (λ _. http 400) (lookup_user_info_by_id p ctx full_subject)

  unfoldable pub list_user_groups :
      Codec
      → Option String
      → (String → Result ℤ)
      → String
      → String
      → String
      → Exec p.World (List PrefixedId × Pagination)
  unfolding given_cursor given_limit list_groups_by_subject collection
  list_user_groups c as_of atoi full_subject cursor limit_text = do
    fail_if (not (p.valid_id full_subject)) (http 500)
    requested ← lift (given_limit atoi limit_text)
    let params : Params = record { cursor = given_cursor cursor; limit = requested }
    groups ←
        map_err (λ _. http 400)
          (list_groups_by_subject p c as_of full_subject (paginator "group_id" params))
    map_err (λ _. http 500) (collection c "group_id" params (λ g. g) (to_prefixed_ids groups))

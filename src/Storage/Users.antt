-- ===== src/Storage/Users.antt =====
-- internal/storage/userinfo.go: the user info service.
pub mod Sql
pub mod Stored
mod Tests
use Prim.Native.String
use identity_api.Common.{
  String, Bool, true, false, not, ◌&&◌, Option, none, some, List, ◌==◌, if◌then◌else◌,
}
use identity_api.Types.{PrefixedId}
use identity_api.Types.Users.{UserInfo, Claims, ClaimValue, claim}
use identity_api.Types.Errors.{
  Error, user_info_not_found, invalid_user_info, issuer_not_found, missing_claim, invalid_claim,
  external,
}
use identity_api.Exec.{Result, ok, err, Exec, pure, lift, fail_if, ◌>>=◌, ◌>>◌}
use identity_api.Exec.Pure
use identity_api.Platform.{Platform}
use identity_api.Platform.Schema.{UserRow}
use identity_api.Storage.{Ctx, get_context_tx, query_row}
use Sql.{select_user_by_claims, select_user_by_id, select_user_owner, select_issuer_id, upsert_user}

-- `if errors.Is(err, sql.ErrNoRows)`
unfoldable pub found_or : {A : Type 0} → Error → Option A → Result A
found_or e none = err e
found_or e (some a) = ok a

abbrev pub user_id_prefix : String
user_id_prefix = "idntusr"

-- `parseClaim`: a missing claim is the empty text.
unfoldable pub checked_claim : Bool → Option ClaimValue → Result String
checked_claim required none = if required then err missing_claim else ok ""
checked_claim required (some (ClaimValue.text val)) =
    if required && val == "" then err missing_claim else ok val
checked_claim required (some (ClaimValue.truth b)) = err invalid_claim
checked_claim required (some ClaimValue.null) = err invalid_claim
checked_claim required (some ClaimValue.other) = err invalid_claim

unfoldable pub parse_claim : Claims → String → Bool → Result String
unfolding checked_claim
parse_claim claims key required = checked_claim required (claim key claims)

unfoldable pub parse_user_info_from_claims : Claims → Result UserInfo
parse_user_info_from_claims claims = Pure.◌>>=◌ (parse_claim claims "iss" true) λ iss.
    Pure.◌>>=◌ (parse_claim claims "sub" true) λ sub.
      Pure.◌>>=◌ (parse_claim claims "name" false) λ name.
        Pure.◌>>=◌ (parse_claim claims "email" false)
          λ email. ok (record { id = ""; name = name; email = email; issuer = iss; subject = sub })

module _ (p : Platform) where
  -- The digest of issuer and subject, joined with nothing between, behind the prefix.
  unfoldable pub generate_subject_id : String → String → String → Result PrefixedId
  generate_subject_id prefix iss sub =
      let out = String.◌++◌ prefix (String.◌++◌ "-" (p.digest (String.◌++◌ iss sub))) in
      if p.valid_id out then ok out else err (external 1)

  unfoldable pub lookup_user_info_by_claims : Ctx → String → String → Exec p.World UserInfo
  unfolding query_row found_or
  lookup_user_info_by_claims ctx iss sub = do
    row ← query_row p ctx (select_user_by_claims iss sub)
    lift (found_or user_info_not_found row)

  unfoldable pub lookup_user_info_by_id : Ctx → PrefixedId → Exec p.World UserInfo
  unfolding query_row found_or
  lookup_user_info_by_id ctx id = do
    row ← query_row p ctx (select_user_by_id id)
    lift (found_or user_info_not_found row)

  unfoldable pub lookup_user_owner_id : Ctx → PrefixedId → Exec p.World PrefixedId
  unfolding query_row found_or
  lookup_user_owner_id ctx id = do
    row ← query_row p ctx (select_user_owner id)
    lift (found_or user_info_not_found row)

  -- `if userInfo.ID.String() == ""`
  unfoldable pub new_user_id : UserInfo → Result PrefixedId
  new_user_id u =
      if u.id == "" then generate_subject_id user_id_prefix u.issuer u.subject else ok u.id

  unfoldable pub store_user_info : Ctx → UserInfo → Exec p.World UserInfo
  unfolding get_context_tx found_or
  store_user_info ctx u = do
    fail_if (u.issuer == "") invalid_user_info
    fail_if (u.subject == "") invalid_user_info
    lift (get_context_tx ctx)
    found ← p.exec (select_issuer_id u.issuer)
    issuer_id ← lift (found_or issuer_not_found found)
    new_id ← lift (new_user_id u)
    user_id ← p.exec (
        upsert_user (record {
          id = new_id;
          name = u.name;
          email = u.email;
          sub = u.subject;
          iss_id = issuer_id;
        }))
    pure (record u { id = user_id })

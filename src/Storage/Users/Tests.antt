-- ===== src/Storage/Users/Tests.antt =====
-- The theorems on users at concrete inputs.
use identity_api.Common.{◌≡◌, refl, any, find?}
use identity_api.Types.Users.{UserInfo}
use identity_api.Exec.{ok}
use identity_api.Sandbox.{sandbox, sandbox-IsDocumented}
use identity_api.Sandbox.Data.{start}
use identity_api.Storage.{with_tx, get_context_tx}
use identity_api.Storage.Users.{store_user_info, found_or, new_user_id, generate_subject_id}
use identity_api.Storage.Users.Sql.{select_issuer_id, id_of, upsert_user}
use identity_api.Storage.Users.Stored.{IsStored, store_user_info-IsStored, store_user_info_again}

abbrev bob : UserInfo
bob = record { id = ""; name = "Bob"; email = ""; issuer = "https://idp"; subject = "bob" }

abbrev stored_bob : UserInfo
stored_bob = record bob { id = "idntusr-https://idpbob" }

stores : (store_user_info sandbox with_tx bob start).0 ≡ ok stored_bob
unfolding store_user_info get_context_tx select_issuer_id id_of found_or new_user_id
    generate_subject_id upsert_user any find?
stores = refl

store_user_info-IsStored_example :
    IsStored sandbox bob stored_bob start.view (store_user_info sandbox with_tx bob start).1.view
store_user_info-IsStored_example =
    store_user_info-IsStored sandbox-IsDocumented bob stored_bob start stores

abbrev robert : UserInfo
robert = record {
  id = "r";
  name = "Robert";
  email = "r@x";
  issuer = "https://idp";
  subject = "bob";
}

stores_again :
    (store_user_info sandbox with_tx robert (store_user_info sandbox with_tx bob start).1).0
    ≡ ok (record robert { id = "idntusr-https://idpbob" })
unfolding store_user_info get_context_tx select_issuer_id id_of found_or new_user_id
    generate_subject_id upsert_user any find?
stores_again = refl

store_user_info_again_example :
    ("idntusr-https://idpbob" ≡ stored_bob.id)
    × ((store_user_info sandbox with_tx robert (store_user_info sandbox with_tx bob start).1).1.view
        ≡ (store_user_info sandbox with_tx bob start).1.view)
store_user_info_again_example =
    store_user_info_again sandbox-IsDocumented bob stored_bob "r" "Robert" "r@x"
      (record robert { id = "idntusr-https://idpbob" }) start stores stores_again

-- ===== src/Http/Tests.antt =====
-- The theorems on the group handlers and the middleware at concrete inputs.
use identity_api.Common.{◌≡◌, refl, some, String, none, [], ◌∷◌, find?, contains}
use identity_api.Types.{V1Group, GroupUpdate}
use identity_api.Types.Errors.{Error}
use identity_api.Exec.{ok, err}
use identity_api.Sandbox.{sandbox, sandbox-IsDocumented}
use identity_api.Sandbox.Data.{start, tables}
use identity_api.Storage.{with_tx}
use identity_api.Http.{storage_middleware}
use identity_api.Http.Groups.{CreateGroup, create_group}
use identity_api.Http.Members
use identity_api.Http.Listing.{list_groups, list_group_members}
use identity_api.Sandbox.Cursors.{cursors}
use identity_api.Paging.Page.{Params}
use identity_api.Http.Committed.{committed-create_group}
use identity_api.Http.Middleware.{storage_middleware_atomic}
use identity_api.Types.Errors.{permission_denied}
use identity_api.Http.Groups as Handlers
use identity_api.Http.Access.{IsRefused, access_denied}
use identity_api.Types.Issuers.{Issuer}
use identity_api.Sandbox.{World}
use identity_api.Sandbox.Tokens.{expressions}
use identity_api.Storage.{query_row}
use identity_api.Storage.Issuers as IssuerStorage
use identity_api.Storage.Issuers.Sql.{select_issuer_by_id}
use identity_api.Http.Issuers
use identity_api.Http.Owners.{IsForbidden, owner_denied}

abbrev body : CreateGroup
body = record { name = "qa"; description = none }

storage_middleware_atomic_example :
    ((e : Error)
      → (create_group sandbox with_tx "tnt" body (sandbox.begin start).1).0 ≡ err e
      → (storage_middleware sandbox
          (λ ctx. create_group sandbox ctx "tnt" body)
          start).1.view.committed
        ≡ tables)
    × ((a : V1Group)
        → (storage_middleware sandbox (λ ctx. create_group sandbox ctx "tnt" body) start).0 ≡ ok a
        → ((create_group sandbox with_tx "tnt" body (sandbox.begin start).1).0 ≡ ok a)
          × ((sandbox.begin start).1.view.working ≡ tables)
          × ((storage_middleware sandbox
                (λ ctx. create_group sandbox ctx "tnt" body)
                start).1.view.committed
              ≡ (create_group sandbox with_tx "tnt" body (sandbox.begin start).1).1.view.working))
storage_middleware_atomic_example =
    storage_middleware_atomic sandbox-IsDocumented (λ ctx. create_group sandbox ctx "tnt" body)
      start (λ ctx. committed-create_group sandbox-IsDocumented ctx "tnt" body)

abbrev rename : GroupUpdate
rename = record { name = some "x"; description = none }

denied :
    (action : String) → (sandbox.check_access "tnt-denied" action start).0 ≡ err permission_denied
unfolding contains
denied action = refl

abbrev any_page : Params
any_page = record { cursor = none; limit = none }

access_denied_example :
    IsRefused sandbox ("tnt-denied" ∷ []) (create_group sandbox with_tx "tnt-denied" body) start
    × IsRefused sandbox
        ("tnt-denied" ∷ [])
        (Handlers.get_group_by_id sandbox with_tx "tnt-denied")
        start
    × IsRefused sandbox
        ("tnt-denied" ∷ [])
        (Handlers.update_group sandbox with_tx "tnt-denied" rename)
        start
    × IsRefused sandbox
        ("tnt-denied" ∷ [])
        (Handlers.delete_group sandbox with_tx "tnt-denied")
        start
    × IsRefused sandbox
        ("tnt-denied" ∷ [])
        (list_groups sandbox cursors none "tnt-denied" any_page)
        start
    × IsRefused sandbox
        ("tnt-denied" ∷ [])
        (list_group_members sandbox cursors none with_tx "tnt-denied" any_page)
        start
    × IsRefused sandbox
        ("tnt-denied" ∷ "eve" ∷ [])
        (Members.add_group_members sandbox with_tx "tnt-denied" ("eve" ∷ []))
        start
    × IsRefused sandbox
        ("tnt-denied" ∷ "eve" ∷ [])
        (Members.remove_group_member sandbox with_tx "tnt-denied" "eve")
        start
    × IsRefused sandbox
        ("tnt-denied" ∷ "eve" ∷ [])
        (Members.replace_group_members sandbox with_tx "tnt-denied" ("eve" ∷ []))
        start
access_denied_example =
    access_denied sandbox-IsDocumented cursors none with_tx "tnt-denied" "eve" ("eve" ∷ []) body
      rename any_page start denied

abbrev no_access : World
no_access = record start { denied = "tnt" ∷ [] }

abbrev idp : Issuer expressions
idp = record {
  owner_id = "tnt";
  id = "iss-1";
  name = "idp";
  uri = "https://idp";
  jwksuri = "https://idp/jwks";
  claim_mappings = none;
  claim_conditions = none;
}

stored : (IssuerStorage.get_issuer_by_id sandbox expressions with_tx "iss-1" no_access).0 ≡ ok idp
unfolding IssuerStorage.get_issuer_by_id query_row select_issuer_by_id IssuerStorage.scan_issuer
    IssuerStorage.scan_mapping IssuerStorage.scan_conditions find?
stored = refl

owner_is_denied :
    (action : String)
    → (sandbox.check_access "tnt" action
        (IssuerStorage.get_issuer_by_id sandbox expressions with_tx "iss-1" no_access).1).0
      ≡ err permission_denied
unfolding IssuerStorage.get_issuer_by_id query_row select_issuer_by_id find? contains
owner_is_denied action = refl

abbrev new_name : Issuers.UpdateIssuer
new_name = record {
  name = some "x";
  uri = none;
  jwksuri = none;
  claim_mappings = none;
  claim_conditions = none;
}

owner_denied_example :
    IsForbidden sandbox (Issuers.get_issuer_by_id sandbox expressions with_tx "iss-1") no_access
    × IsForbidden sandbox
        (Issuers.update_issuer sandbox expressions with_tx "iss-1" new_name)
        no_access
    × IsForbidden sandbox (Issuers.delete_issuer sandbox expressions with_tx "iss-1") no_access
owner_denied_example =
    owner_denied sandbox-IsDocumented expressions with_tx "iss-1" new_name idp no_access stored
      owner_is_denied

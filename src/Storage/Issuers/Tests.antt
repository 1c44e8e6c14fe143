-- ===== src/Storage/Issuers/Tests.antt =====
-- The theorems on issuers at concrete inputs.
use identity_api.Common.{
  ◌≡◌, ◌≢◌, find?, refl, true, not, none, some, [], ◌∷◌, ◌++◌, ◌==◌, any, keep, if◌then◌else◌,
}
use identity_api.Types.{PrefixedId}
use identity_api.Types.Issuers.{
  Issuer, IssuerUpdate, marshal_mapping, each, marshal_conditions, unmarshal_conditions,
}
use identity_api.Types.Errors.{Failure, db}
use identity_api.Exec.{ok, err}
use identity_api.Platform.Schema.{IssuerRow}
use identity_api.Sandbox.{sandbox, sandbox-IsDocumented}
use identity_api.Sandbox.Data.{start}
use identity_api.Sandbox.Tokens.{expressions, expressions-RoundTrips}
use identity_api.Storage.{with_tx, get_context_tx}
use identity_api.Storage.Issuers.{
  create_issuer, insert_issuer, conditions_column, issuer_row, scan_issuer, scan_mapping,
  scan_conditions, delete_issuer, update_issuer, issuer_update_to_col_bindings, mapping_binding,
  conditions_binding, bind_if_not_nil,
}
use identity_api.Storage.Issuers.Sql.{
  update_issuer_row, set_issuer, set_columns, set_column, uri_taken, clashes, insert_issuer_row,
  has_id, of_issuer, delete_issuer_row, delete_users_of_issuer,
}
use identity_api.Storage.Issuers.Lookup.{
  issuer_at, issuer_by, as_stored, create_issuer-issuer_at, delete_issuer-issuer_at,
}
use identity_api.Storage.Issuers.Updated.{IsUpdated, update_issuer-outcomes}

abbrev okta : Issuer expressions
okta = record {
  owner_id = "tnt";
  id = "iss-2";
  name = "okta";
  uri = "https://okta";
  jwksuri = "https://okta/keys";
  claim_mappings = some (("identity-api.infratographer.com/sub", "claims.email") ∷ []);
  claim_conditions = none;
}

creates : (create_issuer sandbox expressions with_tx okta start).0 ≡ ok okta
unfolding create_issuer insert_issuer get_context_tx marshal_mapping each conditions_column
    issuer_row insert_issuer_row clashes any
creates = refl

create_issuer-issuer_at_example :
    let after = (create_issuer sandbox expressions with_tx okta start).1.view in
    ◌≡◌ {A = Issuer expressions} okta okta
    × (issuer_at "iss-2" start.view ≡ none)
    × (issuer_by "https://okta" start.view ≡ none)
    × (scan_issuer expressions (issuer_at "iss-2" after) ≡ ok (as_stored expressions okta))
    × (scan_issuer expressions (issuer_by "https://okta" after) ≡ ok (as_stored expressions okta))
    × ((row : IssuerRow) × (after ≡ record (start.view) {
      working = record (start.view.working) { issuers = start.view.working.issuers ++ row ∷ [] };
    }))
create_issuer-issuer_at_example =
    create_issuer-issuer_at sandbox-IsDocumented expressions-RoundTrips okta okta start creates

deletes : (delete_issuer sandbox with_tx "iss-1" start).0 ≡ ok tt
unfolding delete_issuer get_context_tx delete_users_of_issuer delete_issuer_row any keep
deletes = refl

delete_issuer-issuer_at_example :
    let after = (delete_issuer sandbox with_tx "iss-1" start).1.view in
    (any (has_id "iss-1") start.view.working.issuers ≡ true)
    × ((other : PrefixedId)
        → issuer_at other after ≡ (if "iss-1" == other then none else issuer_at other start.view))
    × (after ≡ record (start.view) {
      working = record (start.view.working) {
        issuers = after.working.issuers;
        user_info = keep (λ u. not (of_issuer "iss-1" u)) start.view.working.user_info;
      };
    })
delete_issuer-issuer_at_example = delete_issuer-issuer_at sandbox-IsDocumented "iss-1" start deletes

abbrev nothing : IssuerUpdate expressions
nothing = record {
  name = none;
  uri = none;
  jwksuri = none;
  claim_mappings = none;
  claim_conditions = none;
}

no_columns : issuer_update_to_col_bindings expressions nothing ≡ ok []
unfolding issuer_update_to_col_bindings mapping_binding conditions_binding bind_if_not_nil
no_columns = refl

-- A new name and a condition.
abbrev renamed : IssuerUpdate expressions
renamed = record {
  name = some "new";
  uri = none;
  jwksuri = none;
  claim_mappings = none;
  claim_conditions = some (some "true");
}

update_issuer-outcomes_example :
    let after = (update_issuer sandbox expressions with_tx "iss-1" renamed start).1.view in
    ((out : Issuer expressions)
      → (update_issuer sandbox expressions with_tx "iss-1" renamed start).0 ≡ ok out
      → ((old : IssuerRow) × (issuer_at "iss-1" start.view ≡ some old) × IsUpdated renamed old out)
        × (scan_issuer expressions (issuer_at "iss-1" after) ≡ ok out)
        × ((other : PrefixedId)
            → other ≢ "iss-1"
            → issuer_at other after ≡ issuer_at other start.view)
        × (after ≡ record (start.view) {
          working = record (start.view.working) { issuers = after.working.issuers };
        }))
    × (issuer_update_to_col_bindings expressions renamed ≡ ok []
        → ((f : Failure) × ((update_issuer sandbox expressions with_tx "iss-1" renamed start).0
              ≡ err (db f)))
          × (after ≡ start.view))
update_issuer-outcomes_example =
    update_issuer-outcomes sandbox-IsDocumented expressions-RoundTrips "iss-1" renamed start

-- The update of the name goes through.
updates :
    (update_issuer sandbox expressions with_tx "iss-1" renamed start).0
    ≡ ok (record {
      owner_id = "tnt";
      id = "iss-1";
      name = "new";
      uri = "https://idp";
      jwksuri = "https://idp/jwks";
      claim_mappings = none;
      claim_conditions = some (some "true");
    })
unfolding update_issuer get_context_tx issuer_update_to_col_bindings mapping_binding
    conditions_binding bind_if_not_nil update_issuer_row set_issuer set_columns set_column uri_taken
    any find? scan_issuer scan_mapping scan_conditions marshal_conditions unmarshal_conditions
updates = refl

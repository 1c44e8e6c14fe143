-- ===== src/Storage/Issuers.antt =====
-- internal/storage/issuer.go and query.go: the issuer service.
pub mod Sql
pub mod Lookup
pub mod Columns
pub mod Updated
mod Tests
use identity_api.Common.{
  ℕ, zero, String, Option, none, some, List, [], ◌∷◌, ◌++◌, ◌==◌, if◌then◌else◌, nat_eq,
}
use identity_api.Types.{PrefixedId}
use identity_api.Types.Errors.{Error, issuer_not_found}
use identity_api.Types.Issuers.{
  Cel, Issuer, IssuerUpdate, Entries, Conditions, entries_of, marshal_mapping, unmarshal_mapping,
  marshal_conditions, unmarshal_conditions,
}
use identity_api.Exec.{Result, ok, err, Exec, pure, lift, fail_if, ◌>>=◌, ◌>>◌}
use identity_api.Exec.Pure
use identity_api.Platform.{Platform}
use identity_api.Platform.Schema.{IssuerRow}
use identity_api.Storage.{Ctx, get_context_tx, query_row}
use Sql.{
  insert_issuer_row, select_issuer_by_id, select_issuer_by_uri, ColBinding, set_name, set_uri,
  set_jwksuri, set_mappings, set_conditions, update_issuer_row, delete_users_of_issuer,
  delete_issuer_row,
}

module _ (c : Cel) where
  unfoldable pub scan_mapping : Option String → Result (Option (Entries c))
  scan_mapping none = ok none
  scan_mapping (some text) = Pure.◌>>=◌ (unmarshal_mapping c text) (λ entries. ok (some entries))

  unfoldable pub scan_conditions : Option String → Result (Option (Conditions c))
  scan_conditions none = ok none
  scan_conditions (some text) =
      Pure.◌>>=◌ (unmarshal_conditions c text) (λ conditions. ok (some conditions))

  unfoldable pub scan_issuer : Option IssuerRow → Result (Issuer c)
  unfolding scan_mapping scan_conditions
  scan_issuer none = err issuer_not_found
  scan_issuer (some row) = Pure.◌>>=◌ (scan_mapping row.mappings) λ mappings.
      Pure.◌>>=◌ (scan_conditions row.conditions) λ conditions. ok (record {
        owner_id = row.owner_id;
        id = row.id;
        name = row.name;
        uri = row.uri;
        jwksuri = row.jwksuri;
        claim_mappings = mappings;
        claim_conditions = conditions;
      })

  -- `conditions := []byte{}`, or what the conditions marshal to
  unfoldable pub conditions_column : Option (Conditions c) → Result String
  conditions_column none = ok ""
  conditions_column (some conditions) = marshal_conditions c conditions

  unfoldable pub issuer_row : Issuer c → String → String → IssuerRow
  issuer_row i mappings conditions = record {
    id = i.id;
    owner_id = i.owner_id;
    uri = i.uri;
    name = i.name;
    jwksuri = i.jwksuri;
    mappings = some mappings;
    conditions = some conditions;
  }

  -- `bindIfNotNil`
  unfoldable pub bind_if_not_nil : (String → ColBinding) → Option String → List ColBinding
  bind_if_not_nil column none = []
  bind_if_not_nil column (some value) = column value ∷ []

  unfoldable pub mapping_binding : Option (Entries c) → Result (List ColBinding)
  mapping_binding none = ok []
  mapping_binding (some entries) =
      Pure.◌>>=◌ (marshal_mapping c entries) (λ text. ok (set_mappings text ∷ []))

  unfoldable pub conditions_binding : Option (Conditions c) → Result (List ColBinding)
  conditions_binding none = ok []
  conditions_binding (some conditions) =
      Pure.◌>>=◌ (marshal_conditions c conditions) (λ text. ok (set_conditions text ∷ []))

  unfoldable pub issuer_update_to_col_bindings : IssuerUpdate c → Result (List ColBinding)
  unfolding bind_if_not_nil mapping_binding conditions_binding
  issuer_update_to_col_bindings u = Pure.◌>>=◌ (mapping_binding u.claim_mappings) λ mappings.
      Pure.◌>>=◌ (conditions_binding u.claim_conditions) λ conditions. ok (
        bind_if_not_nil set_name u.name
        ++ (bind_if_not_nil set_uri u.uri
            ++ (bind_if_not_nil set_jwksuri u.jwksuri ++ (mappings ++ conditions))))

module _ (p : Platform) (c : Cel) where
  unfoldable pub insert_issuer : Ctx → Issuer c → Exec p.World (Unit {0})
  unfolding get_context_tx conditions_column issuer_row
  insert_issuer ctx iss = do
    lift (get_context_tx ctx)
    mappings ← lift (marshal_mapping c (entries_of c iss.claim_mappings))
    conditions ← lift (conditions_column c iss.claim_conditions)
    p.exec (insert_issuer_row (issuer_row c iss mappings conditions))

  unfoldable pub create_issuer : Ctx → Issuer c → Exec p.World (Issuer c)
  create_issuer ctx iss = do insert_issuer ctx iss; pure iss

  unfoldable pub get_issuer_by_id : Ctx → PrefixedId → Exec p.World (Issuer c)
  unfolding query_row
  get_issuer_by_id ctx id = do
    row ← query_row p ctx (select_issuer_by_id id)
    lift (scan_issuer c row)

  unfoldable pub get_issuer_by_uri : Ctx → String → Exec p.World (Issuer c)
  unfolding query_row
  get_issuer_by_uri ctx uri = do
    row ← query_row p ctx (select_issuer_by_uri uri)
    lift (scan_issuer c row)

  unfoldable pub update_issuer : Ctx → PrefixedId → IssuerUpdate c → Exec p.World (Issuer c)
  unfolding get_context_tx
  update_issuer ctx id update = do
    lift (get_context_tx ctx)
    bindings ← lift (issuer_update_to_col_bindings c update)
    row ← p.exec (update_issuer_row id bindings)
    lift (scan_issuer c row)

module _ (p : Platform) where
  unfoldable pub delete_issuer : Ctx → PrefixedId → Exec p.World (Unit {0})
  unfolding get_context_tx
  delete_issuer ctx id = do
    lift (get_context_tx ctx)
    p.exec (delete_users_of_issuer id)
    rows_affected ← p.exec (delete_issuer_row id)
    fail_if (nat_eq rows_affected 0) issuer_not_found

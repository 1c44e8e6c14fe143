-- ===== src/Storage/Seed/Tests.antt =====
-- The theorem on seeding at two concrete issuers.
use identity_api.Common.{◌≡◌, List, [], ◌∷◌, ◌++◌}
use identity_api.Types.Errors.{Error}
use identity_api.Exec.{ok, err}
use identity_api.Platform.Schema.{IssuerRow}
use identity_api.Sandbox.{sandbox, sandbox-IsDocumented}
use identity_api.Sandbox.Data.{start, tables}
use identity_api.Sandbox.Tokens.{expressions}
use identity_api.Storage.{with_tx}
use identity_api.Storage.Seed.{SeedIssuer, seed_database, insert_seeds}
use identity_api.Storage.Seed.Rows.{AreSeeded, seed_database-AreSeeded}

abbrev seeds : List SeedIssuer
seeds =
    record {
      owner_id = "tnt";
      id = "iss-2";
      name = "okta";
      uri = "https://okta";
      jwksuri = "https://okta/keys";
      claim_mappings = [];
      claim_conditions = "";
    }
    ∷ record {
      owner_id = "tnt";
      id = "iss-3";
      name = "keycloak";
      uri = "https://keycloak";
      jwksuri = "https://keycloak/keys";
      claim_mappings = [];
      claim_conditions = "true";
    }
    ∷ []

seed_database-AreSeeded_example :
    ((seed_database sandbox expressions seeds start).0 ≡ ok tt
      → (rows : List IssuerRow) × AreSeeded seeds rows
        × ((seed_database sandbox expressions seeds start).1.view.committed
            ≡ record tables { issuers = tables.issuers ++ rows }))
    × ((e : Error)
        → (sandbox.begin start).0 ≡ ok tt
        → (insert_seeds sandbox expressions with_tx seeds (sandbox.begin start).1).0 ≡ err e
        → ((seed_database sandbox expressions seeds start).0 ≡ err e)
          × ((seed_database sandbox expressions seeds start).1.view.committed ≡ tables))
seed_database-AreSeeded_example =
    seed_database-AreSeeded sandbox-IsDocumented expressions seeds start

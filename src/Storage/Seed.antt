-- ===== src/Storage/Seed.antt =====
-- internal/storage/data.go, engine.go and issuer.go: seeding the issuers.
pub mod Rows
mod Tests
use identity_api.Common.{String, Option, some, List, [], ◌∷◌}
use identity_api.Types.{PrefixedId}
use identity_api.Types.Issuers.{Cel, Issuer, new_claims_mapping, new_claim_conditions}
use identity_api.Types.Errors.{Error}
use identity_api.Exec.{Result, ok, err, Exec, pure, fail, lift, branch, ◌>>=◌, ◌>>◌}
use identity_api.Exec.Pure
use identity_api.Platform.{Platform}
use identity_api.Storage.{Ctx, begin_tx_context, commit_context_tx, rollback_context_tx}
use identity_api.Storage.Issuers.{insert_issuer}

pub record SeedIssuer : Type 0 where
  pub owner_id : PrefixedId
  pub id : PrefixedId
  pub name : String
  pub uri : String
  pub jwksuri : String
  pub claim_mappings : List (String × String)
  pub claim_conditions : String

unfoldable pub build_issuer_from_seed : (c : Cel) → SeedIssuer → Result (Issuer c)
build_issuer_from_seed c seed = Pure.◌>>=◌ (new_claims_mapping c seed.claim_mappings) λ mappings.
    Pure.◌>>=◌ (new_claim_conditions c seed.claim_conditions) λ conditions. ok (record {
      owner_id = seed.owner_id;
      id = seed.id;
      name = seed.name;
      uri = seed.uri;
      jwksuri = seed.jwksuri;
      claim_mappings = some mappings;
      claim_conditions = some conditions;
    })

module _ (p : Platform) (c : Cel) where
  -- The loop of `seedDatabase`.
  unfoldable pub insert_seeds : Ctx → List SeedIssuer → Exec p.World (Unit {0})
  unfolding build_issuer_from_seed insert_issuer
  insert_seeds ctx [] = pure tt
  insert_seeds ctx (seed ∷ issuers) = do
    iss ← lift (build_issuer_from_seed c seed)
    insert_issuer p c ctx iss
    insert_seeds ctx issuers

  -- An error before the commit leaves the transaction open.
  unfoldable pub seed_database : List SeedIssuer → Exec p.World (Unit {0})
  unfolding begin_tx_context insert_seeds commit_context_tx rollback_context_tx
  seed_database issuers = do
    ctx ← begin_tx_context p
    insert_seeds ctx issuers
    branch (commit_context_tx p ctx) pure
        (λ e. branch (rollback_context_tx p ctx) (λ _. fail e) fail)

-- ===== src/Platform/Committed.antt =====
-- Which calls of the platform leave the committed tables alone: all but the commit.
use identity_api.Common.{String, ◌≡◌, refl, ◌∙◌, arith}
use identity_api.Types.{PrefixedId}
use identity_api.Exec.Keeps.{Keeps, IsPreorder}
use identity_api.Platform.{Platform, IsDocumented, Event}
use identity_api.Platform.Schema.{Stmt}

abbrev pub SameCommitted : (p : Platform) → p.World → p.World → Type 0
SameCommitted p w w' = (p.view w').committed ≡ (p.view w).committed

module _ {p : Platform} (d : IsDocumented p) where
  pub committed_preorder : IsPreorder (SameCommitted p)
  committed_preorder = record { stays = λ w. refl; trans = λ a b c h k. k ∙ h }

  pub committed-exec : {A : Type 0} (st : Stmt A) → Keeps (SameCommitted p) (p.exec st)
  committed-exec st = record { at = λ w. ground (arith, d.exec_law st w) }

  pub committed-query :
      {A : Type 0} (clause : String) (st : Stmt A) → Keeps (SameCommitted p) (p.query clause st)
  committed-query clause st = record { at = λ w. ground (arith, d.query_view clause st w) }

  pub committed-check_access :
      (id : PrefixedId) (action : String) → Keeps (SameCommitted p) (p.check_access id action)
  committed-check_access id action = record { at = λ w. ground (arith, d.check_view id action w) }

  pub committed-new_id : (prefix : String) → Keeps (SameCommitted p) (p.new_id prefix)
  committed-new_id prefix = record { at = λ w. ground (arith, d.new_id_view prefix w) }

  pub committed-publish : (e : Event) → Keeps (SameCommitted p) (p.publish e)
  committed-publish e = record { at = λ w. ground (arith, d.publish_law e w) }

  pub committed-rollback : Keeps (SameCommitted p) p.rollback
  committed-rollback = record { at = d.rollback_law }

pub ruleset platform_rules = (
  committed_preorder, committed-exec, committed-query, committed-check_access, committed-new_id,
  committed-publish, committed-rollback,
)

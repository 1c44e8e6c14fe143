-- ===== src/Storage/Reads.antt =====
-- The rows that the listings of internal/storage get from a query.
use identity_api.Common.{String, ◌≡◌, List, [], ◌++◌, ◌⊎◌, inl, inr, arith, Option, none}
use identity_api.Types.Errors.{Failure, db}
use identity_api.Exec.{Result, ok, err}
use identity_api.Exec.Keeps.{Keeps}
use identity_api.Platform.{Platform, IsDocumented}
use identity_api.Platform.Committed.{SameCommitted}
use identity_api.Platform.Schema.{Tables, Stmt, rows}
use identity_api.Storage.{next_rows}

-- The rows taken from the answer to a query are a beginning of what SQL says: all of it, where the
-- reading has not broken off.
abbrev pub AreTaken :
    {A : Type 0}
    → Stmt (List A)
    → Tables
    → Result (List A × Option Failure)
    → Result (List A)
    → Type 0
AreTaken {A} st t asked taken =
    ((f : Failure) × (asked ≡ err (db f)) × (taken ≡ err (db f)))
    ⊎ ((found : List A) × (rest : List A) × (left : Option Failure) × ((st t).0
          ≡ rows (found ++ rest))
        × (asked ≡ ok (found, left))
        × (taken ≡ ok found)
        × (left ≡ none → rest ≡ []))

module _ {p : Platform} (d : IsDocumented p) {A : Type 0} (clause : String)
    (st : Stmt (List A)) where
  pub next_rows-AreTaken :
      (w : p.World)
      → AreTaken st (p.snapshot clause w) (p.query_rows clause st w).0 (next_rows p clause st w).0
  unfolding next_rows
  next_rows-AreTaken w = elim (d.rows_law clause st w) [
    | inl (f, e) ↦ inl (f, e, ground (arith, e))
    | inr (found, rest, left, same, e, all) ↦
        inr (found, rest, left, same, e, ground (arith, e), all)
  ]

  pub view-next_rows : (w : p.World) → p.view (next_rows p clause st w).1 ≡ p.view w
  unfolding next_rows
  view-next_rows w = elim (d.rows_law clause st w) [
    | inl (f, e) ↦ ground (arith, e, d.rows_view clause st w)
    | inr (found, rest, left, same, e, all) ↦ ground (arith, e, d.rows_view clause st w)
  ]

  pub committed-next_rows : Keeps (SameCommitted p) (next_rows p clause st)
  committed-next_rows = record { at = λ w. ground (arith, view-next_rows w) }

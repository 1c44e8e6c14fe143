-- ===== src/Platform/Outcomes.antt =====
-- What follows from the documented behaviour for a call that has returned a value.
use identity_api.Common.{◌≡◌, inl, inr, String, arith, ◌∙◌, ap, sym}
use identity_api.Exec.{ok}
use identity_api.Platform.{Platform, IsDocumented, answer}
use identity_api.Platform.Schema.{Stmt, Tables, Reply, rows, violation}

answer-eq-ok : {A : Type 0} (r : Reply A) {a : A} → answer r ≡ ok a → r ≡ rows a
answer-eq-ok (rows b) h = ground arith
answer-eq-ok (violation c) h = ground arith

module _ {p : Platform} (d : IsDocumented p) {A : Type 0} where
  -- A statement that has returned rows has done what SQL says.
  pub exec_ok :
      (st : Stmt A) (w : p.World) (a : A)
      → (p.exec st w).0 ≡ ok a
      → ((st (p.view w).working).0 ≡ rows a)
        × (p.view (p.exec st w).1 ≡ record (p.view w) { working = (st (p.view w).working).1 })
  exec_ok st w a h = elim (d.exec_law st w) [
    | inl (f, e, _, _) ↦ cc
    | inr (e, v) ↦ (answer-eq-ok _ (sym e ∙ h), v)
  ]

  -- A statement that reads leaves what is observed alone, whatever it returns.
  pub exec_read :
      (st : Stmt A) (w : p.World)
      → (st (p.view w).working).1 ≡ (p.view w).working
      → p.view (p.exec st w).1 ≡ p.view w
  exec_read st w h = elim (d.exec_law st w) [
    | inl (f, _, _, v) ↦ v
    | inr (_, v) ↦ v ∙ ap (λ (t : Tables). record (p.view w) { working = t }) h
  ]

  pub query_ok :
      (clause : String) (st : Stmt A) (w : p.World) (a : A)
      → (p.query clause st w).0 ≡ ok a
      → (st (p.snapshot clause w)).0 ≡ rows a
  query_ok clause st w a h = elim (d.query_law clause st w) [
    | inl (f, e, _) ↦ cc
    | inr e ↦ answer-eq-ok _ (sym e ∙ h)
  ]

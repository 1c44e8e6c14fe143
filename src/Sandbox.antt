-- ===== src/Sandbox.antt =====
-- A platform that can be run: tables in memory, and no failure but those that its settings ask for.
-- The examples run the program on it, and it shows that the documented behaviour can be met.
pub mod Order
pub mod Data
pub mod Tokens
pub mod Cursors
pub mod Secrets
pub mod Files
use identity_api.Common.{
  ℕ, String, ◌≡◌, ◌≢◌, refl, inl, inr, Bool, true, false, not, List, [], ◌∷◌, ◌++◌, ◌==◌, contains,
  if◌then◌else◌, arith, Bool-cases, Option, none, subst,
}
use mathlib.Core.List.{append-nil}
use identity_api.Types.{PrefixedId}
use identity_api.Types.Errors.{Error, Failure, pq, driver, db, permission_denied, external}
use identity_api.Exec.{Result, ok, err}
use identity_api.Platform.{Platform, IsDocumented, View, Event, answer, Executed, Answered, Read}
use identity_api.Platform.Schema.{Tables, Stmt, Reply, rows, violation}
use Order.{text_before, text_before_irrefl, text_before_trans, text_before_total}

pub record World : Type 0 where
  pub view : View
  -- the resources to which access is denied
  pub denied : List PrefixedId
  pub events_down : Bool
  pub commit_down : Bool
  pub database_down : Bool
  -- the next id
  pub fresh : String

abbrev run : {A : Type 0} → Stmt A → World → Result A × World
run st w = if w.database_down then (err (db (driver 0)), w) else (
  answer (st w.view.working).0,
  record w { view = record (w.view) { working = (st w.view.working).1 } },
)

abbrev ask : {A : Type 0} → String → Stmt A → World → Result A × World
ask clause st w =
    (if w.database_down then err (db (driver 0)) else answer (st w.view.committed).0, w)

abbrev whole : {A : Type 0} → Result (List A) → Result (List A × Option Failure)
whole (ok l) = ok (l, none)
whole (err e) = err e

abbrev ask_rows :
    {A : Type 0} → String → Stmt (List A) → World → Result (List A × Option Failure) × World
ask_rows clause st w = (whole (ask clause st w).0, w)

abbrev settle : Bool → World → World → Result (Unit {0}) × World
settle down w w' = if down then (err (db (driver 1)), w) else (ok tt, w')

abbrev pub sandbox : Platform
sandbox = record {
  World = World;
  view = λ w. w.view;
  exec = run;
  query = ask;
  query_rows = ask_rows;
  snapshot = λ clause w. w.view.committed;
  begin = λ w.
      settle w.database_down w (record w { view = record (w.view) { working = w.view.committed } });
  commit = λ w.
      settle w.commit_down w (record w { view = record (w.view) { committed = w.view.working } });
  rollback = λ w. (ok tt, record w { view = record (w.view) { working = w.view.committed } });
  check_access = λ id action w. (if contains id w.denied then err permission_denied else ok tt, w);
  publish = λ e w.
      if w.events_down
      then (err (external 0), w)
      else (ok tt, record w { view = record (w.view) { published = w.view.published ++ e ∷ [] } });
  new_id = λ prefix w. (ok w.fresh, w);
  valid_id = λ s. not (s == "");
  digest = λ s. s;
  before = text_before;
}

exec_law :
    {A : Type 0} (st : Stmt A) (w : World) → Executed st w.view (run st w).0 (run st w).1.view
exec_law st w = elim (Bool-cases w.database_down) [
  | inl e ↦ inl (driver 0, ground (arith, e), ground arith, ground (arith, e))
  | inr e ↦ inr (ground (arith, e), ground (arith, e))
]

query_law : {A : Type 0} (st : Stmt A) (w : World) → Answered st w.view.committed (ask "" st w).0
query_law st w = elim (Bool-cases w.database_down) [
  | inl e ↦ inl (driver 0, ground (arith, e), ground arith)
  | inr e ↦ inr (ground (arith, e))
]

whole-answer :
    {A : Type 0} (st : Stmt (List A)) (t : Tables) (r : Reply (List A))
    → (st t).0 ≡ r
    → Read st t (whole (answer r))
whole-answer st t (rows l) e = inr (l, [], none, ground (arith, e, append-nil l), refl, λ _. refl)
whole-answer st t (violation code) e = inl (pq code, refl)

rows_law :
    {A : Type 0} (st : Stmt (List A)) (w : World) → Read st w.view.committed (ask_rows "" st w).0
rows_law st w = elim (Bool-cases w.database_down) [
  | inl e ↦ inl (driver 0, ground (arith, e))
  | inr e ↦
      subst (Read st w.view.committed) (ground (arith, e))
        (whole-answer st w.view.committed (st w.view.committed).0 refl)
]

pub sandbox-IsDocumented : IsDocumented sandbox
sandbox-IsDocumented = record {
  exec_law = exec_law;
  query_law = λ clause st w. query_law st w;
  query_view = λ clause st w. refl;
  rows_law = λ clause st w. rows_law st w;
  rows_view = λ clause st w. refl;
  snapshot_now = λ w. refl;
  begin_law = λ w. elim (Bool-cases w.database_down) [
    | inl e ↦ inl ((db (driver 1), ground (arith, e)), ground (arith, e))
    | inr e ↦ inr (ground (arith, e), ground (arith, e))
  ];
  commit_law = λ w h. ground arith;
  rollback_law = λ w. refl;
  rollback_working = λ w. inr refl;
  rollback_published = λ w. refl;
  commit_failed = λ w e h. elim (Bool-cases w.commit_down) [
    | inl down ↦ (inl (ground (arith, down)), inl (ground (arith, down)), ground (arith, down))
    | inr up ↦ ground (arith, up, h)
  ];
  check_view = λ id action w. refl;
  new_id_view = λ prefix w. refl;
  publish_law = λ e w. elim (Bool-cases w.events_down) [
    | inl down ↦ inr (
      (external 0, ground (arith, down)),
      ground (arith, down),
      ground (arith, down),
      inl (ground (arith, down)),
    )
    | inr up ↦ inl (ground (arith, up), ground (arith, up))
  ];
  before_irrefl = text_before_irrefl;
  before_trans = text_before_trans;
  before_total = text_before_total;
}

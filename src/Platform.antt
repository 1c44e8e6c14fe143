-- ===== src/Platform.antt =====
-- What the program runs on and does not implement: the database server behind `database/sql`, the
-- permissions API, the id generator and the digest, with what their documentation says of them.
pub mod Schema
pub mod Outcomes
pub mod Committed
use identity_api.Common.{
  String, ◌≡◌, ◌≢◌, ◌⊎◌, Bool, true, false, List, [], ◌∷◌, ◌++◌, ◌==◌, Option, none,
}
use identity_api.Types.{PrefixedId}
use identity_api.Types.Errors.{Error, Failure, pq, db, duplicate_key}
use identity_api.Exec.{Result, ok, err}
use Schema.{Tables, Stmt, Reply, rows, violation}

-- events.AuthRelationshipRelation of the permissions API.
pub record Relation : Type 0 where
  pub relation : String
  pub subject_id : PrefixedId

-- A request to the permissions API: topic, resource, relations.
pub data Event : Type 0 where
  create_relationships : String → PrefixedId → List Relation → Event
  delete_relationships : String → PrefixedId → List Relation → Event

-- What is observed of the world: the committed tables, the tables as the open transaction sees them,
-- and the requests that the permissions API has accepted, the oldest first.
pub record View : Type 0 where
  pub committed : Tables
  pub working : Tables
  pub published : List Event

-- The driver's error for a statement that the server refuses.
abbrev pub answer : {A : Type 0} → Reply A → Result A
answer (rows a) = ok a
answer (violation code) = err (db (pq code))

-- A statement fails for a reason of its own (connection, timeout, aborted transaction) and changes
-- nothing, or does what SQL says. Only a unique violation is reported as 23505.
abbrev pub Executed : {A : Type 0} → Stmt A → View → Result A → View → Type 0
Executed st v r v' =
    ((f : Failure) × (r ≡ err (db f)) × (f ≢ pq duplicate_key) × (v' ≡ v))
    ⊎ ((r ≡ answer (st v.working).0) × (v' ≡ record v { working = (st v.working).1 }))

abbrev pub Answered : {A : Type 0} → Stmt A → Tables → Result A → Type 0
Answered st t r =
    ((f : Failure) × (r ≡ err (db f)) × (f ≢ pq duplicate_key)) ⊎ (r ≡ answer (st t).0)

-- What the rows of a query give: it fails, or they end, at the end of what SQL says or before it. Where
-- they break off before the end, rows.Err has the failure.
abbrev pub Read : {A : Type 0} → Stmt (List A) → Tables → Result (List A × Option Failure) → Type 0
Read {A} st t r =
    ((f : Failure) × (r ≡ err (db f)))
    ⊎ ((found : List A) × (rest : List A) × (left : Option Failure) × ((st t).0
          ≡ rows (found ++ rest))
        × (r ≡ ok (found, left))
        × (left ≡ none → rest ≡ []))

pub record Platform : Type 1 where
  pub World : Type 0
  pub view : World → View
  -- tx.ExecContext, tx.QueryRowContext
  pub exec : {A : Type 0} → Stmt A → World → Result A × World
  -- db.QueryRowContext; the text is the query's AS OF SYSTEM TIME clause
  pub query : {A : Type 0} → String → Stmt A → World → Result A × World
  -- db.QueryContext: the rows for which rows.Next is true, and then rows.Err
  pub query_rows :
      {A : Type 0} → String → Stmt (List A) → World → Result (List A × Option Failure) × World
  pub snapshot : String → World → Tables
  -- db.BeginTx, tx.Commit, tx.Rollback
  pub begin : World → Result (Unit {0}) × World
  pub commit : World → Result (Unit {0}) × World
  pub rollback : World → Result (Unit {0}) × World
  -- permissions.CheckAccess, CreateAuthRelationships, DeleteAuthRelationships
  pub check_access : PrefixedId → String → World → Result (Unit {0}) × World
  pub publish : Event → World → Result (Unit {0}) × World
  -- gidx.NewID, gidx.Parse
  pub new_id : String → World → Result PrefixedId × World
  pub valid_id : String → Bool
  -- base64.RawURLEncoding of sha256.Sum256
  pub digest : String → String
  -- the order of ORDER BY and of > on VARCHAR
  pub before : String → String → Bool

-- The documented behaviour.
pub record IsDocumented (p : Platform) : Type 1 where
  pub exec_law :
      {A : Type 0} (st : Stmt A) (w : p.World)
      → Executed st (p.view w) (p.exec st w).0 (p.view (p.exec st w).1)
  pub query_law :
      {A : Type 0} (clause : String) (st : Stmt A) (w : p.World)
      → Answered st (p.snapshot clause w) (p.query clause st w).0
  pub query_view :
      {A : Type 0} (clause : String) (st : Stmt A) (w : p.World)
      → p.view (p.query clause st w).1 ≡ p.view w
  pub rows_law :
      {A : Type 0} (clause : String) (st : Stmt (List A)) (w : p.World)
      → Read st (p.snapshot clause w) (p.query_rows clause st w).0
  pub rows_view :
      {A : Type 0} (clause : String) (st : Stmt (List A)) (w : p.World)
      → p.view (p.query_rows clause st w).1 ≡ p.view w
  pub snapshot_now : (w : p.World) → p.snapshot "" w ≡ (p.view w).committed
  -- A transaction starts from the committed tables.
  pub begin_law :
      (w : p.World)
      → (((e : Error) × ((p.begin w).0 ≡ err e)) × (p.view (p.begin w).1 ≡ p.view w))
        ⊎ (((p.begin w).0 ≡ ok tt)
            × (p.view (p.begin w).1 ≡ record (p.view w) { working = (p.view w).committed }))
  -- A commit that reports success has committed what the transaction saw.
  pub commit_law :
      (w : p.World)
      → (p.commit w).0 ≡ ok tt
      → p.view (p.commit w).1 ≡ record (p.view w) { committed = (p.view w).working }
  pub rollback_law : (w : p.World) → (p.view (p.rollback w).1).committed ≡ (p.view w).committed
  -- What a transaction is left with after it has been rolled back.
  pub rollback_working :
      (w : p.World)
      → ((p.view (p.rollback w).1).working ≡ (p.view w).working)
        ⊎ ((p.view (p.rollback w).1).working ≡ (p.view w).committed)
  pub rollback_published :
      (w : p.World) → (p.view (p.rollback w).1).published ≡ (p.view w).published
  -- A commit that reports an error may have committed all the same.
  pub commit_failed :
      (w : p.World) (e : Error)
      → (p.commit w).0 ≡ err e
      → (((p.view (p.commit w).1).committed ≡ (p.view w).committed)
          ⊎ ((p.view (p.commit w).1).committed ≡ (p.view w).working))
        × (((p.view (p.commit w).1).working ≡ (p.view w).working)
            ⊎ ((p.view (p.commit w).1).working ≡ (p.view w).committed))
        × ((p.view (p.commit w).1).published ≡ (p.view w).published)
  pub check_view :
      (id : PrefixedId) (action : String) (w : p.World)
      → p.view (p.check_access id action w).1 ≡ p.view w
  pub new_id_view : (prefix : String) (w : p.World) → p.view (p.new_id prefix w).1 ≡ p.view w
  -- An accepted request is recorded; one that fails may have been accepted all the same.
  pub publish_law :
      (e : Event) (w : p.World)
      → (((p.publish e w).0 ≡ ok tt)
          × (p.view (p.publish e w).1
              ≡ record (p.view w) { published = (p.view w).published ++ e ∷ [] }))
        ⊎ (((f : Error) × ((p.publish e w).0 ≡ err f))
            × ((p.view (p.publish e w).1).committed ≡ (p.view w).committed)
            × ((p.view (p.publish e w).1).working ≡ (p.view w).working)
            × (((p.view (p.publish e w).1).published ≡ (p.view w).published)
                ⊎ ((p.view (p.publish e w).1).published ≡ (p.view w).published ++ e ∷ [])))
  pub before_irrefl : (s : String) → p.before s s ≡ false
  pub before_trans :
      (s t u : String) → p.before s t ≡ true → p.before t u ≡ true → p.before s u ≡ true
  pub before_total : (s t : String) → s ≢ t → (p.before s t ≡ true) ⊎ (p.before t s ≡ true)

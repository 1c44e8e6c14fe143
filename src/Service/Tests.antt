-- ===== src/Service/Tests.antt =====
-- The theorems on the whole service at concrete inputs.
use identity_api.Common.{
  ℕ, true, eq_iff, ◌≡◌, refl, true, none, some, [], ◌∷◌, ◌⊎◌, arith, any, keep, find?, contains,
}
use identity_api.Types.{to_v1_group}
use identity_api.Types.Errors.{Error, http}
use identity_api.Exec.{ok, err}
use identity_api.Sandbox.{World, sandbox, sandbox-IsDocumented}
use identity_api.Sandbox.Data.{start, tables}
use identity_api.Sandbox.Secrets.{hasher, draw}
use identity_api.Sandbox.Tokens.{tokens-IsOutside, expressions, tokens}
use identity_api.Sandbox.Cursors.{cursors}
use identity_api.Crypto.{generate_secure_token}
use identity_api.Storage.{with_tx, get_context_tx, begin_tx_context, commit_context_tx, query_row}
use identity_api.Storage.Groups as Storage
use identity_api.Storage.Groups.Sql.{upsert_members, clashes, insert_group_row, select_group}
use identity_api.Events
use identity_api.Http.Members
use identity_api.Events.Mirror.{granted, apply, names}
use identity_api.Http.{parse_ids, parse_id, check_access, notify, storage_middleware}
use identity_api.Http.Groups
use identity_api.Storage.Issuers.Sql as IssuersSql
use identity_api.Http.Groups.{CreateGroup}
use identity_api.Constraints.{IsConsistent}
use identity_api.Constraints.Rows.{dangles}
use identity_api.Constraints.Sound.{IsSound}
use identity_api.Service.{
  Request, Response, done, add_group_members, a_group, Outside, create_group, delete_group,
  handle_request, serve,
}
use identity_api.Service.Kept.{LeavesTables}
use identity_api.Service.Steps.{request, Reach, here, next}
use identity_api.Service.Agreement.{Agrees}
use identity_api.Service.Sync
use identity_api.Service.Sync.{Reach-Agrees}
use identity_api.Service.Sent.{
  is_plain, after_begin, after_next, finally, Sent, IsErrorHandler, respond, respond-sent,
}

abbrev outside : Outside sandbox
outside = record {
  hasher = hasher;
  token = λ n. generate_secure_token draw n;
  cel = expressions;
  codec = cursors;
  as_of = none;
}

outside-LeavesTables : LeavesTables sandbox outside
unfolding generate_secure_token
outside-LeavesTables = record { hash_view = λ s w. refl; token_view = λ n w. refl }

tables-IsConsistent : IsConsistent tables
unfolding any clashes IssuersSql.clashes dangles
tables-IsConsistent = record {
  issuers = record { apart = (refl, tt); users_apart = (refl, tt); refer = refl };
  clients = tt;
  groups = record {
    apart = (refl, (refl, tt));
    members_apart = (refl, (refl, (refl, tt)));
    refer = refl;
  };
}

start-IsSound : IsSound start.view
start-IsSound = record { committed = tables-IsConsistent; working = tables-IsConsistent }

abbrev qa_body : CreateGroup
qa_body = record { name = "qa"; description = none }

-- A group is created, and another that has a member is not deleted.
abbrev after_create : World
after_create = (handle_request sandbox outside (create_group "tnt" qa_body) start).1

abbrev after_delete : World
after_delete = (handle_request sandbox outside (delete_group "g-ops") after_create).1

reaches : Reach sandbox outside tokens start after_delete
reaches = next (next here (request (create_group "tnt" qa_body))) (request (delete_group "g-ops"))

-- echo's status of an error, where the platform's errors are none of echo's
abbrev status_of : Error → ℕ
status_of (http n) = n
status_of e = 500

abbrev first_wins : Sent → Error → Sent
first_wins none e = some (err (http (status_of e)))
first_wins (some r) e = some r

status_of_plain : (e : Error) → is_plain e ≡ true → first_wins none e ≡ some (err (http 500))
status_of_plain e h = ground arith

first_wins-IsErrorHandler : IsErrorHandler first_wins
first_wins-IsErrorHandler = record {
  sends = λ n. refl;
  sends_plain = λ e h. status_of_plain e h;
  sends_other = λ e. (status_of e, refl);
  stays = λ r e. refl;
}

abbrev failing : World
failing = record start { commit_down = true }

respond-sent_example :
    let answer = respond sandbox first_wins outside (create_group "tnt" qa_body) failing in
    let handled = serve sandbox outside with_tx (create_group "tnt" qa_body) failing in
    ((e : Error) → (sandbox.begin failing).0 ≡ err e → answer.0 ≡ some (err (http 502)))
    × ((sandbox.begin failing).0 ≡ ok tt
        → (a : Response) → handled.0 ≡ ok a
        → answer.0 ≡ some (ok a))
    × ((sandbox.begin failing).0 ≡ ok tt
        → (n : ℕ) → handled.0 ≡ err (http n)
        → answer.0 ≡ some (err (http n)))
    × ((sandbox.begin failing).0 ≡ ok tt
        → (e : Error) → handled.0 ≡ err e
        → is_plain e ≡ true
        → answer.0 ≡ some (err (http 500)))
    × ((a : Response) (e : Error)
        → (sandbox.begin failing).0 ≡ ok tt
        → handled.0 ≡ ok a
        → (sandbox.commit handled.1).0 ≡ err e
        → (answer.0 ≡ some (ok a))
          × ((answer.1.view.committed ≡ handled.1.view.committed)
              ⊎ (answer.1.view.committed ≡ handled.1.view.working))
          × (answer.1.view.published ≡ handled.1.view.published))
    × (answer.1 ≡ (handle_request sandbox outside (create_group "tnt" qa_body) failing).1)
respond-sent_example =
    respond-sent sandbox-IsDocumented first_wins-IsErrorHandler outside (create_group "tnt" qa_body)
      failing

-- The client is told that its group is created; it is not, and the permissions API has its parent.
told_too_early :
    ((respond sandbox first_wins outside (create_group "tnt" qa_body) failing).0
      ≡ some (
          ok (
            a_group
              (record { id = "g-new"; name = "qa"; owner_id = some "tnt"; description = none }))))
    × ((respond sandbox first_wins outside (create_group "tnt" qa_body) failing).1.view.committed
        ≡ tables)
unfolding respond after_begin after_next finally serve Groups.create_group parse_id check_access
    notify Storage.create_group Storage.insert_group Storage.fetch_group_by_id insert_group_row
    select_group clashes any find? Events.create_group to_v1_group get_context_tx begin_tx_context
    commit_context_tx query_row Storage.scan_group contains
told_too_early = (refl, refl)

start-Agrees : Agrees start.view
unfolding granted apply names any
start-Agrees = record {
  settled = refl;
  told =
      λ g s ne. ground (arith, eq_iff "g-ops" g, eq_iff "g-dev" g, eq_iff "ann" s, eq_iff "bob" s);
}

abbrev eve_joins : Request
eve_joins = add_group_members "g-dev" ("eve" ∷ [])

joined : (handle_request sandbox outside eve_joins start).0 ≡ ok done
unfolding handle_request serve storage_middleware Members.add_group_members parse_id parse_ids
    check_access notify Storage.add_group_members Storage.fetch_group_by_id Events.add_group_members
    Events.member_relations Events.send upsert_members select_group any find? keep contains
    get_context_tx begin_tx_context commit_context_tx query_row Storage.scan_group
joined = refl

-- Eve joins a group; then the other group, which has members, is not deleted.
abbrev after_join : World
after_join = (handle_request sandbox outside eve_joins start).1

Reach-Agrees_example :
    Agrees (handle_request sandbox outside (delete_group "g-ops") after_join).1.view
Reach-Agrees_example =
    Reach-Agrees sandbox-IsDocumented outside-LeavesTables tokens-IsOutside start-Agrees (
      Sync.next (Sync.next Sync.here (Sync.answered eve_joins done joined))
        (Sync.other (delete_group "g-ops") refl))

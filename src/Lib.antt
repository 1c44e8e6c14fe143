-- ===== src/Lib.antt =====
-- identity-api: the storage of issuers, users, groups and OAuth clients, their management over HTTP with
-- its permission events, paginated listings, and the grants that issue tokens.
--
-- Files and the code that they are about:
--   Types         internal/types: groups, errors (Errors), users and claims (Users), issuers with
--                 their claim mappings and conditions (Issuers), over CEL as a parameter, and OAuth
--                 clients (Clients)
--   Exec          Go functions that touch the outside world and return a value or an error: the
--                 world comes back beside either. Exec/Pure is the same without a world.
--   Platform      what the code uses and does not contain: the SQL database, the permissions API and
--                 its NATS events, gidx and SHA-256. Platform/Schema has the tables of
--                 internal/storage/migrations; a statement is a function on the tables.
--   Sandbox       a platform that can be run, on which the examples run; Sandbox/Tokens is a token
--                 library and an expression language that can be run
--   Storage       internal/storage/context.go; Storage/Groups groups.go, Storage/Issuers issuer.go
--                 and query.go, Storage/Users userinfo.go, Storage/Clients oauth_client.go, Storage/Diff
--                 helpers.go, Storage/Seed the seeding in data.go, engine.go and issuer.go. In each,
--                 Sql has the statements and the file itself has the operations. Storage/Listing has
--                 the paginated listings of them all.
--   Paging        internal/crdbx and the paginate files of pkg/api/v1: cursors and Paginate (Paging),
--                 the clauses as text (Clauses), what a query with them answers and SetPagination
--                 (Page); Walk: a client that follows the cursors
--   Events        internal/events/groups_event.go; Events/Mirror: the memberships that the events,
--                 taken in order, have granted
--   Http          internal/api/httpsrv: handler.go (the middleware), handler_group.go (Groups),
--                 handler_group_members.go (Members), handler_issuer.go and handle_user.go (Issuers),
--                 handler_oauth_client.go (Clients); Listing has the handlers of collections
--   Userinfo      internal/userinfo/handler.go
--   Exchange      internal/rfc8693 and internal/jwks: rfc8693.go (Exchange, Exchange/Keys), claims.go
--                 (Exchange/Mapping), the response (Exchange/Response); Exchange/Stored: what the
--                 stored issuer says of a token
--   Credentials   internal/oauth2/flow_client_credentials.go
--   Signing       internal/fositex/fosite.go: the keys that sign tokens; Crypto is internal/crypto
--   Routes        internal/routes: jwks.go and oidc.go (Routes), exchange.go with
--                 internal/auditx (Token), routes.go with the skippers of cmd/serve.go (Skips)
--   Invariant     what an invariant of the tables and of the accepted requests has to allow
--                 (Invariant/Statements), and that every operation then keeps it: of storage
--                 (Services), the handlers (Handlers, Listings), exchanges and seeding (Exchanges)
--   Constraints   the constraints of internal/storage/migrations, as predicates on the tables
--                 (Constraints/Rows on lists of rows); what each statement does to them (Groups,
--                 Issuers, Users, Clients); Sound makes them an Invariant
--   Service       internal/api/httpsrv/server.gen.go: requests, and how they reach the handlers;
--                 Service/Kept: what a request keeps; Service/Steps: worlds that sequences of
--                 requests lead to; Service/Agreement and Sync: memberships that the permissions
--                 API was told of; Service/Sent: what handler.go and the strict handler write to
--                 the client, and when
--
-- How the parts interact: the middleware begins a transaction and puts it in the context; a handler
-- calls the storage, which runs statements in that transaction, and the events; the middleware
-- commits or rolls back. The token exchange begins and ends its own transaction.
--
-- Platform is a record of functions on an unspecified world, of which three things are observed: the
-- committed tables, the tables as the transaction sees them, and the relationship requests that the
-- permissions API has accepted. IsDocumented says what is relied on: a statement fails for a reason
-- of its own and changes nothing, or does what SQL says; a transaction starts from the committed
-- tables, as under serializable isolation, and its commit makes its tables the committed ones;
-- reading changes nothing. The rows of a query may break off, which only rows.Err tells. A commit that
-- fails may have been made all the same.
-- Any call may fail. Other sessions do not appear. The token library
-- (Jwt, with IsStandard and IsOutside) and CEL (Cel, with RoundTrips) are treated alike.
--
-- Errors are values; their texts are not modelled, only the identity or the HTTP status that the
-- code decides by: `http` is an echo.HTTPError, `with_status` an errorWithStatus, which Echo does
-- not know. A map is an association list, and a loop over it goes in the list's order. A failed
-- type assertion and a write to a nil map are the error panic. The rows of a query that orders by
-- nothing come as the table has them. base64, url.Values, bcrypt, strconv.Atoi, jose and random
-- runes are parameters.
--
-- The code has no loop without a bound. The definitions with fuel are the clients that follow
-- cursors (Paging/Walk). They get one page more than there are rows, which is enough, since each
-- page but the last shows a row.
--
-- Not modelled: tracing and logging, the reading of bodies and writing of JSON in the generated
-- API, start-up and configuration, the wiring of fosite's provider, and the NATS client.
pub mod Common
pub mod Constraints
pub mod Invariant
pub mod Service
pub mod Types
pub mod Exec
pub mod Platform
pub mod Sandbox
pub mod Storage
pub mod Events
pub mod Http
pub mod Paging
pub mod Exchange
pub mod Credentials
pub mod Userinfo
pub mod Signing
pub mod Routes
pub mod Crypto

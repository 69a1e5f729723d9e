-- ===== src/Lib.antt =====
-- A verification library for Urbino, a gateway for language models: its domain types, its
-- authentication, its storage in PostgreSQL, its management API, its database migrations and its
-- configuration. The paths below are those of the repository.
--
-- The parts and their files:
--   Base        what the others share: tests on numbers, lists, integers and int64 with its wrap-around,
--               text as lists of bytes, white space and letter case, decimal numbers, maps, results
--   Domain      internal/domain. State: the state machines of state.go; Money: money.go; Uuid:
--               identity.go; Scopes and Usage: types.go
--   Auth        internal/auth. Credential, Keys, Cache, Limiter and Headers: auth.go and admin.go;
--               Service: service.go, with Public and Admin for the calls and Steps for their sequences
--   Storage     internal/storage/postgres. Errors and Tx: postgres.go; Database: the tables of migrations
--               and their statements; Audit, Tenants, TenantPages, ApiKeys, KeyReads, AdminTokens and
--               Mutation: identity.go; Authenticator: authenticator.go; Operations: the transaction of
--               internal/ports/admin.go
--   Http        internal/httpapi. Errors: errors.go with internal/domain/error.go, and adminErrorStatus;
--               Middleware: auth.go; Json, Parsing, Admin, Handlers and Routes: admin.go
--   Migrate     internal/storage/migrate/runner.go: the check of the history and the run
--   Config      internal/config: config.go and path.go
-- A request on a listener is parsed by Auth.Headers, its credential is split by Auth.Credential, and
-- Auth.Service finds the record and verifies it by Auth.Keys; identities, scopes and their checks come
-- from Domain. On the listener of the administrators the middleware of Http.Middleware asks the limiter
-- of Auth.Limiter and an authenticator, require of Http.Admin asks for the scope, and a handler of
-- Http.Handlers runs one mutation of Storage.Mutation, whose statements are those of Storage.Operations.
--
-- How the code is read:
--   * Text is the list of its bytes. Upper and lower case beyond ASCII are modelled as far as a
--     comparison with an ASCII text can tell.
--   * An int64 is an integer in range, an unsigned one a natural number; the wrap-around is written out.
--   * An instant is the number of nanoseconds since Go's zero time. Each reading of the clock is an
--     argument, as are the bytes that the random source gives; HMAC-SHA-256 is a parameter, with
--     results of 32 bytes where that matters.
--     Times in the rows of the tables are cut to whole microseconds where they are written, as
--     TIMESTAMPTZ columns keep no more.
--   * A map is an association list with one entry for a key. Where the code ranges over a map, the
--     list gives one of the orders in which it may do so.
--   * An error is a constructor, without its text. A call that changes state returns the new state.
--   * A call of the service, the cache or the limiter is one step: the state that a lock protects is
--     changed by one call at a time. The revocation backend and the database are states of their own
--     whose calls may fail; what a backend loses by the passing of time, under the times to live that it
--     is given, is a function of its state; the scripts of the migrations and the file system are parameters.
--   * A table is the list of its rows. A transaction maps the tables to an error or to the tables after
--     it; a session gives every statement a fault or none, a connection gives the outcome of the begin,
--     of the commit, whose response may be lost after it was durable or before, and of the probe.
--     The commit of a migration, too, may be durable and still give an error.
--     Transactions run one after the other, as the rows that they lock make them do.
--   * SHA-256, the encoder, the tokenizer and the decoder of encoding/json, the text of a cursor, and the
--     parser of times are parameters of the handlers. A route is the one whose path the mux has found.
--   * Loops are structural recursion over the list that the code ranges over. The scan of a JSON body
--     recurses on fuel, twice the number of its tokens plus one: a value takes one step and at least one
--     token, and so does a member or an item.
--   * Receivers and interfaces that are nil are left out, as are loggers, whose output decides nothing.
--
-- Not modelled: files and their permissions (secret and DSN files), the decoding of YAML and JSON, the
-- health probes and the listeners of internal/httpapi, the opening of the pool, the fixtures for
-- projects, users and members and the bootstrap command of internal/storage/postgres, the command line,
-- and generated code.
pub mod Base
pub mod Domain
pub mod Auth
pub mod Migrate
pub mod Storage
pub mod Http
pub mod Config

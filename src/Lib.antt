-- ===== src/Lib.antt =====
-- restest: a service of mock HTTP endpoints. A signed-in user keeps projects, endpoints,
-- collections and tokens in a database; a client asks for /m/{slug}/... and is answered from an
-- in-memory table of routes that is rebuilt from the database whenever it changes. This library
-- models the program's own decisions and proves what they promise.
--
-- Texts are Go strings as lists of their bytes (Base/Text); a Go map with string keys is an
-- association list (Base/Maps). Machine integers are natural numbers where the code keeps them
-- small and non-negative. A pointer that is nil or not is an Option, or a constructor of its own.
--
-- The parts, and the files that model them:
--
--   Base            shared names: lists, bytes, maps, the split at a byte, insertion sort as the
--                   reference of Go's sorts, UTF-8 decoding to runes
--   Fields          internal/core/errors.go: the errors of a form, field by field
--   Paths           internal/core/validate.go: the segments, the normal form, the parameters and the
--                   validation of a path pattern
--   Forms           internal/core/validate.go: the checks of every other field of a form; Forms/Pattern
--                   has the regular expressions as a matcher and as a language
--   Database        migrations/00001_init.sql: the tables, as records and lists of rows, and what a
--                   statement answers; Database/Rows finds, updates and deletes rows by a test,
--                   Database/Apart is about unique indexes, Database/Narrow about int16 and int32
--   Endpoints       internal/core/endpoint.go: the input of an endpoint, the operations on endpoints and
--                   the data of the route table; Endpoints/Accepted says what the normalisation
--                   accepts, Endpoints/Stored and Endpoints/Constraints compare it with the table,
--                   Endpoints/Isolation is about other accounts, Endpoints/Served about requests
--   Projects        internal/core/project.go and internal/core/dataset.go: the operations on projects
--   Accounts        internal/core/user.go, token.go and password.go: registration, login, API tokens
--   Store           the operations of Endpoints, Collections/Store and Projects as steps on one
--                   database, and the invariant that they keep
--   ClientIp        internal/web/clientip.go: the address that a request is attributed to
--   Ratelimit       internal/ratelimit/ratelimit.go: a bounded table of token buckets; Ratelimit/Guard
--                   is limitMock of internal/web/ratelimit.go
--   Collections     internal/core/collection.go: the documents that a seed gives and their identifiers;
--                   Collections/Store and Collections/Create are the operations on collections
--   Documents       internal/core/document.go: a collection of documents under the requests that change
--                   it, with ResetCollection of collection.go; Documents/Listing is the query
--                   string of a listing and the pages that answer it
--   Handler         internal/web/mock.go and documents.go: what is written to a request below /m/, by
--                   way of Mock/Table and Documents; Handler/Safe is about the methods that only read,
--                   Handler/Answers about the form of every answer
--   Partition       internal/core/partition.go: the names of the monthly partitions and their expiry
--   Exchanges       internal/core/exchange.go: what is kept of a request and its response
--   Recorder        internal/core/recorder.go: the queue and the batches of exchanges to be logged, as
--                   steps that handlers and recorder take in any order
--   Mock            internal/mock: Mock/Route (mock.go) expands a row to routes; Mock/Trie (trie.go)
--                   inserts them and walks; Mock/Request decodes the path of a request; Mock/Nearest
--                   (nearest.go) ranks suggestions; Mock/Table (table.go) builds the table of all
--                   projects and looks a request up; Mock/Router (router.go) reloads it. Below
--                   Mock/Trie, and in Mock/Matching, Mock/Serves, Mock/Build, Mock/Lookup and
--                   Mock/Params, are the proofs, from the shape of a trie to the outcome of a
--                   request in terms of the rows.
--
-- A statement of internal/core/queries is a function on the tables: it picks rows by the conditions
-- of the query, its joins included, and answers the row, no row, the violation of a unique index or
-- of a check, or the refusal of a text. Texts are in the order of their bytes, as under the
-- collation C. The uuid and the time that the database makes are arguments. Deletes cascade as the
-- foreign keys say. The type Outcome has the errors that callers tell apart; every other error is
-- `internal`. An operation that takes two transactions, such as the creation of a collection,
-- leaves what the first one did. Statements on one database are taken one after the other.
--
-- The statements of document.go run in the database too; Documents models what they do to the rows
-- of one collection: the order of insertion, the unique index, the merge of two objects, and an
-- allocation that stays though the insert behind it fails. Requests to one collection are taken one
-- after the other.
--
-- Libraries that are not part of the repository are parameters: ClientIp.Netip for net and
-- net/netip, Exchanges/Cursor's UuidLibrary for github.com/google/uuid, Ratelimit.RateLibrary for
-- golang.org/x/time/rate, Accounts/Password's Hashing for golang.org/x/crypto/argon2 with base64,
-- Accounts' TokenLibrary for the digest and the encoding of tokens and for the time some days later
-- (AddDate), Forms/Collection's JsonLibrary for encoding/json, Handler's HttpLibrary for the
-- spelling of a header, path escapes and the guess of a content type, Documents/Listing's JsonOps
-- for encoding/json, strconv, the order and containment of jsonb and the texts that the database
-- takes, and a function for net/mail. The theorems hold for all of them; the tests have an instance
-- of each.
--
-- Concurrency is interleaving: the recorder is a step relation, in which a handler records, or the
-- goroutine takes an exchange, ticks, or takes one of the steps of its end: the context is over, an
-- exchange is drained, the queue is found empty, the rest is written and reported. The handlers go
-- on recording between all of these and after the last one. A write and the report behind it are
-- one step, since Record does not see the batch: one that falls into the write has the same effect
-- as one just before it, and one behind the reading of the counters as one after the step. A lock
-- around a limiter or a table makes each call one step. Whether a write or a load succeeds is an
-- argument of the step.
--
-- A seed is modelled as it is decoded: entries are objects, null or something else, and a value
-- keeps the source text of a number. The search for a free identifier has as many rounds as
-- identifiers are taken, which is enough since the numbers it tries are distinct.
--
-- A collection of the database meets the matcher in `expand`: one row gives six routes, and the id
-- of a document is one more parameter. The validation meets it in `zip`: the trie asks only for
-- braces at the ends of a segment, the validation for a whole name.
--
-- Loops are structural recursion; the functions on fuel are few: the digits of a number, with more
-- than its value; the search for a free identifier; and the trimming of white space, which takes as
-- many rounds as there are bytes, and each round removes one at least. `walk` is recursion on the
-- segments that are left, in place of the index `depth`.
--
-- The data of the database meet the route table in Endpoints/Served: an endpoint that is created
-- is, after the table is built anew, what a request is answered from. The columns of small integers
-- are compared with the Go ints in Endpoints/Stored. A text is stored as its bytes. What PostgreSQL
-- refuses in a text, a zero byte or what is not UTF-8, is modelled where an endpoint is written
-- (takes_texts); a header value that is not UTF-8 is stored as it is, where encoding/json puts the
-- replacement character, and the texts of projects, collections and accounts are taken to be such
-- as the database takes.
--
-- The handler of mock requests meets the matcher and the documents in Handler: the op of the
-- matched route picks the request to the collection. A client that leaves during a delay or stops
-- sending is an argument. The headers of an endpoint are set in the order of a list, whose names
-- differ in their canonical spelling.
--
-- Not modelled: the HTTP transport, the texts of messages, the pages and the handlers of the
-- management API, sessions, the demo project, the queries of the log, the code generated from SQL,
-- logging, metrics, configuration and start-up. They move data between libraries, or have rules of
-- their own that no file here speaks of.
pub mod Base
pub mod Fields
pub mod Paths
pub mod Forms
pub mod Database
pub mod Endpoints
pub mod Projects
pub mod Accounts
pub mod Store
pub mod Mock
pub mod ClientIp
pub mod Ratelimit
pub mod Recorder
pub mod Collections
pub mod Exchanges
pub mod Documents
pub mod Partition
pub mod Handler

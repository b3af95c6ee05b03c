-- ===== src/Lib.antt =====
-- A blog service in Go: users, subscriptions, posts, and a feed of the posts of those one follows.
--
-- A request passes internal/middleware and a handler of internal/handles, which calls a service of
-- internal/services; the services call the repositories of internal/repositories, which run the
-- statements of internal/database, partly behind the caches of internal/cache. Publishing or removing
-- a post adds an event to the table `outbox`; internal/processors fetches the events in the
-- background and writes the feeds of the author's followers.
--
-- Files and sources:
--   Errs            internal/errs/errs.go, the sentinels of the services, `errors.Is` and `errors.As`
--   Action          methods with shared state and errors: laws, invariants, what a success ensures
--   Models          internal/webModels
--   Database        internal/database/models.go, db.go; Users, Tokens, Posts, Outbox: its *.sql.go with
--                   the constraints of migrations/*.sql
--   Cache           the interfaces of internal/cache; Feed, Posts and Subs (feedCacher.go, postCacher.go,
--                   subsCacher.go)
--   Repositories    the interfaces of internal/repositories; Users (userRepository.go), Tokens
--                   (tokenRepository.go), Transaction (transactionHelper.go), Posts
--                   (postRepository.go), Accounts (what the first two keep), PostCache and
--                   UserCache (postCacheWrapper.go, userCacheWrapper.go)
--   Services        internal/services; Auth (authService.go), Users (userAccessService.go), Posts
--                   (postService.go), Feed (feedService.go)
--   Processors      internal/processors; Backoff (backoff.go), Events (postEventsProcessor.go)
--   Middleware      internal/middleware; Responses (errorMiddleware.go), Jwt (jwtMiddleware.go)
--   Handles         internal/handles; Errors (errorProcessors.go), Context
--                   (contextValuesExtraction.go), Pagination (postsPagination.go), Auth, Posts, Feed
--                   and Users (authHandler.go, postHandle.go, feedHandle.go, userHandle.go)
--   Routes          internal/routes/routes.go; World (the application over one state), Outbox (the event
--                   processor over it), Followers (the follower lists in Redis and the table)
--   Startup         main.go and internal/db (Process), config/config.go (Config),
--                   internal/telemetry/setup.go (Telemetry)
--   WorkPool        workpool/workpool.go
--   Tests           runs on small inputs
-- A function has its Go name in lower case with underscores: `RotateJWT` is `rotate_jwt`.
--
-- How the state is modelled. A method is an action: a function from the state to its result and the new
-- state, where an error keeps what was written before it. The services and the wrappers work over any
-- state, with the repositories and caches as records of actions; the repositories work over `Db`, the
-- tables with, for every call, what the network does to it (`faults`: the server answers, is not
-- reached, or runs the statement and its answer is lost) and what the server draws (`stamps`): an
-- identifier, the time, and the order of rows that a statement leaves open. So a
-- theorem for all `Db` is one for all failures of the database at every call. A transaction has a view
-- of the tables beside the committed ones. The loop of the consumer is a run over the signals that its
-- `select` receives, the worker pool a step relation; no loop of the code needs fuel, and the width of a
-- decimal is searched up to the 19 digits of an int64.
--
-- Numbers. An identifier is the number of its 16 bytes, a time the nanoseconds since 1970; an `int` and
-- a `time.Duration` are 64-bit words, written out where the code can overflow them, an `int32` a 32-bit
-- word. The text of a wrapped error keeps its message and drops the values printed in it.
--
-- Parameters. uuid.UUID's text form, the clock, uuid.New, argon2id, the JWT library, the client of
-- Redis, gin's choice of a route, JSON, base64, the validator and strings.ToLower are arguments of the
-- definitions that use them; what a theorem needs of them is a hypothesis of it.
--
-- The start and the end of the program run over a host with a journal of what was opened and closed and an
-- answer for every call of a library.
--
-- Not modelled: the options of the HTTP server and of telemetry, the swagger route, the generated docs, the
-- migration runner, and the enums' Scan and Value, which are glue of the driver. Requests run one after
-- the other, with singleflight as a plain call; logs and spans have no effect.
pub mod Prelude
pub mod Errs
pub mod Action
pub mod Models
pub mod Cache
pub mod Database
pub mod Repositories
pub mod Services
pub mod Processors
pub mod Middleware
pub mod Handles
pub mod WorkPool
pub mod Routes
pub mod Startup
pub mod Tests

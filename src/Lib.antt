-- ===== src/Lib.antt =====
-- The control plane of shiro-distributed-system: an HTTP service that stores events in Cassandra,
-- publishes them to NATS through an outbox, and guards itself with limiters and circuit breakers.
-- This library models the parts of it that keep state or decide something, after the Go sources.
--
-- How the parts interact. A request to publish is admitted by the guard of failed authentications,
-- the tokens of its scope and the limiters; its event is appended to the store once for each
-- idempotency key, with a row in the outbox; then it is published to the bus with retries, behind the
-- breaker of the bus, and marked as published. What fails stays in the outbox: the relay polls it,
-- claims a lease for each event, publishes it and marks it, or reports the failure, which sets the
-- next attempt by a backoff and in the end makes the event a dead letter, which may be replayed.
--
-- Files and code:
--   Breaker        circuitBreaker of internal/core/app.go
--   AuthGuard      authFailureGuard of internal/core/app.go
--   IpLimiter      ipRateLimiter of internal/core/app.go
--   SubjectLimiter subjectRateLimiter of internal/core/app.go
--   Limiter        the token bucket of golang.org/x/time/rate, a parameter
--   Access         secure, bearerToken and contains of internal/core/app.go
--   Publish        busPublish, publishWithRetry and the store's wrappers of internal/core/app.go
--   Relay          relayOutboxBatch, claimOutboxLease, recordOutboxFailure of internal/core/app.go
--   Handler        handlePublishEvent and validatePublishRequest of internal/core/app.go
--   Admin          the handlers of dead letters, of the relay's pause and of the list of events of
--                  internal/core/app.go
--   Stream         handleStream of internal/core/app.go
--   Loops          runOutboxRelay and runCleanupLoop of internal/core/app.go
--   Lifecycle      startModuleWithRetry, Run and the status handlers of internal/core/app.go
--   Middleware     the middleware of internal/core/app.go
--   App            New and the routes of internal/core/app.go; internal/telemetry/otel.go and
--                  cmd/controlplane/main.go
--   Coordinator    internal/modules/etcdcoord/module.go, as a step relation
--   Nats           internal/modules/natsbus/module.go
--   Tls            internal/security/tls.go
--   System         the store of Cass as the application's store, the nodes over one cluster, and a node
--                  as it is wired with the bus of Nats (Wired)
--   Config         internal/config/config.go: the record, Parse the parsers, Env FromEnv, Validate
--                  the validation and Rules what it guarantees
--   Contracts, Interfaces
--                  the records and the interfaces of internal/modules/contracts.go
--   Cass           internal/modules/cassstore/module.go: Tables has the tables, Driver the session,
--                  Append, Outbox, Backoff, Inbox, DeadLetters and Cleanup the methods, Connect the
--                  start and the stop, Calls the sequences of calls by any clients
--   Monad          calls that change a state and may return an error
--   Common, GoMax  what the others share: tests, lists, 64-bit integers, texts, numerals, keys,
--                  maps; `max`
--   Examples       the theorems at concrete inputs
--
-- How the code is modelled. A method is a function from the state to what it returns and the new
-- state, what it changed before an error included; a mutex makes a method one step. A reading of
-- `time.Now` is an argument, or a function of the number of the reading where a method reads it more
-- than once. Times and durations are nanoseconds: times count from Go's zero time and are natural
-- numbers; the backoff and the waits between attempts are 64-bit integers whose products and sums wrap.
-- Counters of failures are unbounded. A Go map is an association list, whose order stands for the
-- order in which Go ranges over it. A string is a list of code points; ToLower is modelled on ASCII.
--
-- Cassandra and gocql are a parameter (Cass/Driver): a session runs a SELECT as a function of the
-- tables, and a write as a change of them, whole or not at all, also when it reports an error. Each
-- statement is atomic; the calls of different clients are sequences of whole calls. A table is a list
-- of rows by primary key in clustering order; the constant column `bucket` is left out, and times keep
-- their nanoseconds, which Cassandra rounds to milliseconds. Whether gocql's ScanCAS finds as many
-- destinations as a refused insert returns columns is left open: the laws of a session allow that call
-- to fail. The broker, the timers and the context's end are the parameters of Interfaces.
--
-- What runs concurrently is a sequence of turns or a step relation in which any part may move next:
-- the election, the observer and the stop of the coordinator, one atomic store at a time; the callback
-- and the loop of a stream; the relay's loop, which goes through a batch event by event, the
-- administrators and the rest of the world. The relay looks at the pause only when a tick comes, so that
-- a pause within an event is one before it. A request
-- of HTTP is its method, its path, its query and its headers as functions of their names; a middleware
-- is a function from a handler to a handler that passes the headers on, and a panic is an outcome. The
-- clients of NATS and of etcd, http.TimeoutHandler, the files of TLS and the exporter of OpenTelemetry
-- are parameters.
--
-- Not modelled: the sockets and the encoding of net/http, metrics, traces, logs and latencies, the
-- audit log, the intervals of the tickers, and what the bodies of error responses say. Configuring
-- CQL consistency and timeouts, and the text of the CQL statements, are left to what they do.
--
-- All loops are over lists or over a number of attempts that is known before the loop; only the
-- printing of a numeral takes fuel, one more than the number, which its round trip shows to be enough.
pub mod Common
pub mod GoMax
pub mod Breaker
pub mod AuthGuard
pub mod Limiter
pub mod IpLimiter
pub mod SubjectLimiter
pub mod Contracts
pub mod Monad
pub mod Cass
pub mod Interfaces
pub mod Publish
pub mod Access
pub mod Relay
pub mod Config
pub mod Handler
pub mod Coordinator
pub mod System
pub mod Admin
pub mod Stream
pub mod Loops
pub mod Lifecycle
pub mod Middleware
pub mod Tls
pub mod Nats
pub mod App
pub mod Examples

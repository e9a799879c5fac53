-- ===== src/Lib.antt =====
-- Go Platform: the request road of a gateway module, and its control plane.
--
-- A module of the gateway answers HTTP requests over a PostgreSQL database whose functions of schema
-- api carry the business. A request passes a bearer check (lib/auth/jwt), its handler reads the
-- parameters of a list (lib/query, lib/entity) or a body, and runs its calls in one transaction
-- (lib/pgtx), on one of two roads; lib/rest repeats the conventions of /api/v2 over that transaction;
-- a refusal of any part is a problem (lib/problem). Beside it, lib/gatewayclient keeps the
-- instance registered at the gateway with frames (lib/gateway/frame) and tells it the load.
--
-- Files, by the code they are about:
-- - Base: Go strings as their bytes, maps as association lists with distinct keys, lists, integers.
--   Base/Uuid has the two tests of a UUID (lib/rest/rest.go, lib/gateway/frame/frame.go).
-- - Problem: lib/problem/problem.go. The regular expression of a catalogue message is a matcher.
-- - Query: lib/query/query.go, `Parse` by its loop over the sorted names.
-- - Search: lib/entity/search.go; Search/Like says what LIKE means, Search/Meaning what the array does.
-- - Jwt: lib/auth/jwt/jwt.go. Base64, JSON and the MAC are the record `Codec`.
-- - Frame: lib/gateway/frame/frame.go. JSON is a reader and a writer of the wire record.
-- - Pgtx/Features, Pgtx/Explain, Pgtx/Direct: lib/pgtx/pgtx.go; Pgtx/Call: lib/pgtx/call.go.
-- - Pgtx/Daemon: lib/pgtx/daemon.go, with the parts of Pgtx/Explain that it shares.
-- - Pgtx/Doer: the interface `Doer` of lib/rest/rest.go, filled by both roads of `(*Runner).Do`.
-- - Rest/Idempotency, Rest/Row, Rest/Handler, Rest/Read: lib/rest/rest.go; Rest/Writable:
--   lib/rest/writable.go; Rest/Access: lib/rest/access.go. Their handlers take a `Doer`.
-- - Admin/Users: admin/users.go; Registry: registry/registry.go. Their handlers are over the same `Doer`.
-- - Host/Compose, Host/Serve: `New` and `ServeHTTP` of module.go, with the mux as a parameter.
-- - Host/Address, Host/Prefixes: module.go. The addresses of net/netip are the record `Netip`.
-- - Gateway/Load: lib/gatewayclient/load.go, by the steps of its goroutines.
-- - Gateway/Status: what a session tells the gateway of the state (lib/gatewayclient/client.go and
--   session.go), by the steps of `runSession`, `SetOverloaded`, `syncStatus` and `drain`.
-- - Gateway/Session: lib/gatewayclient/session.go, `runSession`, `loop` and `endError`; Session/Calls has
--   `call` and `reader`, Session/Commands has `handle`.
-- - Gateway/Client: lib/gatewayclient/client.go, `New`, `DefaultReconnect` and `Run`.
-- - Rest/Many: `List` and `CallRowsOf` of lib/rest/rest.go, and the calls of lib/pgtx/call.go behind them.
-- - Entity: the routes of lib/entity/entity.go; Object: entity/object/object.go. They take a `Doer` too.
--
-- State and errors: a transaction is a function on the committed work and the journal; each statement
-- may fail, as a field of `Env` says, and what is not committed is not there (a commit that is
-- reported lost counts as lost). A Go error is what `errors.As` finds in its chain, and a chain holds
-- one kind of error that the code looks for. Handlers return an error with the work that they had
-- done, so that a rollback is visible.
-- Requests are served one after another in Rest/Idempotency: two POSTs under one key at the same time
-- both miss the store and both run, as in the source, and are not modelled. In Gateway/Load and
-- Gateway/Status the goroutines interleave at each atomic access; Gateway/Status has one session, since
-- a client has one at a time and each has a `said` and a `draining` of its own; what was sent is the
-- words of /status, without /unregister, heartbeats and answers.
-- A function that waits for what may never come, as `endError` does, returns `none` where it waits on.
-- Bounds: numbers are natural numbers; the range of a 64-bit int is written out where `strconv` reads
-- one; the capacity of Gateway/Load is a natural number, where the source stores an int32, which `New`
-- checks and a /reload does not. Times are milliseconds, and a jitter of up to a fifth is a number per
-- mille. `Run` and `loop` are functions of the turns that they meet. No definition needs fuel but the
-- decimal text of a number, whose fuel is the number plus one, more than its digits.
-- Not modelled: the network, the pool, timeouts and logging, which carry no logic of the program;
-- `Detect` and `NewPool`, which talk to the driver; the poll and the deadline of a drain; the path of a
-- registry key; the packages of the workflow, the other collections of the administration and the
-- resources, whose handlers are calls of the parts above; the OpenAPI documents; the test doubles.
pub mod Admin
pub mod Base
pub mod Problem
pub mod Query
pub mod Search
pub mod Jwt
pub mod Frame
pub mod Pgtx
pub mod Rest
pub mod Entity
pub mod Object
pub mod Registry
pub mod Gateway
pub mod Host

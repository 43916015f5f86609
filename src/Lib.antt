-- ===== src/Lib.antt =====
-- The terminal client of wootty (apps/web/src/features/terminal), the browser's side of a terminal
-- that a server runs. A WebSocket carries typed input and sizes one way, and output the other way.
-- The transport opens the socket, watches it with a heartbeat, and opens it again after a loss;
-- input that it cannot send waits in an outbox; failures are announced to the user, throttled.
--
-- - Base: helpers that all modules share. A text is the list of its UTF-16 code units; a number of
--   the program is a native natural number where it is a count, a byte size, a time in
--   milliseconds or a handle, an integer for a latency, and `Number` for what a terminal may
--   report as a size.
-- - Outbox: lib/terminal-outbox.ts and utf8ByteLength of lib/terminal-format.ts. Methods that
--   change the outbox return the new record. Outbox/View has the waiting chunks as an abstract
--   queue, Outbox/Evict, Outbox/Enqueue, Outbox/Flush and Outbox/Rounds are about the loops.
-- - Backpressure: app/engine/runtime/connection-input-backpressure.ts. The hook's refs and React
--   state are one record, `sendNow` is a function over the state of the connection.
-- - Throttle: shared/reliability/failure-notice-throttle.ts.
-- - Protocol: protocol/terminal-client-messages.ts, and in Protocol/ServerMessages
--   protocol/terminal-protocol.ts with `JSON.parse` as a parameter.
-- - Gateway: app/engine/protocol and protocol/policies/server-error-policy.ts. What the gateway
--   calls is a list in the order of the calls.
-- - Sanitization: shared/sanitization. `URL` is the parameter `UrlApi`; the regular expressions
--   are scanners that go through the text once. Sanitization/Copying and Sanitization/Secrecy are
--   about the scanner on two texts that differ in a token.
-- - Endpoints: bootstrap/url, bootstrap/backend-endpoint-resolver.ts and, in Endpoints/Auth,
--   bootstrap/auth-bootstrap.ts. `UrlParts` has what they use of `URL` besides `UrlApi`,
--   `SearchParams` is `URLSearchParams`; a run of the exchange is its outcome, its requests and
--   the address for the history.
-- - UserNotice: notifications/user-notice.ts with formatters and mappers of the same folder.
-- - Coordinator: app/engine/connection-coordinator.ts, the handlers over Gateway, UserNotice and
--   Adapters; in Coordinator/Effects what its effects tell the transport, with the values that
--   they depend on by rendering.
-- - Adapters: adapters/browser-transport.ts and, in Adapters/Events,
--   transport-event-normalizer.ts. A wrapper that is made of a listener is a new function and has
--   a number of its own.
-- - Session: session/domain/session-candidates.ts, and in Session/History pushSessionHistory of
--   session/persistence/session-storage.ts and session/application/session-refresh-policy.ts. In
--   Session/Payload the lists of sessions that a server answers (session/protocol).
-- - Refresh: session/application/session-refresh-coordinator.ts. The refs of the hook and the
--   requests that run are one record; a request has its race, its continuation and its `finally`
--   as separate steps, since other code runs between them. Refresh/Order has the steps of
--   overlapping requests, and Refresh/Guarantees what holds in every state that they reach.
-- - Polling: session/application/bindings/session-refresh-binding.ts and
--   session-refresh-result.ts. The variables of the effect, the scheduler's timers and the request
--   that runs are one record. Polling/Shape has the steps and the few forms that the states have.
-- - Persistence: session/persistence and session/application/session-persistence.ts, with the
--   browser's storage and `JSON` as the parameter `StorageApi`; what a storage holds is a state of
--   its own.
-- - Notices: notifications/mappers/session-refresh-failure-notice.ts and
--   session/application/session-notice-channel.ts.
-- - Orchestrator: session/application/session-orchestrator.ts, the hook that puts persistence, the
--   notice channel and the refreshes together. `formatNotice` is a parameter.
-- - Runtime: app/engine/runtime/runtime-orchestrator.ts, with xterm's terminal by the run of the
--   effect that created it and by the rows of its buffer; the subscription of its input is left
--   out.
-- - IoBridge: app/engine/runtime/connection-runtime-io-bridge.ts, over Backpressure and Runtime.
--   Once it is there the terminal stays.
-- - Client: bootstrap/sessions-client.ts, with what `fetch` answers as data.
-- - FontSize: app/preferences/font-size-preferences.ts and preferences/font-size-policy.ts.
-- - Transport: app/engine/transport. Contracts, State, Policy, ClosePlan, Bootstrap, Heartbeat,
--   Reporter, SocketSession, Reliability and Lifecycle follow the files of the same names; Service
--   has the fields of all their classes, the scheduler's pending timers and the listeners that
--   sockets hold as one record, and the operations are functions on it. A closure that a timer or
--   a socket holds is named by its task, or by its socket and generation. Browser has the sockets
--   as a parameter over a state of their own. Steps puts it together: commands of the coordinator,
--   events that a socket fires at its listeners, timers that fire, and moves of the clock and the
--   sockets. The other modules of Transport are the proofs.
--
-- Loops: the eviction loop of `enqueueOutbox` and the loop of `flushOutbox` run on fuel, as many
-- rounds as the list has chunks; each round takes the head index one further, and the proofs show
-- that the fuel is enough. The digits of a number are taken on as much fuel as one more than the
-- number. Every other loop is recursion on a list.
--
-- Parameters: the sockets (`Browser`), `URL` (`UrlApi`), `JSON.parse`, `Storage`, `formatNotice`
-- and `sendNow` are code that is not in the repository or that a caller hands over. They are
-- arguments, and nothing is assumed of them, but for `IsLog` in Backpressure/Order, the log of a
-- connection grows by the texts that it accepts, and `IsLawful` in Persistence/Laws, a storage
-- finds what was set and JSON reads back what it wrote, `Removes` in
-- Orchestrator/Tab, it does not find what was removed, `ReadsSchemes` in Endpoints/Security, the
-- parser of URLs has the scheme that the text has, `KeepsKeys` in Endpoints/AuthLaws,
-- URLSearchParams loses a key that is deleted and has one that it finds, and `EventTarget` in
-- Adapters/Dispatch, a socket calls the listeners that it was given.
--
-- Exactness: byte counts and times are whole and unbounded; the program stays far below 2 ^ 53.
-- The reconnect delay 300 * 1.8 ** attempt is the floor of the exact fraction, capped at 5000.
--
-- Not modelled: the commands and bindings of the client; React, xterm and the browser; the server
-- (apps/server), which is another program.
pub mod Base
pub mod Outbox
pub mod Throttle
pub mod Gateway
pub mod Protocol
pub mod Backpressure
pub mod Sanitization
pub mod Session
pub mod Refresh
pub mod Polling
pub mod Persistence
pub mod Notices
pub mod Orchestrator
pub mod Runtime
pub mod IoBridge
pub mod Client
pub mod FontSize
pub mod Transport
pub mod Endpoints
pub mod Adapters
pub mod UserNotice
pub mod Coordinator

-- ===== src/Lib.antt =====
-- TinyCloud agents: the request worker, the session store, the delegation policy, the read cache,
-- the write lane, the credentials and the rate limiter of the agent packages.
--
-- The program connects agents to a TinyCloud node on behalf of users. A user hands the service a
-- delegation; the service checks it against a policy, activates it under a lease, and keeps the
-- session until the user disconnects or the delegation expires. Every call to the node goes through
-- one serialized worker; writes that the memory plugin makes after a turn wait in a bounded lane,
-- and its reads go through a cache that serves stale values while it loads new ones.
-- A request needs an app's credential, and requests are limited for each app and entity.
--
-- Files and the code that they model (paths from the repository's root):
--
--   Worker             packages/agent-client/src/worker.ts, class Worker: the record Worker has its
--                      fields; accept is read and write, by the lane of the job; submit, next_job,
--                      pump, breaker_gate, record_success, record_failure and open_breaker have the
--                      source's names; runJob is cut where it awaits into start, conclude, release
--                      and resume; dispatch is race and expire on the job in flight. Time is an
--                      argument of each step. What callers and the log see is a list of effects.
--   Worker/Order       which job is called next; Worker/Invariant: what holds in every turn;
--   Worker/Accounting  where each job ends; Worker/Breaker: the circuit breaker;
--   Worker/Timeout     the hard timeout. The error classes are those of errors.ts beside it.
--   Session            packages/agent-client/src/session.ts, class Session: run, ensureSignedIn,
--                      reSignIn, doSignIn, doProactiveRefresh and stop, cut where they await. Who
--                      waits for the shared sign-in is a Waiter, in the order in which they came,
--                      and settles in one turn with it; who waits for the worker is an Attempt.
--   Session/Auth       authLike and isAuthError; Session/Weights, Calls: what a call is owed;
--   Session/Refresh    the timer of the refresh.
--   SessionStore       packages/eliza-service/src/session-store.ts, class SessionStore: access
--                      entries, staged records, revisions and leases. A lease keeps its revision and
--                      key, and isCurrent and isActive, closures in the source, are functions of
--                      the store. A revision is the instance id and the sequence number that the
--                      source writes into one text. The guard that commit, stage and restore share
--                      is guarded. Listeners are the keys that were announced, newest first.
--   SessionStore/Moves, Fencing, Diagram, Handshake
--                      what one call does to an entry, stale leases, the states of an entry, and
--                      the successful courses of a reservation and of a reload.
--   Delegation         packages/agent-client/src/delegation-policy.ts: the types;
--   Delegation/Policy  the checks, which throw by returning an error of the type Checked;
--   Delegation/Shape   packages/agent-client/src/delegation-validate.ts; a text is trimmed by the
--                      white space of the language's standard;
--   Delegation/Text    trim, split, join and the removal of `Bearer `;
--   Delegation/Normalize
--                      packages/agent-client/src/delegation-normalize.ts: the grants and the owner
--                      that the signed part names; JSON is a data type, its parser a parameter;
--   Delegation/Transport, Transport/Vetting
--                      packages/agent-client/src/delegated-transport.ts: signIn cut where it awaits
--                      the activator; the identity, once resolved, is the answer of a parameter;
--   Delegation/Lasting refusals as time goes on;
--   Delegation/Hash, Status
--                      the rest of delegation-policy.ts: computePolicyHash and
--                      evaluateDelegationStatus; JSON.stringify and SHA-256 are the record Digest;
--   Delegation/Form, First, Grants
--                      a well-formed delegation, the first element of a list with a property, and
--                      what a delegation grants for a resource of a policy;
--   Delegation/Covers, Accepted, Exact
--                      what the policy accepts, described without the loops of the code.
--   SwrCache           packages/eliza-plugin-memory/src/caches.ts, class SwrCache: read and revalidate
--                      are cut where they await; what waits is in loads and cold_reads, and settle,
--                      expire and resume go on. SwrCache/Fences, Issued: what an invalidation
--                      cuts off.
--   WriteLane          packages/eliza-plugin-memory/src/write-lane.ts, class WriteLane;
--   WriteLane/Laws     its bounds and its order.
--   RateLimit          packages/eliza-service/src/rate-limit.ts; the key joins two texts with a NUL,
--                      so that texts are lists of code units here; RateLimit/Quota: its quotas.
--   ServiceAuth        packages/eliza-service/src/auth/app-registry.ts and service-auth.ts: from the
--                      Authorization header and the environment to an app; the responses are cases
--                      of AuthResult; ServiceAuth/Credentials: whose secret lets a request in.
--   Base               lists, tests, the interface of types compared with ===, and association
--                      lists for the source's Map. Each Tests file has runs at concrete inputs.
--   HeldSessions       packages/eliza-service/src/held-sessions.ts and delegation-store.ts: the record
--                      of a held session and what is published for an entity; HeldSessions/Stored,
--                      RoundTrip: its JSON and how it is read, with the printer and the parser of
--                      JSON as parameters; HeldSessions/Queue: the writes of one entity, each event
--                      a step; Queue/Order, Removal: when runs settle, and what a removal leaves;
--                      HeldSessions/Reload, Reload/Restore: restore, cut where it awaits, with
--                      Reload/Resting, Vetted: what has passed when it restores, and Fenced: a Disconnect;
--                      HeldSessions/Loader, Loader/Events: which sessions are reloaded and when;
--                      Loader/Slots: the slots of running reloads;
--                      HeldSessions/Keys: the keys of records; HeldSessions/Kv:
--                      TinyCloudDelegationKv, with Kv/Listing on its pages.
--   EntityRegistry     packages/eliza-plugin-memory/src/entity-registry.ts: the maps, and what does not
--                      wait; EntityRegistry/Registering: registerDelegation and _buildEntry, cut
--                      where they await; EntityRegistry/Revisions, Fencing, Access, Capacity: who owns
--                      an entity, who is served and who makes room.
--   Microbatcher       packages/eliza-plugin-memory/src/microbatcher.ts; flushGroup is cut where it
--                      awaits runBatch; Microbatcher/Coalescing: a list of requests as its
--                      specification.
--   Handlers           packages/eliza-service/src/handlers/sessions.ts, each handler cut where it awaits:
--   Handlers/Bundle, Ceiling
--                      validateBundle and bundleRecord, and what a bundle that passes is;
--   Handlers/Post, Plain
--                      handlePostSessions with activateBundle, for TinyChat and for other apps: a
--                      phase names the awaited call, and resume goes on with how that call ended;
--   Handlers/Confirmed when a connection is confirmed, with other calls on the store in between;
--   Handlers/Read, Reported
--                      handleGetSessions, storedGrantExpired and handleDeleteSessions.
--
-- Clients use each other's theorems through these modules: the two kinds of write in the session
-- store share the lemmas of Moves, the exact policy check those of the ordinary one, and the session
-- handlers rest on the fences of the store and on the checks of delegations.
--
-- Loops: pump in Worker takes as fuel the number of jobs that wait; every round removes one or stops,
-- so that this is enough. list in HeldSessions/Kv has as fuel the source's limit of 10000 pages. All
-- other loops are structural, that of WriteLane's pump over its queue.
-- Numbers are natural numbers: times are milliseconds since the epoch, and a
-- counter does not wrap, as the source's doubles count exactly far beyond any run.
--
-- Parameters: what `@tinycloud/node-sdk` and `@tinycloud/bootstrap` provide is the record Sdk, the
-- parsers and printers of the platform are the record Platform, and files and identities the record
-- Files, with no assumption on them; the record Surroundings adds to these the readers of a printed
-- revision and of an error's text. The results of calls to the node are events chosen freely.
--
-- Not modelled: the bounded waits for reloads and writes, the transports, the network and
-- storage behind them, texts of log lines and errors, and the parts of the service that format
-- requests and answers. A date before the epoch is left out of Expiry, and the default write lane
-- made from the environment is left out of WriteLane.
mod Base
pub mod Worker
pub mod Session
pub mod SessionStore
pub mod Handlers
pub mod Microbatcher
pub mod HeldSessions
pub mod EntityRegistry
pub mod Delegation
pub mod RateLimit
pub mod WriteLane
pub mod SwrCache
pub mod ServiceAuth

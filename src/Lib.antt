-- ===== src/Lib.antt =====
-- QGramm is a self-hosted messaging server. Clients send encrypted messages to chats; the server
-- checks access, numbers each message in the journal of its chat and stores both in one SQLite
-- transaction, groups such transactions into one commit, and relays the signals of calls.
--
-- The parts, and where they are modelled:
-- - Store: the tables of internal/core/store.go as lists of rows (Store/Schema), the lookups and the
--   join that checks a request's device (Store/Queries), Core.Append (Store/Append), the
--   consistency of the journal (Store/Journal), and a query's page by its keys (Store/Paging).
-- - Messages: internal/core/messages.go. Messages/Prepare is prepareMessage, sendResult and sendMessage,
--   Messages/Persist is persistMessageInTx with the hooks of internal/modules/reply.go and forward.go;
--   Messages/Opening and Messages/Admission are about what is queued, Messages/Access,
--   Messages/Idempotency and Messages/Retry about what a message and its retry leave behind.
--   Messages/View is projectMessages, ViewMessage and history, with the hooks of delete.go and
--   reactions.go that change what a reader sees; Messages/Replay is Core.Events; Messages/Pages,
--   Messages/Contiguous, Messages/Gapless and Messages/RoundTrip are about what is read,
--   Messages/Withheld about what a revoked device is refused.
-- - Receipts: the receipt handler of internal/core/messages.go.
-- - Writer: internal/core/writer_queue.go. Writer/Sqlite is the interface to transactions and
--   savepoints, Writer/Batch is executeBatchContext, Writer/Queue the channel with its admission,
--   Writer/Serial and Writer/Atomic compare a batch with its jobs run one after another.
-- - Calls: internal/modules/calls.go. Calls/Signal is the handler of signals, Calls/Media its checks of
--   what a signal carries, Calls/Lifecycle the creation of a call and the cleanup.
-- - Mls: internal/modules/e2ee.go. Mls/Roster is validateMLSRoster and InitMLSRelayTx, Mls/Packages the
--   key packages, Mls/Commits submitMLSCommit, Mls/Confirm confirmMLSEpoch, Mls/Sending the two hooks of
--   messages; Mls/Steps are the calls as steps, Mls/Effects what each does to the tables, and Mls/Epochs,
--   Mls/Barrier, Mls/OneTransition, Mls/Taken and Mls/OneTime what follows.
-- - Realtime: internal/core/realtime.go and sharedreplay.go. Realtime/Notify is a connection with its wake
--   channel, Realtime/Registry the subscribers and the shared poll, Realtime/Admit the tickets and the
--   admission of a websocket, Realtime/Flush the loop's flush and commands. Realtime/Wakeups has the
--   statements of concurrent goroutines as steps, in any order; Realtime/Replayed, Realtime/Heads and
--   Realtime/Polling are about the poll, Realtime/Delivery about the flush, Realtime/Connections and
--   Realtime/Places about the places, Realtime/Tickets about tickets.
-- - Gate: internal/core/auth.go (Gate/Identify) and admission.go (Gate/Slots).
-- - Management: internal/core/management.go. Management/Names is validID, Management/Accounts the users
--   and devices, Management/Chats the chats and memberships.
-- - Mutations: internal/modules/mutations.go (Mutations/Mutate) with edit.go, delete.go and
--   reactions.go (Mutations/Actions).
-- - Capacity: DeriveCapacity and EstimateResources of internal/config/capacity.go.
-- - Policy: the usage counters of internal/modules/ai_policy_usage.go (Policy/Counters), and the costs
--   and budgets of ai_policy.go (Policy/Cost, Policy/Budget, Policy/Settle); Policy/Balanced and
--   Policy/Reserved compare the accounts with the ledger.
--
-- How they fit: the writer runs persist_message as the body of a Job, inside a transaction that
-- Writer/Batch opens and commits; persist_message, the calls, receipts, memberships and mutations
-- number their events by append. A flush calls events, which reads the journal that append keeps; a commit
-- of Mls bars the Prepare hook of messages; a revocation of Management closes the Gate.
--
-- Conventions. A handler returns an Outcome: the new state with its reply, or the status and text that
-- it answers with; an error carries no state, since the deferred Rollback leaves the tables as they
-- were. An error that is no APIError is the 503 that statusError makes of it. A statement of SQLite may
-- fail at any time: a parameter `io` says whether the n-th one gets through. Core.Events reads a state
-- for each of its two queries, since other transactions may commit between them; IsLater says what may
-- not happen there. Blobs are lists of bytes. Strings are the native ones, compared by str_eq. int64
-- columns are natural numbers, without an upper bound, except in Policy, which compares with the limits
-- of int64 as the code does; a sequence number grows by one for each event.
--
-- Parameters stand for what other packages provide: Engine (sealing at rest), Codec, Reader and Wire
-- (JSON, base64, SHA-256, envelopes), Suite (the MLS packages), Hooks (what admitted AI participants
-- refuse), the parse of a token (the jwt package), and Transactions (database/sql on SQLite, with the
-- laws of savepoints, commit and rollback as IsTransactional).
--
-- Fuel: `work` has one unit for each turn of the writer's loop; a turn for each waiting entry is enough.
-- `batches` has one for each chat, which is enough since a batch takes at least one. The ten pages of
-- `flush_pages` are the code's own. The other recursions are structural.
--
-- Not modelled: the times and the metrics of the writer and of requests, the batch handler, timers and
-- pings of sockets, the reads of MLS state and inbox, approval of AI requests, TURN credentials, the
-- HTTP layer, the configuration file, checkpoints, diagnostics, prepared statements, files, and the
-- calls of AI providers.
mod Common
pub mod Store
pub mod Messages
pub mod Writer
pub mod Calls
pub mod Policy
pub mod Capacity
pub mod Receipts
pub mod Mls
pub mod Realtime
pub mod Gate
pub mod Management
pub mod Mutations
mod Tests

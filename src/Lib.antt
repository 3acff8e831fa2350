-- ===== src/Lib.antt =====
-- The server of mPackStation: a model of its core with the theorems that it rests on.
--
-- The program is a Go server that builds Minecraft mod packs. Its work is done by durable tasks: the
-- HTTP routes and the services submit rows to the table `tasks`, a worker leases them one by one,
-- runs the handler that is registered for their kind, and settles them, and users cancel, pause,
-- resume and retry them. The queue keeps its state in SQLite, so that every operation is a
-- transaction on three tables, and each appends to the task's audit log.
--
-- Base and its children hold the shared names: tests on numbers and texts, lists, a stable sort
-- for ORDER BY, and integers.
--
-- TaskQueue, apps/server/internal/task:
--   Model      the rows, statuses, kinds, errors and the queue, as the types of task.go and the
--              columns of its SQL; a column that may be NULL is an Option, a time is in
--              milliseconds, a progress in thousandths of a percent
--   Table      a read by primary key, and an UPDATE with its RowsAffected
--   Log        appendEvent, an UPDATE with its event, trackRunning and stopRunning
--   Submit     Submit, Get, List, Events
--   Recovery   Recover, Lease
--   Leases     preflightLease, fencedResult, Begin, Heartbeat, Progress
--   Finishing  finish, Succeed, Fail, failWithRetry
--   Control    Cancel, Pause, Resume, Retry
--   Runner     the registry and RunOnce of task.go, and the delays of Worker.Run in worker.go
--   Adapter    HTTPAdapter of http_adapter.go
--   View       the task views and TaskAPI of apps/server/internal/service/task_api.go
--   Rows, Change, Calls   the well-formed rows; the four shapes of change that all operations are
--              made of; and histories of calls, in any order and at any clock readings
--   Audit, Traces, Lifecycle, Idempotency, Replay, Fencing, Claims, LeaseOrder, Epochs, Recovered,
--   Controls, Delays, Rounds, RoundOutcomes, RoundInvariant, Separate, Pausing, Views
--              what the operations do
--   Examples, RoundExamples, AdapterExamples   a concrete queue
--
-- Publishing, apps/server/internal/service/publish.go with the releases of
-- apps/server/internal/store/publish_repo.go:
--   Words      TrimSpace and ToLower, as far as the service uses them
--   Model      releases, artifacts, the remote state, and what the service is given
--   Store      CreateRelease, GetRelease, GetReleaseByKey, SetReleasePublishing, FinishRelease
--   Service    the statuses, the remote state, and the end of a publication
--   Publish    publishOnce, PublishPack, RetryPublish, PollRelease
--   Once, Histories, Repeats, Outcomes   how often a provider is asked to publish, and two outcomes
--   Examples   concrete publications
--
-- Content, apps/server/internal/service/mod_content_kind.go:
--   Paths      a path cut at its slashes, and its extension
--   Kinds      the category of an entry and kindFromPathClassify
--   Unlocks    what the classification promises
--   Examples   concrete paths
--
-- Drafts, apps/server/internal/service/content.go without its quests, with the documents of
-- apps/server/internal/store/content_repo.go:
--   Json       the decoded values of encoding/json, and jsonWithinBounds
--   Payload    canonicalContentPayload and validateContentSemantics
--   Model, Store, Changes   the rows, and the statements and transactions on them
--   Service    SaveContentDraft, GetContent, the history
--   Review     ValidateContent, ApplyContent, RollbackContent
--   Bounds     how deep an accepted payload is nested
--   Rows, Invariant, Moves, Growth, Transactions, Cleared, Operations, Histories
--              what one statement, one transaction and one call keep true, and histories of calls
--   Reviewed, Lasting, Reading, Rollbacks, Saves, Resaves   what the operations do
--   Examples   concrete content
--
-- Quests, the quests of the same two files:
--   Queue      the check for cycles
--   Model, Checks, Validate   the draft of a quest book, and validateQuest
--   Rows, Store, Service      the rows of quest books, the transactions on them, and
--              SaveQuestDraft, GetQuest, ApplyQuest, RollbackQuest
--   Pigeons, Relaxing, Draining, Ranks, Cycles, Reports, Graphs   the check for cycles, against
--              an order of the nodes
--   Ids, RoundTrip, Saves, Restores   the ids of the parts, and what is read of a saved draft
--   References what a reference to a mod is told
--   Examples   concrete quests
--
-- Builds, apps/server/internal/service/build.go with RecordBuildInputs of
-- apps/server/internal/store/publish_repo.go:
--   Archive    safeArchivePath, pathCleanSlash, safeVersionName
--   Manifest   validateBuildInput and buildManifest
--   Zip        writeDeterministicZip and verifyZip, on the list of an archive's entries
--   Provenance RecordBuildInputs and HasBlockedDeliveryCheck
--   Segments, Safe, Written, Archived, Kept   what they promise
--   Examples   concrete builds
--
-- Drafts and Quests take packs, the clock, the random parts of ids and the rows of pack_mods as
-- parameters (`Surroundings`). A payload stands as its decoded JSON value, where a finite number is
-- a signed numerator over a power of two; a JSON column of a quest stands for the value in it.
-- Builds takes encoding/json, SHA-256 and the random parts of ids as `Codec`, and SQLite's checks of
-- JSON and of a hash as `Rules`.
-- ApplyContent checks a revision before it opens its transaction: these are two definitions, and
-- histories may put other calls between them.
--
-- An operation takes the readings of the clock that its code makes, in their order, and the queue,
-- and returns the new queue and the result; a transaction that fails leaves the queue as it was.
-- Where the code checks the lease before it opens the transaction, the transaction is a definition
-- of its own (`_tx`), and histories may put other calls between the two. A handler is any function
-- from its execution and the queue to the queue and an outcome. The clock, the id source, the JSON
-- and hash functions and the printing of durations are parameters (`Config`); nothing is assumed of
-- them. The providers, the artifacts and the check of an artifact's file are parameters of the
-- publications (`World`). Every loop follows a list but the queue of the check for cycles: it takes
-- one unit of fuel more than there are nodes, which is enough since a node joins the queue when its
-- last incoming edge goes, hence once.
--
-- The context of a call lasts, or ends in one place: at the read of fencedResult, which fails then
-- with the context's error. The database has one connection, so that the fencedResult of Begin, which
-- runs inside Begin's own transaction, is served never: where the context lasts, the call does not
-- return (`never_returns`).
--
-- Not modelled: errors of the database itself, contexts that end elsewhere in a call, ids that
-- the random source draws twice for events, the random id source, the loss of the running table
-- at a restart, the steps of BuildPack on the file system, and the other packages of the server,
-- which are the other services, the other repositories, the HTTP routes and the remote
-- providers.
pub mod Base
pub mod TaskQueue
pub mod Publishing
pub mod Content
pub mod Drafts
pub mod Quests
pub mod Builds

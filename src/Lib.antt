-- ===== src/Lib.antt =====
-- The verification library of Ottie's core: the write-ahead action ledger and the dispatch of tools
-- through it, the provider layer with its cooldowns, classifier and fallback chain, the gateway's
-- rate limiter, the routing of messages, the debouncer and the cache of duplicates, the session
-- memory and the session manager, the typed principals, the manifests of turns, the media store, the
-- channel monitor and the project board.
--
-- How the parts interact. A message that the cache has not seen (pkg/infra/dedupe.go) is routed to
-- an agent and a session (pkg/routing/route.go, session_key.go). The agent's turn asks a model
-- through the fallback chain (pkg/providers/fallback.go), which asks the cooldown tracker
-- (cooldown.go) whether a provider is available, classifies errors (error_classifier.go) and marks
-- failures and successes. A tool that the model calls goes through Dispatch (pkg/acs/dispatch.go),
-- which prepares an intent in the ledger (pkg/actionlog/actionlog.go), runs the tool, and commits
-- or aborts. Messages are kept by the session memory (pkg/memory/jsonl.go), and the gateway limits
-- attempts (pkg/gateway/ratelimit.go). Each turn is numbered by the agent loop (pkg/agent/loop.go)
-- and recorded by the manifest store (pkg/execmanifest/execmanifest.go); a tool that is typed by a
-- capability runs behind the guard of pkg/principal, whose gates raise a principal's capability.
--
-- Prelude: shared names, Boolean tests, lists and dictionaries (Prelude/Dict models a Go map).
--
-- Ledger: pkg/actionlog/actionlog.go. Rows has the structs and the two tables; the SQL engine is
-- the record Sqlite, a parameter with the documented behaviour of an INSERT under the schema's
-- PRIMARY KEY, UNIQUE and FOREIGN KEY constraints. Ops has doPrepare, doCommit, doAbort, handleOp,
-- and Prepare, Commit and Abort as one `submit`, whose Delivery says whether the caller's context
-- ended first; Close sets the flag. Text is contains and containsAny. Effects gives what a write
-- does, Phases the abstract ledger, History its runs, Replies what a reply means, Errors
-- wrapFinalizationError, Recovery RecoverOrphans. In Ops a call is one step; Writer has the channel
-- and the goroutine (writer, enqueue and Close) as a step relation on queue, phase and database.
--
-- Acs: pkg/acs. Tool has EffectClass and ClassOf (pkg/tools/base.go) and ToolResult (result.go),
-- Bundle the ledger calls behind the bundle's closed flag, Dispatch the whole of Dispatch. A
-- dispatch takes an Env: the two hashes, how its two ledger calls go, and the tool, a function that
-- may leave the bundle in any state, since other calls may run beside it. The model records the
-- bundles at which it ran.
--
-- Providers: pkg/providers. Reason is FailoverReason and the predicates of FailoverError
-- (types.go), Errors the errors, Classify the classifier with its tables in Classify/Patterns,
-- Cooldown the tracker, Fallback Execute and ExecuteImage, whose rounds get from a Round what the
-- context, the clock and the callback do. Text searches and regular expressions are those of a
-- GoText record.
--
-- Gateway: pkg/gateway/ratelimit.go, Allow and prune, in the order in which they take the lock; their times are
-- read before it. Memory: pkg/memory/jsonl.go, one session's lines and metadata; a line's coding is a parameter,
-- which keeps of a message (Providers/Protocol, pkg/providers/protocoltypes/types.go) the fields that have a JSON
-- name, and a crash is a prefix of an operation's writes.
--
-- Routing: pkg/routing. Ids is agent_id.go, Keys session_key.go, Route route.go with what it reads
-- of pkg/config/config.go; Go's text functions are a record GoStrings, and the order of a list
-- stands for the order in which Go ranges over a map. Infra: Dedupe is pkg/infra/dedupe.go.
--
-- Infra/Debounce is pkg/infra/debounce.go: Submit, Stop, a timer's firing and the flush it starts are
-- events in any order. A timer that has fired is no longer stopped, as for time.AfterFunc.
--
-- Principal: pkg/principal. Context has the contexts and their label, Upgrade validateUpgrade and the
-- four gates, Tool the untyped principal, the ladder and RunUntyped, whose five copies differ only in
-- the capability.
--
-- ExecManifest: pkg/execmanifest. Rows has the structs, the engine and the codec, which are
-- parameters, Store the checks of fields and the wrapping of errors, Ops the writes, Reads the queries;
-- Turns is allocateACSTurnNumber, whose accesses to the counters are steps between those of other turns.
--
-- Media: pkg/media/store.go. Health: pkg/health/channel_monitor.go. Board: pkg/swarm/board. Sessions:
-- pkg/session/manager.go, with Save and the load at a start in Sessions/Files.
--
-- Channels: pkg/channels/split.go. A round of SplitMessage takes the list of runes that are left.
--
-- Tests: the theorems at concrete inputs, over the engines of Tests/Engine and
-- Tests/ManifestEngine.
--
-- Numbers. Times and durations are native natural numbers: of nanoseconds from Go's zero time, or
-- of the unit the code stores. Counters that grow by one per call are unbounded. Every loop
-- modelled is structural on its list, but for two. The eviction of the duplicates' cache takes as fuel
-- the number of entries; each round takes one away, so that is enough. SplitMessage takes a number of
-- rounds; the number of runes is enough without a backtick, and with one no number need be.
--
-- Not modelled: the channel manager and the adapters, the agent loop but for its turn numbers, the bus, tools
-- and clients of services, configuration, commands and the web parts; in the modelled files, the
-- opening of databases and files, locks (each method under a mutex is one step), goroutines that only
-- tick, ResolveCandidates and the hash functions.
pub mod Prelude
pub mod Providers
pub mod Ledger
pub mod Acs
pub mod Gateway
pub mod Memory
pub mod Infra
pub mod Routing
pub mod Principal
pub mod ExecManifest
pub mod Media
pub mod Health
pub mod Board
pub mod Sessions
pub mod Channels
pub mod Tests

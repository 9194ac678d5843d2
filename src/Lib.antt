-- ===== src/Lib.antt =====
-- A verification library for Tirion, the local agent that observes the cost of coding agents.
--
-- The program collects the telemetry of coding agents, measures their tokens, estimates what they
-- cost, ties their work to commits, and tells a webhook about runs and commits. Nine parts of
-- it are modelled here:
--
-- CommitPolicy.antt, with Attribution.antt: src/attribution/commitAttributionPolicy.ts.
--   `evaluateCommitAttribution` decides which agent queries a commit may be reported for. It takes
--   a work episode, an observed commit and the queries that are active, verified or already claimed,
--   and returns a decision, the queries and a proof. evaluate_commit_attribution is the whole
--   function, one definition for each of its local constants; CommitPolicy/Evidence.antt holds the
--   comparison of artifact states and the causal pairs. Attribution.antt has the records of
--   src/types.ts.
--
-- Scheduler.antt: packages/agent/src/runtimeWorkScheduler.ts. For each key the scheduler runs one
--   work at a time and of the works given meanwhile keeps the last. Scheduler/Lane.antt is the
--   state of one key (`RuntimeWorkState`) and a stretch of code between two awaits for each
--   function (enqueue_lane, settle, drain_lane); Scheduler.antt is the map of lanes, the events of
--   the event loop (a work given, a work settled, a drain asked for) and run_events, which carries
--   out a list of them and logs the calls and the resolved promises. A promise of `drainKey` is a
--   number. drain_to_fixed_point takes the rounds of `drainToFixedPoint` as an argument, as the
--   source has a limit on them; while the drain of a round awaits, the event loop does any list of
--   events.
--
-- Pricing.antt: src/pricing, src/billing and the provider names of src/types.ts. Anthropic, OpenAi,
--   Copilot and Cursor are the published tables row by row; Catalog is the billing context resolver;
--   Row is `findPricing`; Estimate is `estimateTokensForModel` and what it calls; Policy is
--   pricingCoveragePolicy.ts. An estimate takes its catalog as an argument, and prices with the floating-point
--   arithmetic of Floats, a parameter.
--
-- Tokens.antt: src/aggregation/tokenMeasurement.ts, the sums of token usage and their division by
--   model (`selectedModelUsages`), which the estimates by model start from.
--
-- Webhook.antt: packages/agent/src/externalWebhookDispatch.ts. Order is `compareWebhookOutboxEntries`,
--   Retry is `outboxEntryDue`, `retryDelayMs` and `scheduleRetry`, Delivery is `deliverUnlocked`, with
--   the refusal of `SqliteWebhookOutbox.upsert`. A delivery is the list of its effects: saved rows,
--   POSTs, timers, log lines and exceptions.
--
-- ExecutionTree.antt: packages/engine/src/executionTreeProjection.ts, the tree of a run that the
--   dashboard shows. Merge joins repeated reports of a node, `project_run_tree` is `projectRunTree` and
--   `walk` its recursion, which stops with `none` where its fuel ends. The fuel is the number of nodes and
--   one, which is enough as a chain of parents from the root names no node twice.
--
-- Episodes.antt: src/attribution/agenticWorkEpisode.ts, the tracker of the work episodes that
--   CommitPolicy judges. Episodes/Store.antt is the map of src/storage/workEpisodeLedger.ts with its
--   queries and its retention, Episodes/Evidence.antt the merge of evidence,
--   Episodes/Compaction.antt the joining of stored episodes, Episodes/Loads.antt the load that does it once.
--   A mutation takes the ledger and gives the next one, the events and whether a write threw; the mutation
--   queue of the source runs one at a time. `start` loads the ledger and is not in the queue; the agent awaits
--   it first. Steps has the operations on a loaded ledger as a step relation.
--
-- Scopes.antt: packages/agent/src/repositoryScopeManagement.ts over the table of
--   packages/agent-storage/src/worker.ts, the folders that the agent observes, with their enciphered paths.
--   Scopes/Leases.antt is the leases of workspaces. The cipher, base64, JSON, git and the file system are
--   the fields of ScopeHost.
--
-- Budgets.antt: packages/agent/src/budgetWarningsService.ts, the warnings about runs, days and months
--   whose tokens or costs reach a threshold, over the two documents that it stores. The runs are those of
--   the pricing, with a cost in billionths of a USD.
--
-- Prelude.antt passes on the shared names: array methods, `===`, `Map`, `Set`, `sort`, the operations
-- on strings, and the records of what the host supplies.
--
-- Choices. A time is a count of milliseconds and a count of tokens is natural: times before 1970,
-- negative counts and fractions are not modelled. A rate is in millionths of a USD for a million
-- tokens, an amount in billionths of a USD. What the sources leave to JavaScript's host is a
-- parameter: floating-point arithmetic in the prices, reading and writing dates, localeCompare,
-- toLowerCase, RegExp. The sums of costs in the budgets are exact. `none` stands for `undefined`
-- and for `NaN`. Of a webhook event only the fields stand that the delivery reads. The storage
-- and the HTTP request are parameters: a save succeeds unless the outbox refuses it, and the
-- answer to the POST is given. Only the walk of the execution tree runs on fuel: the other
-- recursions go over lists, and the rounds of a drain are counted by its argument.
--
-- Not modelled: the rest of token measurement, the older warnings in AI credits; the
-- assembly of runs and the construction of webhook events; git, the file system, SQLite, HTTP and
-- the command line, which are input and output; the terminal interface, which is Go.
pub mod Prelude
pub mod Attribution
pub mod CommitPolicy
pub mod Scheduler
pub mod Pricing
pub mod Webhook
pub mod Tokens
pub mod ExecutionTree
pub mod Episodes
pub mod Scopes
pub mod Budgets

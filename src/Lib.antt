-- ===== src/Lib.antt =====
-- The core of the whale intelligence service: the gates, state machines, keys and books of its
-- modules under src/sf/, and the queues, the client pool, the scores, the funding radar and the
-- signals of src/, as definitions that run, with the theorems that make them correct.
--
-- Parts. An event enters by ingestion (Ingest: src/sf/ingest.rs, src/sf/ingest_runtime.rs) in the
-- canonical envelope (Event: src/sf/core.rs), is read from a provider that the router selects
-- (Provider: src/sf/source.rs), and is worked on by queues under backpressure (Queues:
-- src/queues.rs). A token passes the entry gate (SignalGate: src/sf/signal_gate.rs), or the flow
-- of a revival (Revival: src/sf/revival.rs, src/sf/revival_runtime.rs), before a bundle of
-- component results is judged (Decision: src/sf/decision.rs, src/sf/decision_runtime.rs, the
-- classes of src/sf/portfolio.rs). An approved action is subject to kill switches and to the
-- checklist of the signer (Execution: src/sf/execution.rs, src/sf/execution_runtime.rs) and to the
-- autonomy gate (Autonomy: src/sf/autonomy.rs, src/sf/autonomy_runtime.rs), and becomes an intent
-- (Intent: src/sf/intent.rs). The provenance of a name is resolved from verified proofs of its
-- stages (Narrative: src/sf/narrative.rs, src/sf/narrative_runtime.rs, the roles of
-- src/sf/token.rs). Relations between tokens are published under event keys (Recent:
-- src/sf/recent.rs, src/sf/recent_pipeline.rs). Which relations an anchor token has is resolved
-- from the edges of the entity graph (Graph: src/sf/graph.rs, src/sf/graph_runtime.rs; Resolve:
-- src/sf/recent_runtime.rs), and the events of a token, their retractions, groups and lookups, are
-- its timeline (Timeline: src/sf/recent.rs, src/sf/recent_runtime.rs, with the lifecycle of
-- src/sf/token.rs and src/sf/token_runtime.rs). The chain is read through a pool of provider keys
-- (Helius: src/helius.rs), and a source has a state of health (Health:
-- src/sf/source_health_runtime.rs, src/sf/source.rs). What a wallet paid for what it sold is
-- matched first in, first out (CostBasis: src/sf/cost_basis.rs, src/sf/wallet.rs), which gives the
-- intelligence on a wallet (Wallet: src/sf/wallet_runtime.rs); the scores of a wallet have a
-- matching of their own (Scoring: src/scoring.rs). The exposures of a portfolio are summed and
-- grouped by shared keys (Portfolio: src/sf/portfolio.rs, src/sf/portfolio_runtime.rs). A large
-- funding of a fresh wallet opens a case that is followed to a deployment or dismissed (Radar:
-- src/funding_radar.rs, the records of src/models.rs, `upsert_wallet` of src/db.rs), and entry and
-- exit signals are written by the holder of a claim (Signals: src/signals.rs); the settings of
-- these are records of src/config.rs. Strategies live by their own machine (Strategy:
-- src/sf/strategy.rs, src/sf/strategy_runtime.rs). The names under which enumerations are stored
-- are those of Models (src/models.rs).
--
-- Correspondence. A struct is a record and an enum a data type, with the names of the source in
-- snake case for fields and variants; a function keeps its name. A method takes its receiver as
-- its first argument, and a `&mut self` method returns the new state. A loop with an early exit is
-- a recursion over the rest of the list (`pause_loop`, `sole_pass`, `best_of`). The files below a
-- component's name hold what is proved of it, and its file Examples the runs on concrete input.
-- Each of the four loops of `resolve_candidates` is the fold of a round over a list, through the
-- one function `emit`. An asynchronous function is its body, a lock the access to the state, and
-- the clock's reading an argument. The maps of the queues and of the dependency roots are
-- association lists, the HashSet of the store a list without repetition.
--
-- Bounds. Recursion is structural but in a few places. The printing of a number has one more than
-- the number as fuel. `find_root` is on fuel, and enough of it is any bound above the ranks of the
-- references where the dependencies have no cycle. The loop of `request_json` has one round for
-- the first request and one for each configured retry; its counter of attempts is a `u32` that
-- wraps around. The loop of a sale, in CostBasis and in Scoring, has one round more than there are
-- open lots, since every round but the last takes a lot away. The walks of the union-find have one
-- step more than the lines declare keys, above the height of every tree. A loop that wants fuel
-- gives `none`, or `out_of_fuel`. The counter of failures wraps around at 2 ^ 64; the round-robin
-- cursor and the counters of usage are taken not to. Other unsigned counters are only compared,
-- summed from a few bounded parts, or counted up to the length of a list, which is taken to stay
-- below the end of the type; `i64` is an integer of Prelude.Int, which is compared, divided and
-- written in two's complement, and the difference that tells how long ago a source succeeded wraps
-- around; the length of a field is taken modulo 2 ^ 64 as the source does, and the theorems on
-- keys ask that a field fits into memory.
--
-- Parameters. `f64` is a record of operations (Float.F64), of which only that comparisons chain is
-- ever assumed (Float.IsOrdered); Float.Sample is one that satisfies it, with a value that
-- compares with nothing. `serde_json::Value` is a record of two readings (Json). The parser of
-- timestamps of chrono, the host of a URL and `parse::<f64>` are arguments. `Decimal` of
-- rust_decimal is a record of operations (Decimal.Decimal) with its exact laws apart
-- (Decimal.IsExact), which hold where no operand overflows or is rounded; Decimal.Sample, of
-- thousandths, is one with these laws. The order in which a HashMap is walked is an argument in
-- CostBasis and in Wallet, where the result depends on it, and that of the insertions elsewhere,
-- where what is proved is said of lookups and sums. The clock, the new ids of rows and the counts
-- of other tables are arguments of the radar and of the signals, whose tables are lists of rows;
-- an error of the database gives `none`, with the rows that the statements before it wrote, or
-- with none of them where they are one transaction. What a token bucket computes with is
-- Helius.BucketFloat, with the laws of Helius.Buckets.IsRated for finite operands. The replies of
-- the network and the readings of a JSON payload are arguments of a request. The digest of SHA-256
-- is an argument, and that it does not collide on the two inputs at hand a hypothesis where a
-- theorem needs it. The trait IdempotencyStore is the function `contains` in the pipeline.
--
-- Prelude holds the shared tests, lists, stable sorting, texts with trimming and their UTF-8
-- bytes, the lexical order and integers; Run the runs of a Boolean transition table.
--
-- Not modelled: the database (src/db.rs, but for `upsert_wallet`), the HTTP surfaces and processes
-- (src/api.rs, src/admin.rs, src/main.rs, src/workers.rs and the clients), which are input and
-- output; the store behind the event keys (src/sf/recent_store.rs), which is SQL; the texts of
-- alerts and the delivery of alerts (src/signals.rs, src/alerts.rs), the granting of claims, the
-- statement that stores a score; callers, liquidity positions and dashboards. A wait before a
-- request is not modelled, only what is sent.
pub mod Prelude
pub mod Float
pub mod Json
pub mod Run
pub mod Autonomy
pub mod CostBasis
pub mod Decimal
pub mod Decision
pub mod Event
pub mod Execution
pub mod Graph
pub mod Health
pub mod Helius
pub mod Ingest
pub mod Intent
pub mod Models
pub mod Narrative
pub mod Portfolio
pub mod Provider
pub mod Queues
pub mod Radar
pub mod Recent
pub mod Resolve
pub mod Revival
pub mod Scoring
pub mod SignalGate
pub mod Signals
pub mod Strategy
pub mod Timeline
pub mod Wallet

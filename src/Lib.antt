-- ===== src/Lib.antt =====
-- Verification of the Assistant Context Router.
--
-- The router takes messages of people, agents and automations for many projects and decides who
-- answers: the main session, the event lane of a project, a registered service, or nobody, with a
-- reason. What comes of it raises a signal, which is told to business channels, escalated to the
-- main session, or kept. Escalations and deliveries are kept in state files with one lock each.
--
-- Files, with the code they model (paths from implementation/core/src):
--   Types/          types.ts: envelopes, decisions, results (Routing), signals and records (Signals),
--                   session state (Session). An absent and a null field are both `none`; a patch
--                   field is an option of an option, `none` for undefined and `some none` for null.
--   Value, Host     values of untyped JSON; the clock, collation, dates and lower-casing of the
--                   JavaScript host, which are parameters with the documented behaviour as hypotheses.
--   Routing/Decision            routing/decision.ts: decideRoute is `decide_route`.
--   Routing/SignalPromotion     routing/signal-promotion.ts: the signal and its promotion.
--   Routing/SignalRecords       routing/signal-records.ts: ids, notification records, escalation seeds.
--   Routing/Lane                routing/project-session-lane.ts: events, lines and summary, over
--                   `JSON.stringify` and `JSON.parse` as parameters.
--   Routing/Services            routing/service-result.ts, services.ts and service-bridge.ts.
--   Routing/Config              routing/config.ts: mergeRouterConfigs; Load is the reading of files.
--   Routing/GovernanceDelivery  routing/governance-delivery.ts: key, alert and seed.
--   Routing/Projection          routing/work-surface-projection.ts: the snapshot of a signal.
--   Routing/ReplyTargets        routing/business-notification-delivery.ts: the targets that references
--                   and bindings resolve to.
--   Routing/NotificationDelivery routing/business-notification-delivery.ts: the delivery plan.
--   State/CurrentProject        state/current-project-binding.ts.
--   State/Sessions              state/session-project-store.ts: the expiring state of each session.
--   State/Escalations           state/main-session-escalation-store.ts.
--   State/Outbox, State/Deliveries  state/governance-delivery-outbox.ts and
--                   state/business-notification-delivery-outbox.ts: their common code once, over the
--                   seed, the key and the statuses of each, and the two outboxes as instances.
--   Plugin/Dispatch             implementation/adapters/openclaw/plugin/src/index.ts: the decisions of
--                   the `before_dispatch` handler and the service that it calls.
--   Feishu/         implementation/adapters/feishu/src/task-bug-writeback.ts: what a service result does
--                   to the row of a task or a bug. Texts reads cells and parameters, Policy settles who
--                   may finish a row, Patch is deriveWritebackPatch and shouldNoopForStatus, Names and
--                   Metadata are the tables and columns with the client of the tables as an interface,
--                   Writeback plans, applies and runs. Attempt is a call that may throw.
--   Yaml            lib/simple-yaml.ts: lines and scalars; Yaml/Blocks is the parser.
--   Projects        projects/registry.ts: the index's entries, getProjectById, levenshteinDistance;
--                   Projects/Search scores projects and finds the closest, with scores raised by
--                   90 so that they are natural numbers.
--   Prelude, Text, Sorting, Keyed   helpers: booleans, options, lists, strings as JavaScript has them,
--                   the stable sort of a list, and lists of records with an id.
--   Tests/          sample data and runs of the theorems on it.
--
-- Decision, signals and records meet in the dispatch of a message: the decision and the results of
-- service and delivery make the `SignalInput`, whose signal is promoted, and whose escalation seed
-- `upsert_open` files under the key of Routing/SignalRecords. A notification's plan is the seed of
-- its outbox. A service result also goes to the rows that the message names: a writeback reads each,
-- plans the cells to write, and has the client write them. The client works on a world that is a
-- parameter; what a table makes of written cells is `merge_fields`, and sequences of writebacks are
-- the steps of `Run`.
--
-- A state file is an option: `none` is a file that is missing or does not parse, which the code
-- reads as empty. The promise queue of each store runs its calls one after another, so a store's
-- method is a function from file to file, and a run of the program is a sequence of calls.
--
-- The recursion is structural but in Yaml/Blocks, whose parsers and loops stand on fuel: two units for
-- each line and two more, since a call for a child block and each round of a loop leave the line they
-- read behind.
--
-- Service handlers, bridge adapters and the project registry's answer are parameters; a handler that
-- throws answers `none`.
--
-- The dates of the host are total: the range of JavaScript's dates, 8.64e15 milliseconds to either
-- side of 1970, is outside the model, as are times before 1970.
--
-- Not modelled: file access, the rest of the OpenClaw plugin and its runtime, the rest of the
-- Feishu adapters, the harness, ingress and the tests.
pub mod Prelude
pub mod Text
pub mod Host
pub mod Value
pub mod Types
pub mod Sorting
pub mod Keyed
pub mod State
pub mod Routing
pub mod Plugin
pub mod Feishu
pub mod Yaml
pub mod Projects
pub mod Tests

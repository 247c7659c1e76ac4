-- ===== src/Lib.antt =====
-- simian-agent injects chaos faults into Kubernetes namespaces (arenas) that have opted in, and takes
-- every one of them out again. This library models the core of its controller in Go.
--
-- The parts, and how they meet. A manifest (Simian.Types) describes one fault. The executor is the
-- only path to a driver: its gates (Executor.Safety, which uses Executor.Scope and Catalog.Tiers)
-- refuse or narrow the manifest, the check against the target's containers (Executor.Compat) refuses
-- what would break them, the budget (Executor.Budget) books a slot, the pipeline (Executor.Pipeline,
-- with Executor.Pods) runs the driver and registers the lease (Lease.Registry), and the history
-- (Executor.History) remembers what ran and what was refused. The reaper (Lease.Reaper) clears what
-- has expired; after a restart the adopter (Lease.Adopt) leases what is still live. All of them write
-- audit records. These are folded into a row for each fault (Audit.Faults), from which a restarted
-- controller rebuilds leases and closes what nobody tracks (Audit.Closing), and into a row for each
-- cycle (Audit.Cycles); the newest are held in memory (Audit.Logs). The history of a restarted
-- controller is filled from the fault rows too (Executor.Seeding). A request in words becomes a
-- manifest (Planner.Translate). In autonomous mode a turn of the loop (Loop.Turn) has a plan made and
-- checked (Planner.Generate), whose steps form a graph (Planner.Dag), and submits the graph's layers
-- (Loop.Cycle) to the executor, under the settings of an operator (Loop.Settings), where the health
-- gate (Loop.Health) lets a cycle run.
--
-- Which file models which code:
--   Simian/Types, Simian/Interfaces      pkg/simian/types.go, errors.go, interfaces.go
--   Simian/Targets                       pkg/simian/types.go: TargetNamespaces and the marks
--   Simian/Record                        pkg/simian/record.go
--   Simian/Text                          package strings, as far as the components call it
--   Lease/Registry, Lease/Reaper         pkg/lease/registry.go
--   Lease/Adopt                          pkg/lease/adopt.go
--   Catalog/Tiers, Catalog/Outage        pkg/catalog/tiers.go, outage.go
--   Executor/Budget                      pkg/executor/executor.go: reserve, recordApply
--   Executor/Budget/Threads              the same, for calls of Apply that run at once
--   Executor/Scope                       pkg/executor/nsscope.go
--   Executor/History                     pkg/executor/history.go
--   Executor/Safety                      pkg/executor/executor.go: validateSchema, validateSafety
--   Executor/Pods                        pkg/executor/podscope.go
--   Executor/Host                        pkg/executor/executor.go: the state; workloads.go: labels
--   Executor/Probing, Executor/Landing   pkg/executor/executor.go: the probes; the lease, the back-out
--   Executor/Pipeline                    pkg/executor/executor.go: Apply, Clear
--   Executor/Compat, Executor/Paths      pkg/executor/compat.go; path.Clean and regexp as it calls them
--   Executor/Recorded                    pkg/executor/executor.go: the payloads of Apply's records
--   Executor/Seeding                     pkg/executor/history.go: RefusalsFromAudit, RecentFromAudit
--   Planner/Dag                          pkg/planner/dag.go
--   Planner/Topology                     pkg/planner/generate.go: checkTargetCompat and its helpers
--   Planner/Generate                     pkg/planner/generate.go: Generate, parseAttackPlan
--   Planner/Replies                      pkg/planner/translate.go: extractJSON
--   Planner/Translate                    pkg/planner/translate.go: Translate, parseManifest
--   Audit/Records                        pkg/audit/audit.go, file.go: events and records
--   Audit/Faults, Audit/Closing          pkg/audit/faults.go; cmd/simian/serve.go: openAuditFile
--   Audit/Cycles                         pkg/audit/cycles.go: Cycles
--   Audit/Logs                           pkg/audit/cycles.go, faultlog.go: CycleLog, FaultLog
--   Loop/Settings                        pkg/loop/control.go, and sync of pkg/loop/loop.go
--   Loop/Health                          pkg/loop/health.go
--   Loop/Cycle                           pkg/loop/loop.go: executePlan and the refusals
--   Loop/Turn                            pkg/loop/loop.go: RunOnce
-- A function keeps its name in snake case (validateStepDAG is validate_step_dag); a receiver's state
-- is an argument and the new state a result. A module below one of these files holds its laws, and is
-- named for what it proves. Examples holds concrete inputs. Prelude holds what all of them share.
--
-- Conventions. A time is a natural number of nanoseconds since Go's zero time, which is 0; a duration
-- is a signed number, and their sums are within what time.Time holds. A limit that is off when it is
-- not positive is a natural number, and 0 is off. A map is an association list; where the code walks
-- a map, it sorts the keys first or the order does not matter. The fields of a JSON object
-- stand in the order of their keys. Errors carry their stage and reason, and audit events their
-- name, identifiers and reason; texts for a reader are left out. A driver, a prober, the eligibility
-- of a namespace and the clock are records of their answers during the call that is modelled, and a
-- missing auditor is one whose events are thrown away. What runs under one mutex is one step.
--
-- Fuel. PlanLayers is a loop on the number of steps that remain; the model runs it on fuel, the
-- number of steps, and each round takes at least one step off. The attempts of Generate and Translate
-- count down from the number of retries, as the code's do. No other function needs fuel.
--
-- Parameters. What the code calls and does not hold is an argument: package net; time.Parse,
-- time.ParseDuration and the conversions of JSON numbers (Reading, in Audit.Records), and the texts
-- that are written of times and durations; decoding JSON; minting identifiers; the model of a
-- language, as its reply to the errors that it has been told of; the pods that a label selects
-- (TargetPods); the drivers; the JSON text that keys a step. The pipeline takes the compatibility
-- check as an argument, of which nothing is assumed: Executor.Compat has the one that the code
-- gives it. Nothing is assumed of any of them, unless a theorem says so.
--
-- What is not modelled. The planner's prompts, the drivers, the probes, the Kubernetes clients, the
-- reading and writing of the audit file, the MCP server, the web interface and the evaluation harness
-- are left out: they are I/O around this core. The goroutines of a cycle's layer run one after
-- another, in any order; that two of them overlap inside Apply is what Executor/Budget/Threads is
-- about.
pub mod Prelude
pub mod Simian
pub mod Lease
pub mod Catalog
pub mod Executor
pub mod Planner
pub mod Audit
pub mod Loop
pub mod Examples

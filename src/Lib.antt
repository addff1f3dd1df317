-- ===== src/Lib.antt =====
-- Chango Assistant, a personal assistant in Go: parts of its core, modelled and proved.
--
-- The assistant receives messages over channels, keeps a history per session, asks a language model,
-- lets it use tools, and runs scheduled jobs. A channel (pkg/channels/base.go) admits a sender by its
-- allow list and publishes the message on the bus. The history of its session stands in the session
-- manager (pkg/session/manager.go), in memory and in one file per session. The tool loop
-- (pkg/tools/toolloop.go) asks a provider until it answers without calling tools; the privacy router
-- (pkg/providers/privacy_router.go) is a provider that chooses between a local model and one in the
-- cloud. The scheduler (pkg/cron/service.go) starts turns of the agent by itself. Beside these stand a
-- daily budget of tokens, a list of experiments on the assistant's behaviour, and health checks of
-- other services.
--
-- The agent's iteration (pkg/agent/loop.go) is the loop behind a conversation: it runs tools from the
-- registry (pkg/tools/registry.go), saves each call with its answers to the session, shows results on
-- the bus (pkg/bus/bus.go), and changes the provider after repeated failures. The channel manager
-- (pkg/channels/manager.go) takes the outbound messages off the bus and sends them. A workflow
-- (pkg/tools/workflow.go) is a tool that runs other tools in order. The state manager
-- (pkg/state/state.go) keeps the last channel over a restart, and the sentinel
-- (pkg/sentinel/service.go) sends alerts there. Among the tools of the registry are the tasks
-- (pkg/tools/tasks.go), the knowledge graph (pkg/tools/knowledge_graph.go) and the file tools
-- (pkg/tools/filesystem.go, edit.go), each over files of its own, and a wallet with limits
-- (pkg/tools/wallet.go); the scratchpad
-- (pkg/agent/scratchpad.go) is what the agent notes about a conversation.
--
-- Files and sources:
--   Cron/Types, Jobs, Schedule, Service, Execution   pkg/cron/service.go: the records, the functions on
--     the list of jobs, computeNextRun, the methods, and executeJobByID with checkJobs
--   Cron/Ids, Steps, Claim, Outcome, Planned, Missed  proofs on these
--   Session/Manager, Files                           pkg/session/manager.go: in memory, and on the disk
--   Session/History, Disk, Restart                   proofs on these
--   Tools/Result, Loop                               pkg/tools/result.go and toolloop.go
--   Tools/Transcript                                 proofs on the messages of the loop
--   Tools/Args, Registry, Workflow, WorkflowRuns     reading of arguments, pkg/tools/registry.go and
--     workflow.go: the steps of a workflow, and its runs with their file
--   Tools/WorkflowOutcome, WorkflowFile              proofs on workflows
--   Tools/Tasks, TaskTexts                           pkg/tools/tasks.go: the actions that change the
--     file, and those that only read it with the dispatch
--   Tools/TaskList, TaskChanges, TaskStore           proofs on the tasks
--   Tools/Knowledge/Graph, Changes, Views, Search, Paths, Store   pkg/tools/knowledge_graph.go: the
--     graph with its file, the actions that change it and those that read it, the search for a path,
--     and the dispatch
--   Tools/Knowledge/Marks, Neighbours, Rounds, Measure, Shortest  proofs on the search
--   Tools/Knowledge/Sound, Edges, Calls, Limit       proofs on the graph
--   Tools/Files/Disk, Replace, Actions               pkg/tools/filesystem.go and edit.go
--   Tools/Files/Confined, Occurrences, Edits, RoundTrip  proofs on these
--   Tools/Wallet/Log, Requests, Payments             pkg/tools/wallet.go: the log with its sums, the
--     requests, and the payments with the dispatch
--   Tools/Wallet/Limits                              proofs on the limits
--   Tools/Subagent/Manager, Runs, Finished           pkg/tools/subagent.go, and proofs
--   Agent/Trim, State, Iteration, Background         pkg/agent/loop.go and commands.go:
--     trimHistoryForPrompt, the AgentLoop with tryAutoRecovery, runLLMIteration, and the choice of the
--     model in runAgentLoop
--   Agent/Blocks, Recent, Saved, Ends, Recovery,
--   Escalation                                       proofs on these
--   Agent/Scratchpad/Hints, Memory, Bounds           pkg/agent/scratchpad.go, and proofs
--   Bus/Queue, Fifo                                  pkg/bus/bus.go, and proofs
--   State/Manager, Reload                            pkg/state/state.go, and proofs
--   Sentinel/Service, Throttle                       pkg/sentinel/service.go, and proofs
--   Channels/Manager, Retry                          pkg/channels/manager.go, and proofs
--   Providers/Types, Classifier, Inputs, Router      pkg/providers/types.go, privacy_classifier.go,
--     privacy_router.go, and parts of capabilities.go
--   Providers/Score, Sanitize, Routing, Privacy, Lock  proofs on these
--   Experiments/Store, Limit                         pkg/experiments/store.go, and proofs
--   Telemetry/Budget, Spending                       pkg/telemetry/budget.go, and proofs
--   Healthcheck/Service, Log, Failures               pkg/services/healthcheck/service.go, and proofs
--   Channels/Base, Access                            pkg/channels/base.go, and proofs
--   Base, and Tests                                  shared names and lemmas; concrete runs
--
-- Names are those of the source in snake_case (`TruncateHistory` is `truncate_history`), a method's
-- receiver is its last argument, and a changed receiver comes back as a result. A helper for a part of
-- a function says which one in its comment.
--
-- Conventions:
--   * A Go string is the list of its bytes (`Text`); `codes "..."` gives the bytes of an ASCII text
--     and `utf8 "..."` those of any other.
--   * A signed number is an integer, and a sum that can overflow in the source wraps to 64 bits
--     (Base/Int64). Counters that only count calls are natural numbers.
--   * Readings of the clock, random identifiers and the outcomes of input and output are arguments. A
--     file is a value that a successful write replaces whole, as the rename in the source does.
--   * Models, tools, regular expressions, word splitting, the cron library, the time zones and
--     what encoding/json reads back are parameters, and so is the file that a path leads to along
--     symbolic links. A model or a tool acts on a world of its own, which makes its calls
--     visible in the results.
--   * A method that holds the lock is one step. `executeJobByID` is two, between which other threads
--     may change the service in any way (`meanwhile`); Cron/Steps interleaves the steps freely.
--   * A map is an association list with its first entry for a key. Where Go visits a map in an
--     arbitrary order, the model has one order, and the statements do not depend on it.
--
-- Loops and fuel: the tool loop recurs on the rounds that are left, MaxIterations at first, which is
-- the source's own bound, and so does the agent's iteration; a workflow's attempts and the sending of a
-- message recur on the attempts that are left. The blocks of a history have its length as fuel, and
-- each takes at least one message. Trimming spaces has the length of the text as fuel, and every round
-- drops at least one byte; counting the places of a text has its length as fuel, and each place takes
-- a byte. The search for a path in the knowledge graph has one round for each end of an edge and one
-- more, and a node enters the queue only when it is marked for the first time. All other loops recur on
-- the list that they visit.
--
-- Not modelled: the agent's prompts, its summaries and its commands, most of the tools, the clients of
-- providers and of messaging platforms, configuration, authentication, skills, and the command. They
-- are mostly input and output, or text. Logging is left out everywhere, and so are the texts that
-- `BuildAdjustmentsPrompt`, `String`, `MarshalJSON` and `formatWorkflowSummary` produce. A tool whose
-- deadline passes is given up; what it does to the world afterwards is not followed.
pub mod Base
pub mod Cron
pub mod Providers
pub mod Session
pub mod Tools
pub mod Agent
pub mod Experiments
pub mod Bus
pub mod State
pub mod Sentinel
pub mod Channels
pub mod Telemetry
pub mod Healthcheck
mod Tests

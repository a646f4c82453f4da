-- ===== src/Lib.antt =====
-- Verification of the core of k8s4claw, a Kubernetes operator that runs AI agents ("claws") with a
-- message bus beside each of them.
--
-- The program's parts and their files:
--
-- The IPC bus (internal/ipcbus) stands between the channel sidecars of a claw and its runtime.
-- `Router.HandleInbound` appends a data message to the write-ahead log, pushes it into the ring
-- buffer of its channel, hands it to the bridge, and on success completes the log entry and pops
-- the buffer; on failure `scheduleRetry` counts an attempt and past the limit moves the message to
-- the dead letter queue.
--   Ipc.Message   message.go: the message types and constructors
--   Ipc.Framing   framing.go: `WriteMessage` and `ReadMessage` on a stream of bytes
--   Ipc.Float     the laws of floating point numbers that the watermarks use
--   Ipc.Ring      ringbuffer.go: `NewRingBuffer`, `Push`, `Pop`, with a queue as specification
--   Ipc.Wal       wal.go: the file as its lines and the number of them on disk, the pending entries
--                 as a map; every operation of `WAL` with its failures as arguments
--   Ipc.Dlq       dlq.go: `Put`, `Get`, `Delete`, `Size`, `PurgeExpired` over a bolt bucket
--   Ipc.Router    router.go: the router's state and its handlers, with what is sent as events
--
-- The rules engine (internal/rules, with the severities of api/v1alpha1/common_types.go) picks the
-- rule for a signal and keeps the cooldowns.
--   Rules.Types, Rules.Builtin, Rules.Engine
--
-- The registry client (internal/registry/resolver.go) lists the tags of an image through two caches
-- and chooses the version to update to; the reconciler of automatic updates calls both.
--   Registry.Image, Registry.Client, Registry.Resolver
--
-- The reconcilers (internal/controller):
--   Controller.AutoUpdate   autoupdate_controller.go: `Status` has the state and what a rollback or
--                           a completed update makes of it, `Cluster` the parameters, the calls and
--                           the small tests, `Reconcile` the handlers, which give the calls they
--                           make in order and the result
--   Controller.Intent       clawops_intent.go and claw_ops_intent_consumer.go: an operation that is
--                           asked for by an annotation, with the counter against replays; `Template`
--                           has the overrides of the pod template
--   Controller.Ops          clawops_controller.go and clawops_signals.go, with the phases of
--                           api/v1alpha1/clawopsescalation_types.go: from the pods' signals to
--                           an automatic action or an escalation, the hourly limit, the approvals
--                           and the deletion of old escalations, as the calls they make in order;
--                           its intents are what Controller.Intent reads; `Escalations` has the
--                           approvals and the deletion
--   Controller.Channels     channel_controller.go and channel_sidecar.go: the finalizer of a channel
--                           and the sidecars of a claw
--   Controller.SelfConfig   selfconfig_controller.go: `validateActions`, `applyChanges` and the
--                           reconciler
--
-- The companion (cmd/claw4k8s) takes the pending escalations, asks a language model and stores its
-- analysis and its proposal; the command line tool (cmd/kubectl-claw) approves or rejects them, and
-- Controller.Ops executes what is approved.
--   Companion   `Pipeline` pipeline.go, `Watcher` watcher.go, `Gateway` and `Prompt` llm_client.go,
--               `Namespaces` main.go
--   Cli         main.go: `Flags` the common flags, `Approval` the two commands
--   Lifecycle   the writes of the three programs to one escalation as a relation, from the
--               controller's first one on
--
-- The SDK's client for channels (sdk/channel) is the other end of the bus: it registers, sends,
-- keeps messages while the bus is down, and waits while the bus tells it to slow down.
--   Sdk.Channel   `Buffer` buffer.go, `Wire` message.go, `Options` options.go, `Client` client.go
--
-- The admission webhook (internal/webhook) accepts or refuses a claw, with the runtimes' adapters
-- (internal/runtime) behind it.
--   Webhook   claw_validator.go and claw_defaulter.go; `Runtimes` has the adapters' checks
--
-- Base holds what the components share: maps as association lists (`Dict`), lists, texts, signed
-- integers and Boolean tests.
--
-- How the code is translated. A struct is a record, a map an association list, an error a failing
-- option, a flag or a constructor. A method takes the state and gives the new state. A lock is held
-- for the whole of each method that takes it, so a method is one step; of the router, which takes
-- its lock for parts of a handler, a handler is run as one step; of the SDK's client, a step is a
-- part that holds a lock, or a handler. Times are natural numbers of nanoseconds, read once for
-- each reconciliation. No function is given fuel: all loops run over lists, or over the number of
-- attempts that the code counts.
--
-- Code that is not of this repository is a parameter: bolt (Ipc.Dlq.Bolt), JSON (Ipc.Framing.Json,
-- Ipc.Wal.WalJson, Controller.Intent.Types.Codec), the semver library (Registry.Resolver.Semver),
-- HTTP (Registry.Client.Http), the cluster's answers (Controller.AutoUpdate.Cluster.Cluster,
-- Controller.Intent.Types.World), cron (Controller.AutoUpdate.Cluster.Platform). The texts of
-- durations, times and JSON values, which Go's library reads and writes, are parameters too. So are
-- Kubernetes quantities (Webhook.Types.Quantities), the model behind the gateway
-- (Companion.Gateway.Net) and the answers in one reconciliation (Controller.Ops.Types.Cluster,
-- Controller.SelfConfig.Types.Cluster, Controller.Channels.Types.Cluster). The
-- answer to `Update` may change the status that the controller holds, since the client decodes it
-- into the object that the status is a part of; the parameter gives what is left, and
-- Controller.AutoUpdate.Decoding says what it is if the server answers with the status it stores.
--
-- Not modelled: the bridges, the socket server, metrics and the process's signals of the bus; the
-- reconciler of claws and the builders of Kubernetes objects; the pod templates and
-- probes of the runtimes; the notifier of the companion and the printing of the command line tool;
-- the channels' own programs and the client library for claws. For the most part they call
-- libraries, build objects or serve a network protocol.
pub mod Base
pub mod Ipc
pub mod Rules
pub mod Registry
pub mod Controller
pub mod Companion
pub mod Cli
pub mod Lifecycle
pub mod Sdk
pub mod Webhook

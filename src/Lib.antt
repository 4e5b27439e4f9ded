-- ===== src/Lib.antt =====
-- strategon deploys trading strategies to machines. A control plane keeps what each machine should
-- run and grants fencing leases; an agent on each machine converges its processes to that, with
-- health windows, automatic rollback, crash backoff and cron schedules; a strategy's SDK checks its
-- lease before every order. This library models these parts and proves what they keep true.
--
-- Prelude holds what the parts share: Boolean tests on native numbers and texts, Go maps as
-- association lists (Prelude.Maps; a statement about every list holds for every order of
-- iteration), instants in nanoseconds, and maps without a second entry for a key (Prelude.Entries).
--
-- Proto has the messages of proto/strategyplatform/v1. Names has the validation of volume and
-- shared file names (internal/volume/name.go, internal/sharedfile/name.go).
--
-- Supervisor.Backoff and Supervisor.Stop are internal/agent/supervisor. The stop sequence runs over
-- an injected world, on fuel: one round for every nanosecond of the grace time is enough, because a
-- poll lasts at least one.
--
-- Agent is internal/agent/reconciler. State is its state.go, with the maps of Reconciler. World is
-- `Deps`: what the driver, the artifact manager, the clock and the file system answer during one
-- round, as functions, and the effects that handlers ask for. A handler of one strategy maps a
-- `Local`, the strategy's state with the effects so far, the newest first. Process, Deploy,
-- Converge, Exit, Health and Cron are the handlers (startProcess and installProcess; beginDeploy,
-- applyWorkerEvent and beginRollback; reconcileOne; handleExit; tick and probes; schedules).
-- Volumes and Shared are the machine's volumes and shared files, Reap the requests to delete slots.
-- Worker is runDeploy, as the steps of one run; each event that it sends is taken by the main loop
-- or lost to the end of the run's context, which the run's `Supply` tells. Rebuild is what survives
-- a restart of the agent (rebuild.go, internal/agent/supervisefile). Loop composes the handlers
-- over the map of strategies as `Run` does: an event, then `reconcile`. Its events are desired
-- states, process exits, worker results, shared files, probe results and clock ticks; the walk of
-- slot sizes and the two events of reaping are left out of the loop.
--
-- Lease is the lease store (internal/controlplane/store/lease.go and memory.go) with the RPCs of
-- internal/controlplane/lease/server.go; Lease.Client is sdk/lease/client.go, with a reading for
-- every time that it reads the clock: the monotonic one wherever Go subtracts two values of
-- time.Now.
--
-- ControlPlane.Memory is the part of internal/controlplane/store/memory.go that writes a machine's
-- desired state and renders its snapshot; ControlPlane.Assign is internal/controlplane/assign,
-- whose Service.Apply reads the stores and then writes with no lock over both: `apply_over` takes
-- what was read and the machines that the write meets, and `apply`, which the orchestrator's tick
-- calls here, is the run between whose reads and write nothing else is written; ControlPlane.View
-- is internal/controlplane/view, with the agent's report of one strategy. The snapshot of
-- ControlPlane.Memory is what Agent.Loop applies, and the report of Agent is what ControlPlane.View
-- joins with the record.
--
-- ControlPlane.SetSpec has the messages of assignment sets, and ControlPlane.Sets their store
-- (internal/controlplane/store/memory_sets.go): who claims which slot, and the refusal of a write
-- that conflicts. The orchestrator (internal/controlplane/orchestrator) is split by what a tick
-- does: OwnedSlots (ownedSlots, assignedSlots, droppedSlots, transitionComplete), Rollout (the
-- controller's state and its undeploys), Candidates (computeAssignment and the look-ups), Survey
-- (the pass over the members), Roll (the loops over members in flight and candidates, and the
-- statuses) and Reconcile (Reconcile, reconcileDelete, and the turn of one set in ReconcileAll).
-- The orchestrator writes through ControlPlane.Assign and reads through ControlPlane.View, as the
-- source does; what a tick asks of the store of sets is its answer, which ControlPlane.Sets carries
-- out. The orchestrator takes the expansion of templates as an interface, `Deps`, which
-- `with_templates` fills from internal/controlplane/assignmentset: ControlPlane.Template is the
-- substitution in one text, ControlPlane.Expand a member's template, ControlPlane.Config the name
-- of its configuration. That loop runs on fuel, one round more than the text has closing braces,
-- since each round removes one.
--
-- The agent is taken to have an artifact manager; the control plane's notifier, log and audit are
-- not state. Numbers that Go keeps in int32 or int64 as counts, sizes and durations are natural
-- numbers; the restart count keeps its 32 bits. A clock is read once in a round. Where a text is
-- formatted, the format is a function of the world.
--
-- Not modelled: the Linux driver, downloads and the file system, HTTP handlers and streams, the SQL
-- store, authentication and secrets, slot walks, the rendering of arguments and environments by the
-- agent, and generated code.
pub mod Prelude
pub mod Supervisor
pub mod Names
pub mod Lease
pub mod Proto
pub mod Agent
pub mod ControlPlane
pub mod Tests

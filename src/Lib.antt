-- ===== src/Lib.antt =====
-- A model of airlock-host, the runtime of Airlock connectors (the Go module of this repository).
--
-- A host keeps connectors, programs that it runs as child processes, and obeys a control plane that
-- installs, updates, rolls back and removes them. What it has to remember, it keeps in the Store
-- (state.go): the records of the connectors, and a queue of the changes of the inventory that the
-- control plane has not acknowledged yet. Every change goes through the Store: it validates what it is
-- given, works out a new state, writes that to host.json, and only then takes it over.
--
-- Files:
--   Policy      policy.go: access modes and what they allow.
--   Protocol    what the host uses of the package connector/protocol of agentsdk and of encoding/json.
--               None of it is in this repository, so it is a parameter: types, validators, constants and
--               the effect of the encoding. IsCodec and IsProtocol name what is assumed of it.
--   Record      state.go: ConnectorRecord, validateConnectorRecord, cloneRecord, the mutations that
--               describe a record; artifact.go: validateArtifactFilename; host.go: manifestsEqual.
--               Record/Storable has records that are valid in every form that the encoding gives them.
--   Contracts   state.go: validateSingletonContracts. Contracts/Unique has its meaning.
--   Store       state.go: the Store. Store/Plans has the operations, Store/Acknowledge the
--               acknowledgement, Store/Load `load` with its migrations, Store/Operations the operations
--               as one type. Store/Invariant has what every state keeps, and Store/Sound, Store/Reload,
--               Store/Effects and Store/Progress have the theorems.
--   Outbox      outbox.go: the outcomes of jobs that wait on disk. Outbox/Flush and Outbox/Prune have the
--               flush and the retention, Outbox/Delivery, Outbox/Capacity, Outbox/Accounting,
--               Outbox/Draining and Outbox/Retention the theorems.
--   Recovery    host.go: recoverInterruptedManagement and the exchange of the slots by a rollback;
--               journal.go: managementOutcome (Recovery/Outcome). Recovery/Settled, Recovery/Reported,
--               Recovery/Installs, Recovery/Journals, Recovery/Answered and Recovery/Slots have the
--               theorems.
--   Supervisor  supervisor.go: the jobs that are recorded of the child processes, and Dispatch;
--               Supervisor/Lifecycle has launch, Start, Activate and Stop, Supervisor/Watching the
--               messages of a child, settleChild and the restart. Supervisor/Dispatching,
--               Supervisor/Activation and Supervisor/Watching/Reported have the theorems.
--   Artifact    artifact.go: staging and verification of the executables. Artifact/Inspect has
--               boundedBuffer and inspectManifest, Artifact/Inputs Stage and StageLocal, Artifact/Checks and
--               Artifact/Staging the theorems. SHA-256, hex, URLs and the decoder of manifests are the parameter System.
--   Host        host.go: installRemote, installLocal and rollback (Host/Changes) and remove
--               (Host/Removing), over the Store, the Supervisor and the files of the artifacts.
--               Host/Switched, Host/Outcomes, Host/Installed, Host/RolledBack and Host/Removed have what each
--               leaves.
--               Host/View has the abstract view of the connectors, as moves of their artifacts between
--               an active and a previous slot, and Host/Moved and Host/Refinement that the code implements
--               it.
--   Management  host.go: handleManagement (Management/Handling, and Management/Answering for a job that
--               has a journal); journal.go: the journal of the jobs.
--               Management/Replay and Management/Fresh have the theorems.
--   Enrollment  enroll.go: EnrollWithPrompt. Its loop is recursion on fuel; Enrollment/Ends shows how
--               many rounds are enough, and Enrollment/Enrolled what the host has afterwards.
--   Service     cmd/airlock-host/service_linux.go and service.go: the states of the managed service,
--               Start, Stop, Uninstall, and the reset of an enrollment (Service/Unenroll); the quoting of
--               arguments (Service/Quoting). systemd is the parameter Systemd, and the loop that waits
--               for a state is recursion on fuel, which stands for the time that a caller waits.
--   Reset       state.go: ResetState, over the entries of the state directory (Reset) and what it leaves
--               (Reset/Cleared). The outcomes of the system calls are the record Calls, and the libraries'
--               functions the record Platform.
--   Common, Dict, Text, Samples   shared names, maps as association lists, texts, and sample data.
--
-- How code becomes definitions. A Go map is an association list with distinct keys; an error is a
-- constructor of Error, or `external` and `rejected` for errors of packages that are not modelled. The
-- file system decides how each write ends (WriteOutcome); in particular a write may replace the file
-- and report an error all the same. The mutex and the process lock of the Store make each operation one
-- step, so concurrent callers are sequences of steps. A mutation's revision is a uint64, and the bound
-- is checked where the code checks it.
--
-- Not modelled: system calls, processes, the HTTP servers and clients, the command line and the
-- services, and what the strict JSON decoder rejects.
mod Common
pub mod Dict
pub mod Text
pub mod Policy
pub mod Protocol
pub mod Record
pub mod Contracts
pub mod Store
pub mod Outbox
pub mod Recovery
pub mod Artifact
pub mod Supervisor
pub mod Host
pub mod Management
pub mod Enrollment
pub mod Service
pub mod Reset
mod Samples

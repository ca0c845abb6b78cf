-- ===== src/Lib.antt =====
-- The incident core of KubeCouncil: how an incident is opened, investigated, approved, mitigated
-- and found to have recovered.
--
-- An incident is one immutable record (`InvestigationRecord`) that the incident store replaces.
-- An alert opens it; Specialists append evidence and findings; the Coordinator's output ends the
-- investigation with a proposal or guidance; the policy decides on the proposal; a human approves
-- it, bound by hashes to what was reviewed; the Executor claims one Intervention under a lease on
-- the workload and ends it; recovery assessments of consecutive windows resolve the incident.
--
-- Files, and the code that they model:
--   Base         Booleans, lists, results, equality, dicts and JSON values as Python has them;
--                Base/Effects: calls that change a state and may raise, with `try`, `except` and
--                `finally`.
--   Domain       backend/app/domain/incidents.py: enums and data classes with their fields and
--                validators, the transition tables and `transition_incident` (Domain/Lifecycle),
--                the record and its validator (Domain/Record).
--   Binding      backend/app/domain/approval.py: `canonical_hash`, `build_approval_binding`,
--                `approval_matches_record`.
--   Store        backend/app/domain/incident_fakes.py, `InMemoryIncidentStore`: reading and
--                replacing (Store/Access), `create` and `list` (Store/Create), the appends
--                (Store/Append), the decisions (Store/Decide), Interventions (Store/Intervene),
--                recovery assessments (Store/Recover). Store/Change has every mutation as a
--                value, and `execute` as the call of its method.
--   Durable      backend/app/services/incident_store.py: `FirestoreIncidentStore` over
--                `InMemoryDocumentDatabase`.
--   Queue        backend/app/services/intervention_queue.py: `build_intervention_request`,
--                `intervention_request_hash`, `InMemoryInterventionQueue`.
--   Approvals    backend/app/services/approval.py, `ApprovalService`: `review` and `decide`, and
--                the identities of backend/app/domain/identity.py.
--   Lease        backend/app/services/workload_lease.py: `FirestoreWorkloadLeaseStore` over
--                `InMemoryLeaseDatabase`.
--   Enrollment   backend/app/services/enrollment.py: `EnrollmentChecker.check` and
--                `require_enrolled_target`.
--   Policy       backend/app/services/proposal_policy.py, `DeterministicProposalPolicy`: patches
--                (Policy/Patch), the checks (Policy/Checks), `evaluate` (Policy/Evaluate) and
--                `evaluate_and_record` (Policy/Record).
--   Executor     backend/app/services/intervention_executor.py,
--                `DeterministicInterventionExecutor`: `consume` (Executor/Consume), its tests of
--                the recorded authority (Executor/Authority), and what it does when an action
--                failed or an exception was raised (Executor/Failure).
--   Verifier     backend/app/services/recovery_verifier.py, `DeterministicRecoveryVerifier`:
--                what is read first (Verifier/Context), the assessment (Verifier/Assess) and
--                `verify_next_window` (Verifier/Verify).
--   Gateway      backend/app/services/evidence_gateway.py, `EvidenceQueryGateway`: the mapping and
--                the budget of a follow-up query, up to the query in the record.
--   Tests        runs of the operations on concrete incidents and leases.
--
-- How the code is read:
--   * A method takes the state and returns the new state with its result, or an error; the
--     exception's class and message are kept, but for the values that a message interpolates and
--     the text that pydantic adds to a validator's message. A method that raises leaves the state
--     as it was, as the code writes only after its last check; `decide` of Approvals, which calls
--     the store and the queue in turn, returns the state it leaves with its error. The locks make
--     calls sequential.
--   * A mutation of the store is a function on the record, and `amend` is the reading and writing
--     around it.
--   * `datetime` is ℕ, in microseconds after `datetime.min`; a `timedelta` is in microseconds.
--     Rates and confidences are doubles between 0 and 1, as multiples of 2 ^ -1074, and are only
--     compared. Bounds and patterns of single fields hold of every value that pydantic built, and
--     are not repeated.
--   * `uuid4` and the clock are arguments. A frozenset or set is the list of its elements. JSON
--     objects are sorted by key.
--   * `json.dumps` with SHA-256 is the parameter `Digest`. The JSON dump and the validation of a
--     stored record are the parameter `Codec` of Durable; in Store and Lease, validating the
--     dump of a model again is running its validator. In Lease a document is the lease itself.
--   * Policy, Executor and Verifier call the cluster, the evidence providers, the probes, clocks
--     and UUIDs. These are records of effects on a state of any type, so a call may change
--     whatever is outside, differ from one call to the next, and raise; what was done before a
--     raise stays done. The locals that `except` and `finally` read are part of that state.
--   * Every loop of the modelled code runs over a tuple, and needs no fuel. `str` of a number
--     has fuel one above the number, which is more than it has digits.
--
-- Not modelled: the Google Firestore and Pub/Sub adapters (SDK glue), the canned profiles and
-- evidence of the fakes and the fake providers (test support), the evidence adapters with the
-- rest of the evidence gateway, the collection of the initial evidence, the alerts and the
-- council, the HTTP API, bootstrap and rehearsal tooling.
pub mod Approvals
pub mod Base
pub mod Binding
pub mod Domain
pub mod Durable
pub mod Enrollment
pub mod Executor
pub mod Gateway
pub mod Lease
pub mod Policy
pub mod Queue
pub mod Store
pub mod Tests
pub mod Verifier

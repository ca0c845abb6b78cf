-- ===== src/Approvals.antt =====
-- The Approval workflow (backend/app/services/approval.py, `ApprovalService`) and the operator
-- identities of backend/app/domain/identity.py.
pub mod Fresh
pub mod Published
pub mod Review
use kubecouncil.Base.{
  ℕ, leb, ◌+◌, String, Bool, true, false, not, ◌&&◌, Option, none, some, List, [], ◌∷◌, Result,
  Error, ok, err, ◌>>=◌, ◌>>◌, value_error, approval_error, raise_if, Eq, eq_of_discrete, ◌==◌,
  is_empty, if◌then◌else◌,
}
use kubecouncil.Base.Dict.{lookup}
use kubecouncil.Domain.Enums.{ApprovalDecision, approval_decision_eq}
use kubecouncil.Domain.Evidence.{Instant}
use kubecouncil.Domain.Profile.{WorkloadReference}
use kubecouncil.Domain.Policy.{RemediationProposal, DeploymentPolicyState, action_target}
use kubecouncil.Domain.Authority.{
  Approval, ApprovalBinding, ApprovalReview, InterventionRequest, has_a_future_expiry,
  approval_binding_eq,
}
use kubecouncil.Domain.Record.{AuditEvent, InvestigationRecord}
use kubecouncil.Binding.{Digest, build_approval_binding}
use kubecouncil.Store.Access.{Store, get}
use kubecouncil.Store.Change.{approval, audit_event, execute}
use kubecouncil.Queue.{Queue, build_intervention_request, publish}

pub data OperatorRole : Type 0 where
  viewer responder : OperatorRole

unfoldable pub OperatorRole-discrete : Discrete OperatorRole
OperatorRole-discrete = hlevel

instance abbrev pub operator_role_eq : Eq OperatorRole
operator_role_eq = eq_of_discrete OperatorRole-discrete

pub record OperatorIdentity : Type 0 where
  pub principal : String
  pub subject : String
  pub role : OperatorRole

-- `inspect_deployment` of the Kubernetes provider, which may raise.
abbrev pub Inspect : Type 0
Inspect = WorkloadReference → Result (Option DeploymentPolicyState)

-- The store and the queue behind the publisher, if the service has one.
pub record State : Type 0 where
  pub store : Store
  pub publisher : Option Queue

-- `except ValueError as error: raise ApprovalError(str(error)) from error`
unfoldable pub as_approval_error {ℓ} : {A : Type ℓ} → Result A → Result A
as_approval_error (ok a) = ok a
as_approval_error (err (value_error message)) = err (approval_error message)
as_approval_error (err e) = err e

unfoldable pub require_responder : OperatorIdentity → Result (Unit {0})
require_responder identity =
    raise_if (not (identity.role == OperatorRole.responder))
      (approval_error "Responder role is required")

unfoldable pub existing_record : Store → String → Result InvestigationRecord
existing_record store incident_id = elim (get store incident_id) [
  | none ↦ err (approval_error "incident does not exist")
  | some r ↦ ok r
]

unfoldable pub existing_proposal : InvestigationRecord → String → Result RemediationProposal
existing_proposal r missing = elim r.proposal [
  | none ↦ err (approval_error missing)
  | some p ↦ ok p
]

unfoldable pub existing_state : Option DeploymentPolicyState → Result DeploymentPolicyState
existing_state none = err (approval_error "current Deployment state is unavailable")
existing_state (some s) = ok s

abbrev pub decision_value : ApprovalDecision → String
decision_value ApprovalDecision.approved = "approved"
decision_value ApprovalDecision.rejected = "rejected"

-- The Approval of a decision on a fresh binding.
unfoldable pub approval_of :
    String
    → String
    → RemediationProposal
    → OperatorIdentity
    → ApprovalDecision
    → Instant
    → ApprovalBinding
    → Approval
approval_of approval_id incident_id p identity decision now b = record {
  approval_id = approval_id;
  incident_id = incident_id;
  proposal_id = p.proposal_id;
  responder_principal = identity.principal;
  decision = decision;
  decided_at = now;
  expires_at = b.expires_at;
  proposal_hash = b.proposal_hash;
  evidence_hash = b.evidence_hash;
  workload_resource_version = b.workload_resource_version;
  workload_generation = b.workload_generation;
  workload_revision = b.workload_revision;
  policy_hash = b.policy_hash;
  dry_run_hash = b.dry_run_hash;
  recovery_criteria_hash = b.recovery_criteria_hash;
  failure_strategy_hash = b.failure_strategy_hash;
}

unfoldable pub event_type_of : ApprovalDecision → String
event_type_of ApprovalDecision.approved = "proposal_approved"
event_type_of ApprovalDecision.rejected = "proposal_rejected"

unfoldable pub decision_event : String → Approval → OperatorIdentity → AuditEvent
decision_event event_id a identity = record {
  event_id = event_id;
  incident_id = a.incident_id;
  event_type = event_type_of a.decision;
  occurred_at = a.decided_at;
  actor = identity.principal;
  details =
      ("approval_id", a.approval_id)
      ∷ ("proposal_id", a.proposal_id)
      ∷ ("decision", decision_value a.decision)
      ∷ ("subject", identity.subject)
      ∷ ("proposal_hash", a.proposal_hash)
      ∷ [];
  cursor = 0;
}

unfoldable pub request_event : String → String → Instant → InterventionRequest → AuditEvent
request_event event_id incident_id now q = record {
  event_id = event_id;
  incident_id = incident_id;
  event_type = "intervention_requested";
  occurred_at = now;
  actor = "investigator";
  details =
      ("request_id", q.request_id)
      ∷ ("approval_id", q.approval_id)
      ∷ ("idempotency_key", q.idempotency_key)
      ∷ ("payload_hash", q.payload_hash)
      ∷ [];
  cursor = 0;
}

module _ (digest : Digest) (inspect : Inspect) where
  -- `review`; `expires_at` is the clock's reading plus the time that a review lasts.
  unfoldable pub review : Store → String → OperatorIdentity → Instant → Result ApprovalReview
  review store incident_id identity expires_at = do
    require_responder identity
    r ← existing_record store incident_id
    raise_if (not (is_empty r.approvals)) (approval_error "proposal is already decided")
    p ← existing_proposal r "incident has no Remediation Proposal to review"
    inspected ← inspect (action_target p.action)
    state ← existing_state inspected
    binding ← as_approval_error (build_approval_binding digest r state expires_at)
    ok (record {
      incident_id = incident_id;
      proposal_id = p.proposal_id;
      responder_principal = identity.principal;
      binding = binding;
    })

  -- `decide` up to the Approval that it builds.
  unfoldable pub approval_to_record :
      Store
      → String
      → OperatorIdentity
      → ApprovalDecision
      → ApprovalBinding
      → Instant
      → String
      → Result Approval
  approval_to_record store incident_id identity decision reviewed now approval_id = do
    require_responder identity
    raise_if (leb reviewed.expires_at now) (approval_error "approval review context expired")
    r ← existing_record store incident_id
    raise_if (not (is_empty r.approvals)) (approval_error "proposal is already decided")
    p ← existing_proposal r "incident has no Remediation Proposal to decide"
    inspected ← inspect (action_target p.action)
    state ← existing_state inspected
    current ← as_approval_error (build_approval_binding digest r state reviewed.expires_at)
    raise_if (not (current == reviewed)) (approval_error "approval review context is stale")
    has_a_future_expiry (approval_of approval_id incident_id p identity decision now current)

module _ (digest : Digest) where
  -- The end of `decide`, after the queue took the request.
  unfoldable pub announce : Store → Queue → String → AuditEvent → State × Result InvestigationRecord
  announce store requests incident_id event =
      elim (execute digest (audit_event event) incident_id store) [
        | err e ↦ (record { store = store; publisher = some requests }, err e)
        | ok (store', r) ↦ (record { store = store'; publisher = some requests }, ok r)
      ]

  -- `if decision is APPROVED and self._publisher is not None`, on the recorded Approval.
  unfoldable pub publish_approved :
      Store
      → Queue
      → String
      → InvestigationRecord
      → Approval
      → Instant
      → String
      → State × Result InvestigationRecord
  publish_approved store requests incident_id recorded a now event_id =
      elim (build_intervention_request digest recorded a now) [
        | err e ↦ (record { store = store; publisher = some requests }, err e)
        | ok q ↦ elim (publish requests q) [
          | err e ↦ (record { store = store; publisher = some requests }, err e)
          | ok requests' ↦
              announce store requests' incident_id (request_event event_id incident_id now q)
        ]
      ]

  unfoldable pub after_recording :
      Store
      → Option Queue
      → String
      → InvestigationRecord
      → Approval
      → Instant
      → String
      → State × Result InvestigationRecord
  after_recording store none incident_id recorded a now event_id =
      (record { store = store; publisher = none }, ok recorded)
  after_recording store (some requests) incident_id recorded a now event_id =
      if a.decision == ApprovalDecision.approved
      then publish_approved store requests incident_id recorded a now event_id
      else (record { store = store; publisher = some requests }, ok recorded)

  -- `now` is the service's clock, `store_now` the store's; the ids carry fresh UUIDs.
  unfoldable pub decide :
      Inspect
      → State
      → String
      → OperatorIdentity
      → ApprovalDecision
      → ApprovalBinding
      → Instant
      → Instant
      → String
      → String
      → String
      → State × Result InvestigationRecord
  decide inspect s incident_id identity decision reviewed now store_now approval_id event_id
        request_event_id =
      elim (approval_to_record digest inspect s.store incident_id identity decision reviewed now
        approval_id) [
          | err e ↦ (s, err e)
          | ok a ↦
              elim (as_approval_error (
                execute digest
                  (approval store_now reviewed.incident_version a
                    (decision_event event_id a identity))
                  incident_id s.store)) [
                    | err e ↦ (s, err e)
                    | ok (store', recorded) ↦
                        after_recording store' s.publisher incident_id recorded a now
                          request_event_id
                  ]
        ]

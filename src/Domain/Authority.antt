-- ===== src/Domain/Authority.antt =====
-- Human Approvals, Intervention requests, Interventions and workload leases.
use kubecouncil.Base.{
  ℕ, String, not, Result, ok, ◌>>◌, value_error, raise_if, Eq, eq_of_discrete, ◌==◌, leb,
  String-discrete, ℕ_discrete,
}
use kubecouncil.Domain.Enums.{ApprovalDecision, InterventionState, InterventionState-discrete}
use kubecouncil.Domain.Evidence.{Instant}
use kubecouncil.Domain.Policy.{DeploymentPatch, DeploymentPatch-discrete}
use kubecouncil.Domain.Profile.{
  WorkloadReference, WorkloadReference-discrete, workload_reference_eq,
}

pub record ApprovalBinding : Type 0 where
  pub incident_version : ℕ
  pub proposal_hash : String
  pub evidence_hash : String
  pub workload_resource_version : String
  pub workload_generation : ℕ
  pub workload_revision : ℕ
  pub policy_hash : String
  pub dry_run_hash : String
  pub recovery_criteria_hash : String
  pub failure_strategy_hash : String
  pub expires_at : Instant

unfoldable pub ApprovalBinding-discrete : Discrete ApprovalBinding
unfolding String-discrete
ApprovalBinding-discrete = hlevel (String-discrete, ℕ_discrete)

instance abbrev pub approval_binding_eq : Eq ApprovalBinding
approval_binding_eq = eq_of_discrete ApprovalBinding-discrete

pub record ApprovalReview : Type 0 where
  pub incident_id : String
  pub proposal_id : String
  pub responder_principal : String
  pub binding : ApprovalBinding

pub record Approval : Type 0 where
  pub approval_id : String
  pub incident_id : String
  pub proposal_id : String
  pub responder_principal : String
  pub decision : ApprovalDecision
  pub decided_at : Instant
  pub expires_at : Instant
  pub proposal_hash : String
  pub evidence_hash : String
  pub workload_resource_version : String
  pub workload_generation : ℕ
  pub workload_revision : ℕ
  pub policy_hash : String
  pub dry_run_hash : String
  pub recovery_criteria_hash : String
  pub failure_strategy_hash : String

-- The validator of `Approval`.
unfoldable pub has_a_future_expiry : Approval → Result Approval
has_a_future_expiry a = do
  raise_if (leb a.expires_at a.decided_at)
      (value_error "approval expiry must be after its decision time")
  ok a

pub record InterventionRequest : Type 0 where
  pub request_id : String
  pub incident_id : String
  pub proposal_id : String
  pub approval_id : String
  pub target : WorkloadReference
  pub patch : DeploymentPatch
  pub requested_at : Instant
  pub idempotency_key : String
  pub payload_hash : String

unfoldable pub InterventionRequest-discrete : Discrete InterventionRequest
unfolding String-discrete WorkloadReference-discrete DeploymentPatch-discrete
InterventionRequest-discrete =
    hlevel (String-discrete, ℕ_discrete, WorkloadReference-discrete, DeploymentPatch-discrete)

instance abbrev pub intervention_request_eq : Eq InterventionRequest
intervention_request_eq = eq_of_discrete InterventionRequest-discrete

-- The validator of `InterventionRequest`.
unfoldable pub patch_targets_one_workload : InterventionRequest → Result InterventionRequest
patch_targets_one_workload r = do
  raise_if (not (r.patch.target == r.target))
      (value_error "Intervention request patch must target its declared workload")
  ok r

pub record Intervention : Type 0 where
  pub intervention_id : String
  pub incident_id : String
  pub proposal_id : String
  pub approval_id : String
  pub target : WorkloadReference
  pub state : InterventionState
  pub requested_at : Instant
  pub idempotency_key : String

unfoldable pub Intervention-discrete : Discrete Intervention
unfolding String-discrete WorkloadReference-discrete InterventionState-discrete
Intervention-discrete =
    hlevel (String-discrete, ℕ_discrete, WorkloadReference-discrete, InterventionState-discrete)

instance abbrev pub intervention_eq : Eq Intervention
intervention_eq = eq_of_discrete Intervention-discrete

pub record WorkloadLease : Type 0 where
  pub lease_key : String
  pub target : WorkloadReference
  pub intervention_id : String
  pub owner : String
  pub token : String
  pub acquired_at : Instant
  pub expires_at : Instant

-- The validator of `WorkloadLease`.
unfoldable pub expires_after_acquisition : WorkloadLease → Result WorkloadLease
expires_after_acquisition l = do
  raise_if (leb l.expires_at l.acquired_at)
      (value_error "workload lease expiry must follow acquisition")
  ok l

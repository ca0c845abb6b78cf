-- ===== src/Domain/Policy.antt =====
-- Remediation proposals, Deployment state and patches, and the decision of the policy.
use kubecouncil.Base.{
  ℕ, String, Bool, not, ◌&&◌, ◌||◌, Option, List, Result, ok, ◌>>◌, value_error, raise_if, Eq,
  eq_of_discrete, ◌==◌, is_none, is_some, is_empty, filter, String-discrete, ℕ_discrete,
  if◌then◌else◌,
}
use kubecouncil.Base.Json.{Json, Json-discrete}
use kubecouncil.Domain.Enums.{
  InvestigationOutcome, PolicyStatus, PolicyCheckCode, passed, ActionConvergenceStatus,
  policy_status_eq,
}
use kubecouncil.Domain.Evidence.{Instant}
use kubecouncil.Domain.Council.{RootCauseHypothesis}
use kubecouncil.Domain.Profile.{
  WorkloadReference, WorkloadReference-discrete, ActionType, ActionType-discrete,
  rollback_deployment, scale_deployment, restart_deployment, RecoveryCriteria,
}

pub record RollbackDeploymentAction : Type 0 where
  pub target : WorkloadReference
  pub revision : ℕ

pub record ScaleDeploymentAction : Type 0 where
  pub target : WorkloadReference
  pub replicas : ℕ

pub record RestartDeploymentAction : Type 0 where
  pub target : WorkloadReference
  pub restart_token : String

-- The union of the three, told apart by `action_type`.
pub data RemediationAction : Type 0 where
  rollback : RollbackDeploymentAction → RemediationAction
  scale : ScaleDeploymentAction → RemediationAction
  restart : RestartDeploymentAction → RemediationAction

abbrev pub action_target : RemediationAction → WorkloadReference
action_target (rollback a) = a.target
action_target (scale a) = a.target
action_target (restart a) = a.target

abbrev pub action_type : RemediationAction → ActionType
action_type (rollback _) = rollback_deployment
action_type (scale _) = scale_deployment
action_type (restart _) = restart_deployment

pub record RemediationProposal : Type 0 where
  pub proposal_id : String
  pub incident_id : String
  pub action : RemediationAction
  pub expected_impact : String
  pub recovery_criteria : RecoveryCriteria
  pub rollback_strategy : String
  pub evidence_hash : String
  pub known_risks : List String

pub record ManualGuidance : Type 0 where
  pub incident_id : String
  pub reason : String
  pub guidance : String
  pub outcome : InvestigationOutcome

pub record CoordinatorOutput : Type 0 where
  pub outcome : InvestigationOutcome
  pub hypotheses : List RootCauseHypothesis
  pub proposal : Option RemediationProposal
  pub manual_guidance : Option ManualGuidance

pub record DeploymentRevision : Type 0 where
  pub revision : ℕ
  pub pod_template : Json
  pub restorable : Bool
  pub implicated : Bool

pub record DeploymentPolicyState : Type 0 where
  pub target : WorkloadReference
  pub resource_version : String
  pub generation : ℕ
  pub replicas : ℕ
  pub current_revision : ℕ
  pub available_revisions : List DeploymentRevision
  pub active_intervention : Bool
  pub replica_quota_headroom : ℕ

unfoldable pub DeploymentPolicyState-discrete : Discrete DeploymentPolicyState
unfolding String-discrete Json-discrete WorkloadReference-discrete
DeploymentPolicyState-discrete =
    hlevel (String-discrete, ℕ_discrete, Json-discrete, WorkloadReference-discrete)

instance abbrev pub policy_state_eq : Eq DeploymentPolicyState
policy_state_eq = eq_of_discrete DeploymentPolicyState-discrete

pub record DeploymentPatch : Type 0 where
  pub action_type : ActionType
  pub target : WorkloadReference
  pub resource_version : String
  pub body : Json

unfoldable pub DeploymentPatch-discrete : Discrete DeploymentPatch
unfolding String-discrete Json-discrete WorkloadReference-discrete ActionType-discrete
DeploymentPatch-discrete =
    hlevel (String-discrete, Json-discrete, WorkloadReference-discrete, ActionType-discrete)

instance abbrev pub patch_eq : Eq DeploymentPatch
patch_eq = eq_of_discrete DeploymentPatch-discrete

pub record DeploymentConvergenceResult : Type 0 where
  pub status : ActionConvergenceStatus
  pub reason : String
  pub observed_state : Option DeploymentPolicyState

pub record DryRunResult : Type 0 where
  pub accepted : Bool
  pub diff : Option String
  pub error : Option String

-- The validator of `DryRunResult`.
unfoldable pub has_one_outcome : DryRunResult → Result DryRunResult
has_one_outcome r = do
  raise_if (r.accepted && (is_none r.diff || is_some r.error))
      (value_error "accepted dry-run results require only a diff")
  raise_if (not r.accepted && (is_none r.error || is_some r.diff))
      (value_error "rejected dry-run results require only an error")
  ok r

pub record PolicyCheck : Type 0 where
  pub code : PolicyCheckCode
  pub passed : Bool
  pub message : String

pub record PolicyDecision : Type 0 where
  pub incident_id : String
  pub proposal_id : String
  pub status : PolicyStatus
  pub checks : List PolicyCheck
  pub evaluated_at : Instant
  pub workload_resource_version : Option String
  pub workload_generation : Option ℕ
  pub workload_revision : Option ℕ
  pub patch : Option DeploymentPatch
  pub dry_run_diff : Option String
  pub rejection_reason : Option String

passed_matches : List PolicyCheck → PolicyDecision → Result PolicyDecision
passed_matches failed d = do
  raise_if (not (is_empty failed) || is_none d.patch || is_none d.dry_run_diff)
      (value_error "passed policy requires all checks, a patch, and a dry-run diff")
  raise_if (is_some d.rejection_reason)
      (value_error "passed policy cannot include a rejection reason")
  ok d

rejected_matches : List PolicyCheck → PolicyDecision → Result PolicyDecision
rejected_matches failed d = do
  raise_if (is_empty failed || is_none d.rejection_reason || is_some d.dry_run_diff)
      (value_error "rejected policy requires failed checks and a rejection reason")
  ok d

-- The validator of `PolicyDecision`.
unfoldable pub matches_status : PolicyDecision → Result PolicyDecision
unfolding passed_matches rejected_matches
matches_status d =
    let failed = filter (λ (c : PolicyCheck). not c.passed) d.checks in
    if d.status == passed then passed_matches failed d else rejected_matches failed d

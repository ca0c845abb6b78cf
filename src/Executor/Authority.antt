-- ===== src/Executor/Authority.antt =====
-- The tests of `consume` on the recorded authority, `_action_converged`,
-- and the tests of a restoration.
use Prim.Native.String.{◌++◌ as ◌<>◌}
use kubecouncil.Base.{
  leb, ltb, eqb, String, Bool, true, false, not, ◌&&◌, ◌||◌, Option, none, some, Result, ok, err,
  ◌>>=◌, ◌>>◌, execution_error, raise_if, ◌==◌, string_eq, if◌then◌else◌,
}
use kubecouncil.Domain.Enums.{
  PolicyStatus, ApprovalDecision, approval_decision_eq, policy_status_eq,
}
use kubecouncil.Domain.Evidence.{Instant}
use kubecouncil.Domain.Profile.{
  ActionType, rollback_deployment, scale_deployment, restart_deployment, workload_reference_eq,
}
use kubecouncil.Domain.Policy.{
  RemediationAction, rollback, scale, restart, RemediationProposal, PolicyDecision,
  DeploymentPolicyState, DeploymentPatch, action_target, patch_eq, policy_state_eq,
}
use kubecouncil.Domain.Authority.{Approval, Intervention, InterventionRequest}
use kubecouncil.Domain.Record.{InvestigationRecord}
use kubecouncil.Binding.{Digest, approval_matches_record, passed_review, is_value}
use kubecouncil.Queue.{intervention_request_hash}
use kubecouncil.Store.Intervene.{approval_for}

abbrev pub action_type_value : ActionType → String
action_type_value rollback_deployment = "rollback_deployment"
action_type_value scale_deployment = "scale_deployment"
action_type_value restart_deployment = "restart_deployment"

module _ (digest : Digest) where
  -- The tests of a found Approval.
  unfoldable pub require_fresh : InvestigationRecord → Instant → Option Approval → Result Approval
  require_fresh r now none = err (execution_error "Intervention lacks current approved authority")
  require_fresh r now (some a) = do
    raise_if (not (a.decision == ApprovalDecision.approved))
        (execution_error "Intervention lacks current approved authority")
    raise_if (leb a.expires_at now || not (approval_matches_record digest r a))
        (execution_error "Intervention Approval is stale")
    ok a

  -- The tests of the recorded proposal and decision, `policy.status is PASSED` included.
  unfoldable pub require_reviewed :
      InterventionRequest
      → Option (RemediationProposal × PolicyDecision)
      → Result RemediationProposal
  require_reviewed q none = err (execution_error "Intervention policy authority is invalid")
  require_reviewed q (some (p, d)) = do
    raise_if
        (not (p.proposal_id == q.proposal_id)
          || not (action_target p.action == q.target)
          || not (is_value d.patch q.patch))
        (execution_error "Intervention request differs from reviewed policy")
    ok p

  unfoldable pub require_authority :
      InterventionRequest → InvestigationRecord → Instant → Result (Approval × RemediationProposal)
  require_authority q r now = do
    raise_if (not (intervention_request_hash digest q == q.payload_hash))
        (execution_error "Intervention request payload hash is invalid")
    a ← require_fresh r now (approval_for r q.approval_id)
    p ← require_reviewed q (passed_review r)
    ok (a, p)

-- The Deployment is still in the state that the Approval was given for.
unfoldable pub require_unchanged :
    Approval → Option DeploymentPolicyState → Result DeploymentPolicyState
require_unchanged a none = err (execution_error "current Deployment state is unavailable")
require_unchanged a (some s) = do
  raise_if
      (not (
        s.resource_version == a.workload_resource_version
        && eqb s.generation a.workload_generation
        && eqb s.current_revision a.workload_revision))
      (execution_error "Deployment changed after Approval")
  ok s

-- The last tests of `_action_converged`, by the action.
unfoldable pub reached : RemediationAction → DeploymentPolicyState → DeploymentPolicyState → Bool
reached (rollback a) previous observed = eqb observed.current_revision a.revision
reached (scale a) previous observed =
    eqb observed.replicas a.replicas && eqb observed.current_revision previous.current_revision
reached (restart a) previous observed = ltb previous.current_revision observed.current_revision

unfoldable pub action_converged :
    RemediationAction → DeploymentPolicyState → DeploymentPolicyState → Bool
action_converged action previous observed =
    if not (observed.target == action_target action)
      || observed.resource_version == previous.resource_version
      || leb observed.generation previous.generation
    then false
    else reached action previous observed

-- `observed is not None and self._action_converged(…)`
unfoldable pub has_converged :
    RemediationAction → DeploymentPolicyState → Option DeploymentPolicyState → Bool
has_converged action previous none = false
has_converged action previous (some observed) = action_converged action previous observed

-- The proposal of the inverse scaling.
unfoldable pub restoration_of :
    RemediationProposal → Intervention → DeploymentPolicyState → RemediationProposal
restoration_of p v previous = record p {
  proposal_id = p.proposal_id <> ("-restore-" <> v.intervention_id);
  action = scale (record { target = action_target p.action; replicas = previous.replicas });
}

-- `observed is None or current != observed`, and the state when they are equal.
unfoldable pub require_same :
    Option DeploymentPolicyState → Option DeploymentPolicyState → Result DeploymentPolicyState
require_same (some current) (some observed) = do
  raise_if (not (current == observed))
      (execution_error "scale restoration stopped because current Deployment state is ambiguous")
  ok current
require_same _ _ =
    err (execution_error "scale restoration stopped because current Deployment state is ambiguous")

abbrev pub if_passed_patch : PolicyDecision → Option DeploymentPatch → Result DeploymentPatch
if_passed_patch d none = err (execution_error "scale restoration policy rejected the inverse patch")
if_passed_patch d (some patch) = do
  raise_if (not (d.status == PolicyStatus.passed))
      (execution_error "scale restoration policy rejected the inverse patch")
  ok patch

unfoldable pub require_passed : PolicyDecision → Result DeploymentPatch
require_passed d = if_passed_patch d d.patch

-- `text or ""`
abbrev pub or_empty : Option String → String
or_empty none = ""
or_empty (some s) = s

unfoldable pub restoration_note : RemediationAction → String
restoration_note (rollback _) = "forbidden: the prior revision is implicated in this Incident"
restoration_note _ = "unavailable: controlled restart has no inverse mutation"

unfoldable pub is_scale : RemediationAction → Bool
is_scale (scale _) = true
is_scale _ = false

-- ===== src/Policy/Evaluate.antt =====
-- `DeterministicProposalPolicy.evaluate` and `evaluate_and_record`.
use kubecouncil.Base.{
  String, Option, none, some, List, [], ◌∷◌, ◌++◌, ◌==◌, string_eq, if◌then◌else◌,
}
use kubecouncil.Base.Effects.{Effect, lift, ◌>>=◌}
use kubecouncil.Domain.Enums.{PolicyStatus, PolicyCheckCode, policy_status_eq}
use kubecouncil.Domain.Policy.{
  RemediationProposal, DeploymentPolicyState, DeploymentPatch, DryRunResult, PolicyCheck,
  PolicyDecision, action_target, matches_status,
}
use kubecouncil.Domain.Record.{InvestigationRecord}
use kubecouncil.Binding.{Digest}
use kubecouncil.Enrollment.{check}
use kubecouncil.Policy.Outside.{PolicyKubernetes}
use kubecouncil.Policy.Patch.{build_patch, patch_shape_is_exact}
use kubecouncil.Policy.Checks.{policy_check, preflight_checks, first_failure}

-- `text or default`
unfoldable pub or_default : Option String → String → String
or_default none default = default
or_default (some s) default = if s == "" then default else s

abbrev pub decision_of :
    InvestigationRecord
    → RemediationProposal
    → List PolicyCheck
    → PolicyStatus
    → Option DeploymentPolicyState
    → PolicyDecision
decision_of r p checks status state = record {
  incident_id = r.incident.incident_id;
  proposal_id = p.proposal_id;
  status = status;
  checks = checks;
  evaluated_at = 0;
  workload_resource_version = elim state [ none ↦ none | some s ↦ some s.resource_version ];
  workload_generation = elim state [ none ↦ none | some s ↦ some s.generation ];
  workload_revision = elim state [ none ↦ none | some s ↦ some s.current_revision ];
  patch = none;
  dry_run_diff = none;
  rejection_reason = none;
}

module _ {E : Type 0} (digest : Digest) (outside : PolicyKubernetes E) where
  -- `_decision`: the decision, dated and validated.
  unfoldable pub dated : PolicyDecision → Effect E PolicyDecision
  dated d = do now ← outside.utc_now; lift (matches_status (record d { evaluated_at = now }))

  -- After the server-side dry run.
  unfoldable pub after_dry_run :
      InvestigationRecord
      → RemediationProposal
      → List PolicyCheck
      → DeploymentPolicyState
      → DeploymentPatch
      → DryRunResult
      → Effect E PolicyDecision
  after_dry_run r p checks state patch dry_run =
      let all_checks =
        checks
        ++ policy_check PolicyCheckCode.server_dry_run dry_run.accepted
            "Kubernetes server-side dry-run accepted the exact patch."
            (or_default dry_run.error "Kubernetes server-side dry-run rejected the patch.")
          ∷ [] in
      if dry_run.accepted
      then dated (record (decision_of r p all_checks PolicyStatus.passed (some state)) {
        patch = some patch;
        dry_run_diff = dry_run.diff;
      })
      else dated (record (decision_of r p all_checks PolicyStatus.dry_run_failed (some state)) {
        patch = some patch;
        rejection_reason = some (or_default dry_run.error "Kubernetes server-side dry-run failed.");
      })

  -- After the checks that need no patch have passed.
  unfoldable pub after_preflight :
      InvestigationRecord
      → RemediationProposal
      → List PolicyCheck
      → DeploymentPolicyState
      → DeploymentPatch
      → Effect E PolicyDecision
  after_preflight r p checks state patch =
      let all_checks =
        checks
        ++ policy_check PolicyCheckCode.patch_shape (patch_shape_is_exact patch)
            "Action produced the exact allowlisted minimal patch shape."
            "Action produced fields outside its allowlisted patch shape."
          ∷ [] in
      if patch_shape_is_exact patch
      then outside.dry_run_deployment_patch patch >>= after_dry_run r p all_checks state patch
      else dated (record (decision_of r p all_checks PolicyStatus.rejected (some state)) {
        patch = some patch;
        rejection_reason = some "Action patch shape is not allowlisted.";
      })

  unfoldable pub rejected_preflight :
      InvestigationRecord
      → RemediationProposal
      → List PolicyCheck
      → Option DeploymentPolicyState
      → String
      → Effect E PolicyDecision
  rejected_preflight r p checks state reason =
      dated (record (decision_of r p checks PolicyStatus.rejected state) {
        rejection_reason = some reason;
      })

  -- `if preflight_failure is not None or state is None`
  unfoldable pub conclude :
      InvestigationRecord
      → RemediationProposal
      → List PolicyCheck
      → Option String
      → Option DeploymentPolicyState
      → Effect E PolicyDecision
  conclude r p checks (some failure) state = rejected_preflight r p checks state failure
  conclude r p checks none none = rejected_preflight r p checks none "Policy preflight failed."
  conclude r p checks none (some state) = do
    patch ← lift (build_patch p.action state)
    after_preflight r p checks state patch

  unfoldable pub evaluate : InvestigationRecord → RemediationProposal → Effect E PolicyDecision
  evaluate r p = do
    snapshot ← outside.inspect r.application_profile
    readiness ← lift (check r.application_profile snapshot)
    state ← outside.inspect_deployment (action_target p.action)
    let checks = preflight_checks digest r p readiness.ready state
    conclude r p checks (first_failure checks) state

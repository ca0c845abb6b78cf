-- ===== src/Executor/Failure.antt =====
-- `_handle_action_failure`, `_restore_failed_scale`, `_record_safe_halt` and `_record_refusal`.
use kubecouncil.Base.{
  ℕ, String, Bool, false, ◌&&◌, Option, none, some, List, [], ◌∷◌, ok, err, execution_error, ◌==◌,
  if◌then◌else◌,
}
use kubecouncil.Base.Text.{str}
use kubecouncil.Base.Effects.{Effect, lift, ◌>>=◌, ◌>>◌}
use kubecouncil.Domain.Enums.{
  InterventionState, ActionConvergenceStatus, policy_status_eq, convergence_status_eq,
}
use kubecouncil.Domain.Policy.{
  RemediationProposal, DeploymentPolicyState, DeploymentConvergenceResult, action_type,
  policy_state_eq,
}
use kubecouncil.Domain.Authority.{Intervention, InterventionRequest, WorkloadLease}
use kubecouncil.Domain.Record.{InvestigationRecord}
use kubecouncil.Binding.{Digest}
use kubecouncil.Lease.{renew}
use kubecouncil.Store.Change.{intervention_update}
use kubecouncil.Store.Intervene.{intervention_for, is_running}
use kubecouncil.Policy.Outside.{ExecutorKubernetes}
use kubecouncil.Policy.Evaluate.{evaluate}
use kubecouncil.Executor.Machine.{
  Machine, on_outside, on_leases, stored, call_store, append_now, event_now,
}
use kubecouncil.Executor.Authority.{
  action_type_value, has_converged, restoration_of, require_same, require_passed, or_empty,
  restoration_note, is_scale,
}

module _ {E : Type 0} (digest : Digest) (outside : ExecutorKubernetes E) (ttl : ℕ)
    (q : InterventionRequest) where
  -- `store.update_intervention` with an event of now; the updated Intervention is the result.
  unfoldable pub finish :
      Intervention → String → List (String × String) → Effect (Machine E) Intervention
  finish v event_type details = do
    e ← event_now digest outside q event_type details
    call_store digest (intervention_update v e) q.incident_id
    lift (ok v)

  -- After the restoration's patch was applied.
  unfoldable pub conclude_restoration :
      Intervention
      → RemediationProposal
      → DeploymentPolicyState
      → DeploymentPolicyState
      → String
      → DeploymentConvergenceResult
      → Effect (Machine E) Intervention
  conclude_restoration v restoration previous current reason convergence =
      if convergence.status == ActionConvergenceStatus.succeeded
        && has_converged restoration.action current convergence.observed_state
      then finish (record v { state = InterventionState.rolled_back }) "intervention_restored"
          (("replicas", str previous.replicas) ∷ ("reason", reason) ∷ [])
      else lift (
          err (
            execution_error
              "scale restoration convergence is ambiguous; no further writes are allowed"))

  unfoldable pub restore_failed_scale :
      Intervention
      → InvestigationRecord
      → RemediationProposal
      → DeploymentPolicyState
      → DeploymentConvergenceResult
      → WorkloadLease
      → Effect (Machine E) Intervention
  restore_failed_scale v r p previous convergence lease = do
    inspected ← on_outside (outside.policy.inspect_deployment q.target)
    current ← lift (require_same inspected convergence.observed_state)
    let restoration = restoration_of p v previous
    d ← on_outside (evaluate digest outside.policy r restoration)
    patch ← lift (require_passed d)
    append_now digest outside q "intervention_restoration_validated"
        (("replicas", str previous.replicas) ∷ ("dry_run_diff", or_empty d.dry_run_diff) ∷ [])
    now ← on_outside outside.clock
    on_leases (λ leases. renew leases lease now ttl)
    restored ← on_outside (outside.apply_deployment_patch patch)
    append_now digest outside q "intervention_restoration_mutated"
        (("replicas", str previous.replicas) ∷ ("resource_version", restored.resource_version) ∷ [])
    after ← on_outside (outside.verify_deployment_convergence patch restored)
    conclude_restoration v restoration previous current convergence.reason after

  unfoldable pub escalate :
      Intervention → RemediationProposal → String → Effect (Machine E) Intervention
  escalate v p reason =
      finish (record v { state = InterventionState.failed }) "intervention_escalated"
        (("action_type", action_type_value (action_type p.action))
          ∷ ("reason", reason)
          ∷ ("restoration", restoration_note p.action)
          ∷ [])

  unfoldable pub handle_action_failure :
      Intervention
      → InvestigationRecord
      → RemediationProposal
      → DeploymentPolicyState
      → DeploymentConvergenceResult
      → WorkloadLease
      → Effect (Machine E) Intervention
  handle_action_failure v r p previous convergence lease =
      append_now digest outside q "intervention_action_failed" (
        ("action_type", action_type_value (action_type p.action))
        ∷ ("reason", convergence.reason)
        ∷ [])
      >>= λ _.
          if is_scale p.action
          then restore_failed_scale v r p previous convergence lease
          else escalate v p convergence.reason

  -- `stored is None or stored.state is not RUNNING`
  unfoldable pub still_runs : Option InvestigationRecord → String → Bool
  still_runs none intervention_id = false
  still_runs (some r) intervention_id = elim (intervention_for r intervention_id) [
    | none ↦ false
    | some v ↦ is_running v
  ]

  unfoldable pub halt : Intervention → String → Effect (Machine E) (Unit {0})
  halt v reason = do
    finish (record v { state = InterventionState.safe_halted }) "intervention_safe_halted"
        (("reason", reason) ∷ [])
    lift (ok tt)

  unfoldable pub record_safe_halt : Intervention → String → Effect (Machine E) (Unit {0})
  record_safe_halt v reason = do
    current ← stored q.incident_id
    if still_runs current v.intervention_id then halt v reason else lift (ok tt)

  unfoldable pub record_refusal : String → Effect (Machine E) (Unit {0})
  record_refusal reason = do
    append_now digest outside q "intervention_refused" (("reason", reason) ∷ [])
    lift (ok tt)

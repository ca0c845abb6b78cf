-- ===== src/Executor/Consume.antt =====
-- `consume`.
use Prim.Native.String.{◌++◌ as ◌<>◌, slice}
use kubecouncil.Base.{
  ℕ, String, Bool, true, false, not, ◌||◌, Option, none, some, [], ◌∷◌, Result, ok, err, Error,
  value_error, key_error, approval_error, publish_error, policy_error, execution_error,
  recovery_error, other_error, raise_if, ◌==◌, string_eq, find, if◌then◌else◌,
}
use kubecouncil.Base.Text.{str}
use kubecouncil.Base.Effects.{Effect, lift, read, ◌>>=◌, ◌>>◌, recover, finally, zoom}
use kubecouncil.Domain.Enums.{
  PolicyStatus, InterventionState, ActionConvergenceStatus, policy_status_eq, convergence_status_eq,
}
use kubecouncil.Domain.Evidence.{Instant}
use kubecouncil.Domain.Policy.{
  RemediationProposal, PolicyDecision, DeploymentPolicyState, DeploymentConvergenceResult,
  action_type, patch_eq,
}
use kubecouncil.Domain.Authority.{Approval, Intervention, InterventionRequest, WorkloadLease}
use kubecouncil.Domain.Record.{InvestigationRecord}
use kubecouncil.Binding.{Digest, is_value}
use kubecouncil.Lease.{Leases, is_held, acquire, renew, release}
use kubecouncil.Store.Change.{intervention}
use kubecouncil.Store.Intervene.{is_running}
use kubecouncil.Policy.Outside.{ExecutorKubernetes}
use kubecouncil.Policy.Evaluate.{evaluate}
use kubecouncil.Executor.Machine.{
  Machine, event, on_outside, on_leases, stored, call_store, append_at, append_now,
}
use kubecouncil.Executor.Authority.{
  action_type_value, require_authority, require_unchanged, has_converged, or_empty,
}
use kubecouncil.Executor.Failure.{finish, handle_action_failure, record_safe_halt, record_refusal}

-- The locals that the `except` and `finally` clauses read.
pub record Attempt (E : Type 0) : Type 0 where
  pub machine : Machine E
  pub claimed : Bool
  pub lease : WorkloadLease

unfoldable pub duplicate_of : InterventionRequest → InvestigationRecord → Option Intervention
duplicate_of q r =
    find (λ (item : Intervention). item.idempotency_key == q.idempotency_key) r.interventions

-- The Intervention of a request that is not resumed.
unfoldable pub new_intervention : InterventionRequest → Intervention
new_intervention q = record {
  intervention_id = "intervention-" <> slice q.idempotency_key 0 24;
  incident_id = q.incident_id;
  proposal_id = q.proposal_id;
  approval_id = q.approval_id;
  target = q.target;
  state = InterventionState.running;
  requested_at = q.requested_at;
  idempotency_key = q.idempotency_key;
}

-- `f"{type(error).__name__}: {error}"`, for the exceptions of the last `except`.
unfoldable pub described : Error → String
described (approval_error m) = "ApprovalError: " <> m
described (publish_error m) = "InterventionPublishError: " <> m
described (policy_error m) = "ProposalPolicyError: " <> m
described (recovery_error m) = "RecoveryVerificationError: " <> m
described (other_error name m) = name <> (": " <> m)
described (value_error m) = "ValueError: " <> m
described (key_error m) = "KeyError: " <> m
described (execution_error m) = "InterventionExecutionError: " <> m

unfoldable pub require_revalidated : InterventionRequest → PolicyDecision → Result (Unit {0})
require_revalidated q d =
    raise_if (not (d.status == PolicyStatus.passed) || not (is_value d.patch q.patch))
      (execution_error "Executor policy revalidation rejected the request")

unfoldable pub require_record : String → Option InvestigationRecord → Result InvestigationRecord
require_record missing none = err (execution_error missing)
require_record missing (some r) = ok r

abbrev pub without_value : Result Leases → Result (Leases × Unit {0})
without_value (ok leases) = ok (leases, tt)
without_value (err e) = err e

module _ {E : Type 0} where
  unfoldable pub on_machine : {A : Type 0} → Effect (Machine E) A → Effect (Attempt E) A
  on_machine = zoom (λ a. a.machine) (λ machine a. record a { machine = machine })

  -- `claimed = True` and `lease = …`
  unfoldable pub set_claimed : Effect (Attempt E) (Unit {0})
  set_claimed a = (ok tt, record a { claimed = true })

  unfoldable pub set_lease : WorkloadLease → Effect (Attempt E) (Unit {0})
  set_lease l a = (ok tt, record a { lease = l })

  -- The block runs with its locals and leaves the machine.
  unfoldable pub with_locals :
      {A : Type 0} → Bool → WorkloadLease → Effect (Attempt E) A → Effect (Machine E) A
  with_locals claimed lease = λ block.
      zoom (λ m. record { machine = m; claimed = claimed; lease = lease }) (λ a m. a.machine) block

module _ {E : Type 0} (digest : Digest) (outside : ExecutorKubernetes E) (owner : String) (ttl : ℕ)
    (q : InterventionRequest) where
  unfoldable pub resume : Instant → RemediationProposal → Effect (Attempt E) (Unit {0})
  resume now p = do
    on_machine (
        append_at digest outside q "intervention_resumed" now
          (("action_type", action_type_value (action_type p.action)) ∷ []))
    lift (ok tt)

  unfoldable pub record_claim :
      Instant
      → InvestigationRecord
      → RemediationProposal
      → Intervention
      → Effect (Attempt E) (Unit {0})
  record_claim now r p v = do
    token ← on_machine (on_outside outside.policy.uuid4_hex)
    on_machine (
        call_store digest
          (intervention r.incident.version v (
            event q "intervention_claimed" now token
              (("action_type", action_type_value (action_type p.action)) ∷ [])))
          q.incident_id)
    set_claimed

  unfoldable pub claim :
      Instant
      → InvestigationRecord
      → RemediationProposal
      → Intervention
      → Effect (Attempt E) (Unit {0})
  claim now r p v = do
    claimed ← read (λ a. a.claimed)
    if claimed then resume now p else record_claim now r p v

  unfoldable pub renew_lease : Effect (Attempt E) (Unit {0})
  renew_lease = do
    l ← read (λ a. a.lease)
    now ← on_machine (on_outside outside.clock)
    renewed ← on_machine (on_leases (λ leases. renew leases l now ttl))
    set_lease renewed

  -- What is done with the result of `verify_deployment_convergence`.
  unfoldable pub succeed :
      Intervention
      → RemediationProposal
      → Option DeploymentPolicyState
      → Effect (Machine E) Intervention
  succeed v p none = lift (
      err (
        execution_error
          "Deployment convergence is ambiguous: observed state does not match the approved action"))
  succeed v p (some observed) =
      finish digest outside ttl q (record v { state = InterventionState.succeeded })
        "intervention_converged"
        (("action_type", action_type_value (action_type p.action))
          ∷ ("revision", str observed.current_revision)
          ∷ ("replicas", str observed.replicas)
          ∷ [])

  unfoldable pub converge :
      Intervention
      → InvestigationRecord
      → RemediationProposal
      → DeploymentPolicyState
      → DeploymentConvergenceResult
      → WorkloadLease
      → Effect (Machine E) Intervention
  converge v r p state convergence l =
      if convergence.status == ActionConvergenceStatus.ambiguous
      then lift
          (err (execution_error ("Deployment convergence is ambiguous: " <> convergence.reason)))
      else if convergence.status == ActionConvergenceStatus.failed
      then handle_action_failure digest outside ttl q v r p state convergence l
      else if has_converged p.action state convergence.observed_state
      then succeed v p convergence.observed_state
      else succeed v p none

  -- After the request was revalidated.
  unfoldable pub apply_reviewed :
      Instant
      → Intervention
      → InvestigationRecord
      → RemediationProposal
      → DeploymentPolicyState
      → Option String
      → Effect (Attempt E) Intervention
  apply_reviewed now v r p state diff = do
    on_machine (
        append_now digest outside q "intervention_validated"
          (("action_type", action_type_value (action_type p.action)) ∷ []))
    on_machine (
        append_at digest outside q "intervention_dry_run_passed" now (("diff", or_empty diff) ∷ []))
    renew_lease
    applied ← on_machine (on_outside (outside.apply_deployment_patch q.patch))
    on_machine (
        append_now digest outside q "intervention_mutated" (
          ("resource_version", applied.resource_version)
          ∷ ("generation", str applied.generation)
          ∷ ("action_type", action_type_value (action_type p.action))
          ∷ []))
    convergence ← on_machine (on_outside (outside.verify_deployment_convergence q.patch applied))
    l ← read (λ a. a.lease)
    on_machine (converge v r p state convergence l)

  -- After the Intervention was claimed or resumed.
  unfoldable pub mutate :
      Instant
      → Intervention
      → InvestigationRecord
      → Approval
      → RemediationProposal
      → Effect (Attempt E) Intervention
  mutate now v r a p = do
    inspected ← on_machine (on_outside (outside.policy.inspect_deployment q.target))
    state ← lift (require_unchanged a inspected)
    revalidated ← on_machine (on_outside (evaluate digest outside.policy r p))
    lift (require_revalidated q revalidated)
    apply_reviewed now v r p state revalidated.dry_run_diff

  -- The `try` block.
  unfoldable pub act : Instant → Intervention → Effect (Attempt E) Intervention
  act now v = do
    found ← on_machine (stored q.incident_id)
    r ← lift (require_record "Intervention Incident disappeared" found)
    granted ← lift (require_authority digest q r now)
    claim now r granted.1 v
    mutate now v r granted.0 granted.1

  unfoldable pub record_failure : Intervention → String → Effect (Attempt E) (Unit {0})
  record_failure v reason = do
    claimed ← read (λ a. a.claimed)
    on_machine (
        if claimed
        then record_safe_halt digest outside ttl q v reason
        else record_refusal digest outside ttl q reason)

  -- The `except` clauses.
  unfoldable pub on_error : Intervention → Error → Effect (Attempt E) Intervention
  on_error v (value_error m) = record_failure v m >> lift (err (execution_error m))
  on_error v (key_error m) = record_failure v m >> lift (err (execution_error m))
  on_error v (execution_error m) = record_failure v m >> lift (err (execution_error m))
  on_error v e =
      record_failure v (described e)
      >> lift (err (execution_error ("unexpected Executor failure: " <> described e)))

  -- `except ValueError` of the release
  unfoldable pub on_release_error : Error → Effect (Attempt E) (Unit {0})
  on_release_error (value_error m) = do
    on_machine
        (append_now digest outside q "intervention_lease_release_skipped" (("reason", m) ∷ []))
    lift (ok tt)
  on_release_error e = lift (err e)

  -- The `finally` clause.
  unfoldable pub release_lease : Effect (Attempt E) (Unit {0})
  release_lease = do
    l ← read (λ (a : Attempt E). a.lease)
    recover (on_machine (on_leases (λ leases. without_value (release leases l)))) on_release_error

  unfoldable pub guarded : Instant → Intervention → Effect (Attempt E) Intervention
  guarded now v = finally (recover (act now v) (on_error v)) release_lease

  -- After the lease was asked for.
  unfoldable pub with_lease :
      Instant → Intervention → Bool → Option WorkloadLease → Effect (Machine E) Intervention
  with_lease now v resuming none = do
    append_at digest outside q "intervention_refused" now
        (("reason", "another Intervention holds the Managed Workload") ∷ [])
    lift (err (execution_error "another Intervention holds the Managed Workload"))
  with_lease now v resuming (some l) = with_locals resuming l (guarded now v)

  -- The UUID of the lease, drawn only when no live lease is held.
  unfoldable pub draw_token : Instant → Effect (Machine E) String
  draw_token now = do
    checked ← read (λ (m : Machine E). is_held m.leases q.target now)
    held ← lift checked
    if held then lift (ok "") else on_outside outside.policy.uuid4_hex

  unfoldable pub start : Instant → Intervention → Bool → Effect (Machine E) Intervention
  start now v resuming = do
    append_at digest outside q "intervention_received" now (("payload_hash", q.payload_hash) ∷ [])
    token ← draw_token now
    l ← on_leases (λ leases. acquire leases q.target v.intervention_id owner token now ttl)
    with_lease now v resuming l

  unfoldable pub reject_duplicate : Instant → Intervention → Effect (Machine E) Intervention
  reject_duplicate now v = do
    append_at digest outside q "intervention_duplicate_rejected" now []
    lift (ok v)

  unfoldable pub proceed : Instant → Option Intervention → Effect (Machine E) Intervention
  proceed now none = start now (new_intervention q) false
  proceed now (some v) = if is_running v then start now v true else reject_duplicate now v

  unfoldable pub consume : Effect (Machine E) Intervention
  consume = do
    now ← on_outside outside.clock
    found ← stored q.incident_id
    r ← lift (require_record "Intervention Incident does not exist" found)
    proceed now (duplicate_of q r)

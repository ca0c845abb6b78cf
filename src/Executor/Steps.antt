-- ===== src/Executor/Steps.antt =====
-- Predicates that the `try` block and the `except` clauses of `consume` keep.
use kubecouncil.Base.{
  ℕ, String, Bool, true, false, Option, none, some, ok, Error, value_error, key_error,
  approval_error, publish_error, policy_error, execution_error, recovery_error, other_error, ◌&&◌,
  ◌≡◌, subst, if◌then◌else◌, ◌==◌, ==_eq,
}
use kubecouncil.Base.Effects.{Effect, zoom}
use kubecouncil.Base.Effects.Keeps.{
  Keeps, Keeps-bind, Keeps-bind-lift, Keeps-bind-read, Keeps-bind-Seen, Keeps-lift, Keeps-read,
  Keeps-zoom, Keeps-if, Ensures, Ensures-Keeps, Keeps-bind-Ensures, Seen, Seen-weaken, Seen-zoom,
}
use kubecouncil.Domain.Enums.{PolicyStatus, ActionConvergenceStatus, convergence_status_eq}
use kubecouncil.Domain.Evidence.{Instant}
use kubecouncil.Domain.Policy.{
  RemediationProposal, PolicyDecision, DeploymentPolicyState, DeploymentPatch,
  DeploymentConvergenceResult,
}
use kubecouncil.Domain.Authority.{Approval, Intervention, InterventionRequest, WorkloadLease}
use kubecouncil.Domain.Record.{InvestigationRecord}
use kubecouncil.Binding.{Digest}
use kubecouncil.Lease.{renew}
use kubecouncil.Policy.Outside.{ExecutorKubernetes}
use kubecouncil.Policy.Evaluate.{evaluate}
use kubecouncil.Policy.Sound.{evaluate-IsAuthorised}
use kubecouncil.Executor.Machine.{Machine, on_outside, on_leases, stored}
use kubecouncil.Executor.Authority.{has_converged, require_unchanged, is_scale, require_same}
use kubecouncil.Executor.Failure.{
  conclude_restoration, restore_failed_scale, escalate, handle_action_failure,
}
use kubecouncil.Executor.Consume.{
  Attempt, require_record, on_machine, set_claimed, set_lease, resume, record_claim, claim,
  renew_lease, succeed, converge, apply_reviewed, mutate, act, record_failure, on_error,
}
use kubecouncil.Executor.Permit.{
  WasGranted, WasUnchanged, WasPassed, HasFailed, Permit, requested, restoring,
  require_authority-IsGranted, require_unchanged-returns, require_revalidated-returns,
  require_passed-returns, require_same-returns,
}
use kubecouncil.Executor.Reads.{
  CallsKeep, claiming, append_at-Keeps, append_now-Keeps, finish-Keeps, record_failed-Keeps,
}

-- What a predicate P of the machine and one L of leases need, so that the block keeps P and only
-- has leases that satisfy L.
pub record BlockKeeps {E : Type 0} (digest : Digest) (outside : ExecutorKubernetes E) (ttl : ℕ)
    (q : InterventionRequest) (P S : Machine E → Type 0) (L : WorkloadLease → Type 0) : Type 0 where
  pub sees : (m : Machine E) → P m → S m
  pub calls : CallsKeep digest outside P
  pub applies :
      (patch : DeploymentPatch)
      → Permit digest outside q S patch
      → Keeps P (on_outside (outside.apply_deployment_patch patch))
  pub renews :
      (l : WorkloadLease) (now : Instant)
      → L l
      → Ensures P L (on_leases λ leases. renew leases l now ttl)

module _ {E : Type 0} {P S : Machine E → Type 0} {L : WorkloadLease → Type 0} (digest : Digest)
    (outside : ExecutorKubernetes E) (owner : String) (ttl : ℕ) (q : InterventionRequest)
    (block : BlockKeeps digest outside ttl q P S L) where
  abbrev calls : CallsKeep digest outside P
  calls = block.calls

  seen : {A : Type 0} (m : Effect (Machine E) A) (a : A) → Seen P m a → Seen S m a
  seen m a = Seen-weaken m a block.sees

  was_passed :
      (r : InvestigationRecord) (p : RemediationProposal) (d : PolicyDecision)
      (patch : DeploymentPatch)
      → Seen P (on_outside (evaluate digest outside.policy r p)) d
      → (d.status ≡ PolicyStatus.passed) × (d.patch ≡ some patch)
      → WasPassed digest outside q S r p patch
  unfolding on_outside zoom
  was_passed r p d patch o (passed, carried) = record {
    decision = d;
    decided = seen _ d o;
    passed = passed;
    carried = carried;
    authorised =
        evaluate-IsAuthorised digest outside.policy r p o.before.outside d o.returned passed;
  }

  conclude_restoration-Keeps :
      (v : Intervention) (p : RemediationProposal) (previous current : DeploymentPolicyState)
      (reason : String) (convergence : DeploymentConvergenceResult)
      → Keeps P (conclude_restoration digest outside ttl q v p previous current reason convergence)
  unfolding conclude_restoration
  conclude_restoration-Keeps v p previous current reason convergence =
      Keeps-if
        (convergence.status == ActionConvergenceStatus.succeeded
          && has_converged p.action current convergence.observed_state)
        _ _ (λ _. finish-Keeps digest outside calls q ttl _ _ _) (λ _. Keeps-lift _)

  module _ (r : InvestigationRecord) (now : Instant) (a : Approval) (p : RemediationProposal)
      (granted : WasGranted digest outside q S r now a p) (v : Intervention)
      (previous : DeploymentPolicyState) (unchanged : WasUnchanged digest outside q S a previous)
      (applied : DeploymentPolicyState) (convergence : DeploymentConvergenceResult)
      (verified : Seen S
        (on_outside (outside.verify_deployment_convergence q.patch applied))
        convergence)
      (l : WorkloadLease) (hl : L l) where
    has_failed :
        (found : Option DeploymentPolicyState) (current : DeploymentPolicyState)
        → convergence.status ≡ ActionConvergenceStatus.failed
        → Seen P (on_outside (outside.policy.inspect_deployment q.target)) found
        → require_same found convergence.observed_state ≡ ok current
        → HasFailed digest outside q S
    has_failed found current failed o e =
        let (same, observed) = require_same-returns found convergence.observed_state current e in
        record {
          applied = applied;
          convergence = convergence;
          verified = verified;
          failed = failed;
          current = current;
          observed = observed;
          inspected = seen _ _ (subst (Seen P _) same o);
        }

    restore_failed_scale-Keeps :
        convergence.status ≡ ActionConvergenceStatus.failed
        → is_scale p.action ≡ true
        → Keeps P (restore_failed_scale digest outside ttl q v r p previous convergence l)
    unfolding restore_failed_scale
    restore_failed_scale-Keeps failed scales =
        Keeps-bind-Seen _ _ (calls.inspect_deployment _) λ found o. Keeps-bind-lift _ _ λ current e.
          Keeps-bind-Seen _ _ (calls.evaluate r _) λ d decided. Keeps-bind-lift _ _ λ patch passed.
            let permit =
              restoring r now a p v previous patch granted unchanged scales
                (has_failed found current failed o e)
                (was_passed r _ d patch decided (require_passed-returns d patch passed)) in
            Keeps-bind _ _ (append_now-Keeps digest outside calls q _ _) λ _.
              Keeps-bind _ _ calls.clock λ now'.
                Keeps-bind _ _ (Ensures-Keeps _ (block.renews l now' hl)) λ _.
                  Keeps-bind _ _ (block.applies patch permit) λ restored.
                    Keeps-bind _ _ (append_now-Keeps digest outside calls q _ _) λ _.
                      Keeps-bind _ _ (calls.verify _ _)
                        λ after. conclude_restoration-Keeps _ _ _ _ _ _

    handle_action_failure-Keeps :
        convergence.status ≡ ActionConvergenceStatus.failed
        → Keeps P (handle_action_failure digest outside ttl q v r p previous convergence l)
    unfolding handle_action_failure escalate
    handle_action_failure-Keeps failed =
        Keeps-bind _ _ (append_now-Keeps digest outside calls q _ _) λ _.
          Keeps-if (is_scale p.action) _ _ (restore_failed_scale-Keeps failed)
            (λ _. finish-Keeps digest outside calls q ttl _ _ _)

    succeed-Keeps :
        (found : Option DeploymentPolicyState)
        → Keeps P (succeed digest outside owner ttl q v p found)
    unfolding succeed
    succeed-Keeps none = Keeps-lift _
    succeed-Keeps (some observed) = finish-Keeps digest outside calls q ttl _ _ _

    converge-Keeps : Keeps P (converge digest outside owner ttl q v r p previous convergence l)
    unfolding converge
    converge-Keeps =
        Keeps-if (convergence.status == ActionConvergenceStatus.ambiguous) _ _ (λ _. Keeps-lift _)
          (λ _.
            Keeps-if (convergence.status == ActionConvergenceStatus.failed) _ _
              (λ e.
                handle_action_failure-Keeps
                  (==_eq convergence.status ActionConvergenceStatus.failed e))
              (λ _.
                Keeps-if (has_converged p.action previous convergence.observed_state) _ _
                  (λ _. succeed-Keeps _) (λ _. succeed-Keeps _)))

  -- The machine of an attempt satisfies P, and its lease L.
  abbrev pub AtMachine : Attempt E → Type 0
  AtMachine x = P x.machine × L x.lease

  pub on_machine-Keeps :
      {A : Type 0} (m : Effect (Machine E) A) → Keeps P m → Keeps AtMachine (on_machine m)
  unfolding on_machine
  on_machine-Keeps m k = Keeps-zoom _ _ m λ s h. (k.at s.machine h.0, h.1)

  on_machine-Seen_P :
      {A : Type 0} (m : Effect (Machine E) A) (a : A) → Seen AtMachine (on_machine m) a → Seen P m a
  unfolding on_machine
  on_machine-Seen_P m a = Seen-zoom _ _ m a λ x h. h.0

  on_machine-Seen :
      {A : Type 0} (m : Effect (Machine E) A) (a : A) → Seen AtMachine (on_machine m) a → Seen S m a
  on_machine-Seen m a o = seen m a (on_machine-Seen_P m a o)

  stored-Keeps : (id : String) → Keeps P (stored id)
  unfolding stored
  stored-Keeps id = Keeps-read _

  require_record-returns :
      (missing : String) (found : Option InvestigationRecord) (r : InvestigationRecord)
      → require_record missing found ≡ ok r
      → found ≡ some r
  unfolding require_record
  require_record-returns missing none r h = cc
  require_record-returns missing (some x) r h = cc

  on_machine-Ensures :
      {A : Type 0} {Q : A → Type 0} (m : Effect (Machine E) A)
      → Ensures P Q m
      → Ensures AtMachine Q (on_machine m)
  unfolding on_machine zoom
  on_machine-Ensures m k = record {
    at = λ s h. (((k.at s.machine h.0).0, h.1), (k.at s.machine h.0).1);
  }

  renew_lease-Keeps : Keeps AtMachine (renew_lease digest outside owner ttl q)
  unfolding renew_lease set_lease
  renew_lease-Keeps = Keeps-bind-read _ _ λ s h.
      Keeps-bind _ _ (on_machine-Keeps _ calls.clock) λ now.
        Keeps-bind-Ensures _ _ (on_machine-Ensures _ (block.renews s.lease now h.1))
          λ l hl. record { at = λ s' h'. (h'.0, hl) }

  claim-Keeps :
      (now : Instant) (r : InvestigationRecord) (p : RemediationProposal) (v : Intervention)
      → Keeps AtMachine (claim digest outside owner ttl q now r p v)
  unfolding claim resume record_claim set_claimed
  claim-Keeps now r p v = Keeps-bind _ _ (Keeps-read _) λ claimed. by_claimed claimed
    where
      by_claimed :
          (claimed : Bool)
          → Keeps AtMachine (
              if claimed
              then resume digest outside owner ttl q now p
              else record_claim digest outside owner ttl q now r p v)
      by_claimed true =
          Keeps-bind _ _ (on_machine-Keeps _ (append_at-Keeps digest outside calls q _ _ _))
            λ _. Keeps-lift _
      by_claimed false = Keeps-bind _ _ (on_machine-Keeps _ calls.uuid4_hex) λ token.
          Keeps-bind _ _ (on_machine-Keeps _ (calls.call_store _ _ (claiming _ _ _)))
            λ _. record { at = λ s h. h }

  apply_reviewed-Keeps :
      (now : Instant) (v : Intervention) (r : InvestigationRecord) (a : Approval)
      (p : RemediationProposal) (s : DeploymentPolicyState) (diff : Option String)
      → WasGranted digest outside q S r now a p
      → WasUnchanged digest outside q S a s
      → Permit digest outside q S q.patch
      → Keeps AtMachine (apply_reviewed digest outside owner ttl q now v r p s diff)
  unfolding apply_reviewed
  apply_reviewed-Keeps now v r a p s diff granted unchanged permit =
      Keeps-bind _ _ (on_machine-Keeps _ (append_now-Keeps digest outside calls q _ _)) λ _.
        Keeps-bind _ _ (on_machine-Keeps _ (append_at-Keeps digest outside calls q _ _ _)) λ _.
          Keeps-bind _ _ renew_lease-Keeps λ _.
            Keeps-bind _ _ (on_machine-Keeps _ (block.applies q.patch permit)) λ applied.
              Keeps-bind _ _ (on_machine-Keeps _ (append_now-Keeps digest outside calls q _ _)) λ _.
                Keeps-bind-Seen _ _ (on_machine-Keeps _ (calls.verify _ _)) λ convergence verified.
                  Keeps-bind-read _ _ λ x h. on_machine-Keeps _ (
                    converge-Keeps r now a p granted v s unchanged applied convergence
                      (on_machine-Seen _ convergence verified) x.lease h.1)

  mutate-Keeps :
      (now : Instant) (v : Intervention) (r : InvestigationRecord) (a : Approval)
      (p : RemediationProposal)
      → WasGranted digest outside q S r now a p
      → Keeps AtMachine (mutate digest outside owner ttl q now v r a p)
  unfolding mutate
  mutate-Keeps now v r a p granted =
      Keeps-bind-Seen _ _ (on_machine-Keeps _ (calls.inspect_deployment _)) λ found inspected.
        Keeps-bind-lift _ _ λ s e.
          let unchanged = was_unchanged found s inspected e in
          Keeps-bind-Seen _ _ (on_machine-Keeps _ (calls.evaluate r p)) λ d decided.
            Keeps-bind-lift _ _ λ done revalidated.
              apply_reviewed-Keeps now v r a p s _ granted unchanged (
                requested r now a p s granted unchanged (
                  was_passed r p d q.patch (on_machine-Seen_P _ d decided)
                    (require_revalidated-returns q d revalidated)))
    where
      was_unchanged :
          (found : Option DeploymentPolicyState) (s : DeploymentPolicyState)
          → Seen AtMachine
              (on_machine (on_outside (outside.policy.inspect_deployment q.target)))
              found
          → require_unchanged a found ≡ ok s
          → WasUnchanged digest outside q S a s
      was_unchanged found s o e =
          let (same, version, generation, revision) = require_unchanged-returns a found s e in
          record {
            inspected = subst (Seen S _) same (on_machine-Seen _ found o);
            version = version;
            generation = generation;
            revision = revision;
          }

  pub act-Keeps :
      (now : Instant) (v : Intervention)
      → Seen P (on_outside outside.clock) now
      → Keeps AtMachine (act digest outside owner ttl q now v)
  unfolding act
  act-Keeps now v time =
      Keeps-bind-Seen _ _ (on_machine-Keeps _ (stored-Keeps q.incident_id)) λ found o.
        Keeps-bind-lift _ _ λ r e. Keeps-bind-lift _ _ λ granted authority.
          Keeps-bind _ _ (claim-Keeps now r granted.1 v) λ _.
            mutate-Keeps now v r granted.0 granted.1 (record {
              held =
                  subst (Seen S (stored q.incident_id)) (require_record-returns _ found r e)
                    (on_machine-Seen _ found o);
              time = seen _ now time;
              grant = require_authority-IsGranted digest q r now granted.0 granted.1 authority;
            })

  record_failure-Keeps :
      (v : Intervention) (reason : String)
      → Keeps AtMachine (record_failure digest outside owner ttl q v reason)
  unfolding record_failure
  record_failure-Keeps v reason = Keeps-bind _ _ (Keeps-read _) λ claimed.
      on_machine-Keeps _ (record_failed-Keeps digest outside calls q ttl claimed v reason)

  pub on_error-Keeps :
      (v : Intervention) (e : Error) → Keeps AtMachine (on_error digest outside owner ttl q v e)
  unfolding on_error
  on_error-Keeps v (value_error m) = Keeps-bind _ _ (record_failure-Keeps v _) λ _. Keeps-lift _
  on_error-Keeps v (key_error m) = Keeps-bind _ _ (record_failure-Keeps v _) λ _. Keeps-lift _
  on_error-Keeps v (execution_error m) = Keeps-bind _ _ (record_failure-Keeps v _) λ _. Keeps-lift _
  on_error-Keeps v (approval_error m) = Keeps-bind _ _ (record_failure-Keeps v _) λ _. Keeps-lift _
  on_error-Keeps v (publish_error m) = Keeps-bind _ _ (record_failure-Keeps v _) λ _. Keeps-lift _
  on_error-Keeps v (policy_error m) = Keeps-bind _ _ (record_failure-Keeps v _) λ _. Keeps-lift _
  on_error-Keeps v (recovery_error m) = Keeps-bind _ _ (record_failure-Keeps v _) λ _. Keeps-lift _
  on_error-Keeps v (other_error name m) =
      Keeps-bind _ _ (record_failure-Keeps v _) λ _. Keeps-lift _

-- ===== src/Executor/Reads.antt =====
-- What the calls that only read, and those of the store and the leases, leave as it is.
use kubecouncil.Base.{Bool, true, false, if◌then◌else◌, ℕ, String, Option, none, some, List, Result}
use kubecouncil.Base.Effects.{Effect, attempt}
use kubecouncil.Base.Effects.Keeps.{
  Keeps, Keeps-bind, Keeps-bind-lift, Keeps-lift, Keeps-read, Keeps-zoom, Keeps-if, Keeps-both,
}
use kubecouncil.Domain.Evidence.{Instant}
use kubecouncil.Domain.Profile.{ApplicationProfile, WorkloadReference}
use kubecouncil.Domain.Policy.{
  RemediationProposal, DeploymentPolicyState, DeploymentPatch, DryRunResult, PolicyCheck,
  PolicyDecision,
}
use kubecouncil.Domain.Authority.{InterventionRequest, Intervention}
use kubecouncil.Domain.Record.{AuditEvent, InvestigationRecord}
use kubecouncil.Binding.{Digest}
use kubecouncil.Lease.{Leases}
use kubecouncil.Store.Change.{Change, audit_event, intervention, intervention_update, execute}
use kubecouncil.Policy.Outside.{ExecutorKubernetes}
use kubecouncil.Policy.Patch.{patch_shape_is_exact}
use kubecouncil.Policy.Evaluate.{
  dated, after_dry_run, after_preflight, rejected_preflight, conclude, evaluate,
}
use kubecouncil.Executor.Machine.{
  Machine, on_outside, on_leases, stored, call_store, append_at, append_now, event_now,
}
use kubecouncil.Executor.Failure.{finish, halt, record_safe_halt, record_refusal, still_runs}

-- The calls outside that change no Deployment keep the predicate.
pub record ReadsKeep {E : Type 0} (outside : ExecutorKubernetes E) (P : E → Type 0) : Type 0 where
  pub inspect : (profile : ApplicationProfile) → Keeps P (outside.policy.inspect profile)
  pub inspect_deployment :
      (target : WorkloadReference) → Keeps P (outside.policy.inspect_deployment target)
  pub dry_run : (patch : DeploymentPatch) → Keeps P (outside.policy.dry_run_deployment_patch patch)
  pub utc_now : Keeps P outside.policy.utc_now
  pub uuid4_hex : Keeps P outside.policy.uuid4_hex
  pub clock : Keeps P outside.clock
  pub verify :
      (patch : DeploymentPatch) (applied : DeploymentPolicyState)
      → Keeps P (outside.verify_deployment_convergence patch applied)

-- The Executor's calls of the store record events, and claim and end Interventions.
pub data IsExecutorChange : Change → Type 0 where
  recording : (e : AuditEvent) → IsExecutorChange (audit_event e)
  claiming : (n : ℕ) (v : Intervention) (e : AuditEvent) → IsExecutorChange (intervention n v e)
  ending : (v : Intervention) (e : AuditEvent) → IsExecutorChange (intervention_update v e)

-- The Executor's calls but those of the leases and `apply_deployment_patch` keep the predicate.
pub record CallsKeep {E : Type 0} (digest : Digest) (outside : ExecutorKubernetes E)
    (P : Machine E → Type 0) : Type 0 where
  pub evaluate :
      (r : InvestigationRecord) (p : RemediationProposal)
      → Keeps P (on_outside (evaluate digest outside.policy r p))
  pub inspect_deployment :
      (target : WorkloadReference) → Keeps P (on_outside (outside.policy.inspect_deployment target))
  pub uuid4_hex : Keeps P (on_outside outside.policy.uuid4_hex)
  pub clock : Keeps P (on_outside outside.clock)
  pub verify :
      (patch : DeploymentPatch) (applied : DeploymentPolicyState)
      → Keeps P (on_outside (outside.verify_deployment_convergence patch applied))
  pub call_store :
      (change : Change) (id : String)
      → IsExecutorChange change
      → Keeps P (call_store digest change id)

module _ {E : Type 0} {P Q : Machine E → Type 0} (digest : Digest)
    (outside : ExecutorKubernetes E) where
  pub CallsKeep-both :
      CallsKeep digest outside P
      → CallsKeep digest outside Q
      → CallsKeep digest outside (λ m. P m × Q m)
  CallsKeep-both p q = record {
    evaluate = λ r x. Keeps-both _ (p.evaluate r x) (q.evaluate r x);
    inspect_deployment =
        λ target. Keeps-both _ (p.inspect_deployment target) (q.inspect_deployment target);
    uuid4_hex = Keeps-both _ p.uuid4_hex q.uuid4_hex;
    clock = Keeps-both _ p.clock q.clock;
    verify = λ patch applied. Keeps-both _ (p.verify patch applied) (q.verify patch applied);
    call_store = λ change id c. Keeps-both _ (p.call_store change id c) (q.call_store change id c);
  }

module _ {E : Type 0} (P : E → Type 0) where
  -- What is outside the machine satisfies P.
  abbrev pub Outside : Machine E → Type 0
  Outside m = P m.outside

  pub Keeps-on_outside : {A : Type 0} (m : Effect E A) → Keeps P m → Keeps Outside (on_outside m)
  unfolding on_outside
  Keeps-on_outside m k = Keeps-zoom _ _ m λ s h. k.at s.outside h

  pub Keeps-on_leases :
      {A : Type 0} (f : Leases → Result (Leases × A)) → Keeps Outside (on_leases f)
  unfolding on_leases
  Keeps-on_leases f = Keeps-zoom _ _ (attempt f) λ s h. h

module _ {E : Type 0} {P : E → Type 0} (digest : Digest) (outside : ExecutorKubernetes E)
    (reads : ReadsKeep outside P) where
  dated-Keeps : (d : PolicyDecision) → Keeps P (dated digest outside.policy d)
  unfolding dated
  dated-Keeps d = Keeps-bind _ _ reads.utc_now λ now. Keeps-lift _

  dry :
      (r : InvestigationRecord) (p : RemediationProposal) (checks : List PolicyCheck)
      (state : DeploymentPolicyState) (patch : DeploymentPatch) (dry_run : DryRunResult)
      → Keeps P (after_dry_run digest outside.policy r p checks state patch dry_run)
  unfolding after_dry_run
  dry r p checks state patch dry_run =
      Keeps-if dry_run.accepted _ _ (λ _. dated-Keeps _) (λ _. dated-Keeps _)

  concluding :
      (r : InvestigationRecord) (p : RemediationProposal) (checks : List PolicyCheck)
      (found : Option String) (state : Option DeploymentPolicyState)
      → Keeps P (conclude digest outside.policy r p checks found state)
  unfolding conclude rejected_preflight after_preflight
  concluding r p checks (some failure) state = dated-Keeps _
  concluding r p checks none none = dated-Keeps _
  concluding r p checks none (some state) = Keeps-bind-lift _ _ λ patch _.
      Keeps-if (patch_shape_is_exact patch) _ _
        (λ _. Keeps-bind _ _ (reads.dry_run patch) λ dry_run. dry r p _ state patch dry_run)
        (λ _. dated-Keeps _)

  -- A policy decision only reads.
  pub evaluate-Keeps :
      (r : InvestigationRecord) (p : RemediationProposal)
      → Keeps P (evaluate digest outside.policy r p)
  unfolding evaluate
  evaluate-Keeps r p = Keeps-bind _ _ (reads.inspect _) λ snapshot.
      Keeps-bind-lift _ _
        λ readiness _. Keeps-bind _ _ (reads.inspect_deployment _) λ state. concluding r p _ _ state

  pub ReadsKeep-CallsKeep : CallsKeep digest outside (Outside P)
  unfolding call_store
  ReadsKeep-CallsKeep = record {
    evaluate = λ r p. Keeps-on_outside P _ (evaluate-Keeps r p);
    inspect_deployment = λ target. Keeps-on_outside P _ (reads.inspect_deployment target);
    uuid4_hex = Keeps-on_outside P _ reads.uuid4_hex;
    clock = Keeps-on_outside P _ reads.clock;
    verify = λ patch applied. Keeps-on_outside P _ (reads.verify patch applied);
    call_store = λ change id _. Keeps-zoom _ _ (attempt (execute digest change id)) λ s h. h;
  }

module _ {E : Type 0} {P : Machine E → Type 0} (digest : Digest) (outside : ExecutorKubernetes E)
    (keep : CallsKeep digest outside P) (q : InterventionRequest) where
  pub append_at-Keeps :
      (event_type : String) (now : Instant) (details : List (String × String))
      → Keeps P (append_at digest outside q event_type now details)
  unfolding append_at
  append_at-Keeps event_type now details =
      Keeps-bind _ _ keep.uuid4_hex λ token. keep.call_store _ _ (recording _)

  pub append_now-Keeps :
      (event_type : String) (details : List (String × String))
      → Keeps P (append_now digest outside q event_type details)
  unfolding append_now
  append_now-Keeps event_type details = Keeps-bind _ _ keep.clock λ now. append_at-Keeps _ _ _

  event_now-Keeps :
      (event_type : String) (details : List (String × String))
      → Keeps P (event_now digest outside q event_type details)
  unfolding event_now
  event_now-Keeps event_type details =
      Keeps-bind _ _ keep.clock λ now. Keeps-bind _ _ keep.uuid4_hex λ token. Keeps-read _

  module _ (ttl : ℕ) where
    pub finish-Keeps :
        (v : Intervention) (event_type : String) (details : List (String × String))
        → Keeps P (finish digest outside ttl q v event_type details)
    unfolding finish
    finish-Keeps v event_type details =
        Keeps-bind _ _ (event_now-Keeps event_type details)
          λ e. Keeps-bind _ _ (keep.call_store _ _ (ending _ _)) λ _. Keeps-lift _

    halt-Keeps : (v : Intervention) (reason : String) → Keeps P (halt digest outside ttl q v reason)
    unfolding halt
    halt-Keeps v reason = Keeps-bind _ _ (finish-Keeps _ _ _) λ _. Keeps-lift _

    pub record_failed-Keeps :
        (claimed : Bool) (v : Intervention) (reason : String)
        → Keeps P (
            if claimed
            then record_safe_halt digest outside ttl q v reason
            else record_refusal digest outside ttl q reason)
    unfolding record_safe_halt record_refusal stored
    record_failed-Keeps true v reason = Keeps-bind _ _ (Keeps-read _) λ current.
        Keeps-if (still_runs digest outside ttl q current v.intervention_id) _ _
          (λ _. halt-Keeps v reason) (λ _. Keeps-lift _)
    record_failed-Keeps false v reason = Keeps-bind _ _ (append_now-Keeps _ _) λ _. Keeps-lift _

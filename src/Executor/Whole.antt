-- ===== src/Executor/Whole.antt =====
-- Predicates of the machine that calls of the leases do not disturb.
use kubecouncil.Base.{ℕ, String, Bool, Option, none, some, Result}
use kubecouncil.Base.Effects.{Effect}
use kubecouncil.Base.Effects.Keeps.{
  Keeps, Keeps-bind, Keeps-lift, Keeps-read, Keeps-zoom, Keeps-recover, Keeps-finally, Seen,
}
use kubecouncil.Domain.Evidence.{Instant}
use kubecouncil.Domain.Policy.{DeploymentPatch}
use kubecouncil.Domain.Authority.{Intervention, InterventionRequest, WorkloadLease}
use kubecouncil.Binding.{Digest}
use kubecouncil.Lease.{Leases}
use kubecouncil.Policy.Outside.{ExecutorKubernetes}
use kubecouncil.Executor.Machine.{Machine, on_outside, on_leases}
use kubecouncil.Executor.Consume.{
  Attempt, on_machine, with_locals, release_lease, guarded, with_lease, consume,
}
use kubecouncil.Executor.Permit.{Permit}
use kubecouncil.Executor.Reads.{CallsKeep, append_at-Keeps}
use kubecouncil.Executor.Outer.{on_release_error-Keeps, consume-Keeps}
use kubecouncil.Executor.Steps.{BlockKeeps, on_machine-Keeps, act-Keeps, on_error-Keeps}

module _ {E : Type 0} {P S : Machine E → Type 0} (digest : Digest) (outside : ExecutorKubernetes E)
    (owner : String) (ttl : ℕ) (q : InterventionRequest) (sees : (m : Machine E) → P m → S m)
    (calls : CallsKeep digest outside P)
    (leases : (A : Type 0) (f : Leases → Result (Leases × A)) → Keeps P (on_leases f))
    (applies : (patch : DeploymentPatch)
      → Permit digest outside q S patch
      → Keeps P (on_outside (outside.apply_deployment_patch patch))) where
  block : BlockKeeps digest outside ttl q P S (λ l. Unit)
  block = record {
    sees = sees;
    calls = calls;
    applies = applies;
    renews = λ l now _. record { at = λ s h. ((leases _ _).at s h, λ a _. tt) };
  }

  abbrev Held : Attempt E → Type 0
  Held x = P x.machine × Unit

  keeps_machine : {A : Type 0} (m : Effect (Machine E) A) → Keeps P m → Keeps Held (on_machine m)
  keeps_machine = on_machine-Keeps digest outside owner ttl q block

  release_lease-Keeps : Keeps Held (release_lease digest outside owner ttl q)
  unfolding release_lease
  release_lease-Keeps = Keeps-bind _ _ (Keeps-read _) λ l.
      Keeps-recover _ _ (keeps_machine _ (leases _ _)) (λ e. record {
        at = λ s h. ((on_release_error-Keeps digest outside owner ttl q calls e).at s h.0, tt);
      })

  guarded-Keeps :
      (now : Instant) (v : Intervention)
      → Seen P (on_outside outside.clock) now
      → Keeps Held (guarded digest outside owner ttl q now v)
  unfolding guarded
  guarded-Keeps now v time =
      Keeps-finally _ _
        (Keeps-recover _ _ (act-Keeps digest outside owner ttl q block now v time)
          (on_error-Keeps digest outside owner ttl q block v))
        release_lease-Keeps

  with_lease-Keeps :
      (now : Instant) (v : Intervention) (resuming : Bool) (found : Option WorkloadLease)
      → Seen P (on_outside outside.clock) now
      → Keeps P (with_lease digest outside owner ttl q now v resuming found)
  unfolding with_lease with_locals
  with_lease-Keeps now v resuming none time =
      Keeps-bind _ _ (append_at-Keeps digest outside calls q _ _ _) λ _. Keeps-lift _
  with_lease-Keeps now v resuming (some l) time =
      Keeps-zoom _ _ (guarded digest outside owner ttl q now v) λ m h.
        ((guarded-Keeps now v time).at (record { machine = m; claimed = resuming; lease = l })
          (h, tt)).0

  pub consume-Keeps_undisturbed : Keeps P (consume digest outside owner ttl q)
  consume-Keeps_undisturbed =
      consume-Keeps digest outside owner ttl q calls λ now v resuming token time.
        Keeps-bind _ _ (leases _ _) λ found. with_lease-Keeps now v resuming found time

-- ===== src/Executor/Safe.antt =====
-- What `consume` does to what is outside.
use kubecouncil.Base.{ℕ, String, Result, some, ◌≡◌}
use kubecouncil.Base.Effects.{attempt}
use kubecouncil.Base.Effects.Keeps.{Keeps, Keeps-zoom}
use kubecouncil.Domain.Policy.{DeploymentPatch}
use kubecouncil.Domain.Authority.{InterventionRequest}
use kubecouncil.Binding.{Digest}
use kubecouncil.Policy.Outside.{ExecutorKubernetes}
use kubecouncil.Lease.{Leases}
use kubecouncil.Executor.Machine.{Machine, on_outside, on_leases}
use kubecouncil.Executor.Consume.{consume}
use kubecouncil.Executor.Permit.{Permit}
use kubecouncil.Executor.Reads.{CallsKeep, CallsKeep-both, ReadsKeep, ReadsKeep-CallsKeep}
use kubecouncil.Executor.Start.{SeenIn, HasAuthority-CallsKeep, get-HasAuthority}
use kubecouncil.Store.Access.{get}
use kubecouncil.Store.Reachable.{IsWellFormed}
use kubecouncil.Domain.Record.{InvestigationRecord}
use kubecouncil.Executor.Whole.{consume-Keeps_undisturbed}

module _ {E : Type 0} {P W : E → Type 0} (digest : Digest) (outside : ExecutorKubernetes E)
    (owner : String) (ttl : ℕ) (q : InterventionRequest) (r : InvestigationRecord)
    (sees : (e : E) → P e → W e) (reads : ReadsKeep outside P) where
  abbrev Kept : Machine E → Type 0
  Kept = SeenIn q.incident_id r P

  calls : CallsKeep digest outside Kept
  calls =
      CallsKeep-both digest outside (HasAuthority-CallsKeep digest outside q.incident_id r)
        (ReadsKeep-CallsKeep digest outside reads)

  module _
      (applies : (patch : DeploymentPatch)
        → Permit digest outside q (SeenIn q.incident_id r W) patch
        → Keeps P (outside.apply_deployment_patch patch)) where
    apply-Keeps :
        (patch : DeploymentPatch)
        → Permit digest outside q (SeenIn q.incident_id r W) patch
        → Keeps Kept (on_outside (outside.apply_deployment_patch patch))
    unfolding on_outside
    apply-Keeps patch permit =
        Keeps-zoom _ _ (outside.apply_deployment_patch patch)
          λ s h. (h.0, (applies patch permit).at s.outside h.1)

    leases-Keep : (A : Type 0) (f : Leases → Result (Leases × A)) → Keeps Kept (on_leases f)
    unfolding on_leases
    leases-Keep A f = Keeps-zoom _ _ (attempt f) λ s h. h

    -- Take a predicate P of what is outside the Executor that its reads keep (inspections, dry
    -- runs, convergence checks, clocks, UUIDs), and a weaker W. Let r be the Incident's record in
    -- a well-formed store, and let applying each permitted patch keep P.
    -- Then P holds after `consume` if it holds before, whatever that returns or raises: it applies
    -- permitted patches only. A patch is permitted on what was seen with the authority of r in the
    -- store, and with W outside it: a record and a time at which the request is intact, its
    -- Approval approved, unexpired and matching the record, and its patch the reviewed one; the
    -- Deployment in the state of the Approval; and a passed decision of the policy on the record
    -- with the patch. The patch is the request's, or, after its scaling was seen to fail, the one
    -- that the policy passed for the inverse scaling.
    pub consume-permitted :
        (m : Machine E)
        → IsWellFormed m.store
        → get m.store q.incident_id ≡ some r
        → P m.outside
        → P (consume digest outside owner ttl q m).1.outside
    consume-permitted m well_formed found h =
        ((consume-Keeps_undisturbed {P = Kept} {S = SeenIn q.incident_id r W} digest outside owner
            ttl q (λ x k. (k.0, sees x.outside k.1)) calls leases-Keep apply-Keeps).at
          m (get-HasAuthority q.incident_id r m.store well_formed found, h)).1

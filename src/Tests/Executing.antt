-- ===== src/Tests/Executing.antt =====
-- The Executor on the request of the approved proposal.
use kubecouncil.Base.{
  Bool-cases, inl, inr, subst, arith, ◌==◌, ==_eq, string_eq, ok, true, List, [], ◌∷◌, refl, ◌≡◌,
}
use kubecouncil.Base.Dict.{lookup}
use kubecouncil.Domain.Enums.{InterventionState}
use kubecouncil.Domain.Policy.{DeploymentPatch}
use kubecouncil.Lease.{lease_key}
use kubecouncil.Tests.Data.{digest}
use kubecouncil.Tests.Cluster.{
  Cluster, cluster, executor_kubernetes, approved_record, request, patch,
}
use kubecouncil.Executor.Machine.{Machine}
use kubecouncil.Executor.Consume.{consume}
use kubecouncil.Executor.Permit.{Permit}
use kubecouncil.Executor.Reads.{ReadsKeep}
use kubecouncil.Executor.Safe.{consume-permitted}
use kubecouncil.Executor.Start.{SeenIn}
use kubecouncil.Store.Running.{running_count}
use kubecouncil.Store.Access.{get}
use kubecouncil.Store.Invariant.{IsSound}
use kubecouncil.Store.Reachable.{IsWellFormed}
use kubecouncil.Executor.Leases.{is_given_back}
use kubecouncil.Executor.Released.{consume-releases}
use kubecouncil.Base.Text.{digits, str}
use kubecouncil.Base.Effects.{recover, finally, zoom, attempt, read}
use kubecouncil.Domain.Enums.{ActionConvergenceStatus-discrete}
use kubecouncil.Domain.Policy.{DeploymentPatch-discrete, DeploymentPolicyState-discrete}
use kubecouncil.Domain.Authority.{expires_after_acquisition}
use kubecouncil.Base.Json.{Json-discrete}
use kubecouncil.Base.Dict.{erase}
use kubecouncil.Lease.{
  put_document, is_live, read_lease, is_held, acquire, is_foreign, renew, release,
}
use kubecouncil.Queue.{intervention_request_hash}
use kubecouncil.Executor.Machine.{
  event, on_outside, on_leases, stored, call_store, append_at, append_now, event_now,
}
use kubecouncil.Executor.Authority.{
  require_fresh, require_reviewed, require_authority, require_unchanged, reached, action_converged,
  has_converged,
}
use kubecouncil.Executor.Failure.{finish, halt, record_safe_halt, record_refusal, still_runs}
use kubecouncil.Executor.Consume.{
  duplicate_of, new_intervention, described, require_revalidated, require_record, on_machine,
  set_claimed, set_lease, with_locals, resume, record_claim, claim, renew_lease, succeed, converge,
  apply_reviewed, mutate, act, record_failure, on_error, on_release_error, release_lease, guarded,
  with_lease, draw_token, start, reject_duplicate, proceed,
}
use kubecouncil.Tests.Stores.{program}
use kubecouncil.Tests.Policing.{policing}

abbrev machine : Machine Cluster
machine = record { store = ("inc-1", approved_record) ∷ []; leases = []; outside = cluster }

machine-IsWellFormed : IsWellFormed machine.store
unfolding get lookup program policing running_count
machine-IsWellFormed id r found = elim (Bool-cases ("inc-1" == id)) [
  | inr other ↦ absurd (ground arith)
  | inl same ↦
      let e : approved_record ≡ r = ground arith in
      subst (IsSound id) e (
        subst (λ k. IsSound k approved_record) (==_eq "inc-1" id same)
          (record { keyed = refl; valid = refl; numbered = tt; one_running = omega arith }))
]

abbrev LogsPermits : List DeploymentPatch → Type 0
LogsPermits [] = Unit
LogsPermits (x ∷ xs) =
    Permit digest executor_kubernetes request (SeenIn "inc-1" approved_record (λ c. Unit)) x
    × LogsPermits xs

abbrev ClusterPermitted : Cluster → Type 0
ClusterPermitted c = LogsPermits c.applied

reads : ReadsKeep executor_kubernetes ClusterPermitted
reads = record {
  inspect = λ profile. record { at = λ s h. h };
  inspect_deployment = λ target. record { at = λ s h. h };
  dry_run = λ x. record { at = λ s h. h };
  utc_now = record { at = λ s h. h };
  uuid4_hex = record { at = λ s h. h };
  clock = record { at = λ s h. h };
  verify = λ x applied. record { at = λ s h. h };
}

consume-permitted_example :
    ClusterPermitted
      (consume digest executor_kubernetes "executor-1" 300000000 request machine).1.outside
unfolding get lookup
consume-permitted_example =
    consume-permitted digest executor_kubernetes "executor-1" 300000000 request approved_record
      (λ e h. tt) reads (λ x permit. record { at = λ s h. (permit, h) }) machine
      machine-IsWellFormed refl tt

consume-releases_example :
    is_given_back "executor-1" (
      lookup
        (lease_key request.target)
        (consume digest executor_kubernetes "executor-1" 300000000 request machine).1.leases)
    ≡ true
consume-releases_example =
    consume-releases digest executor_kubernetes "executor-1" 300000000 request machine
      (unfold is_given_back lookup in refl)

-- The definitions that a call of `consume` computes.
unfoldable executing : Unit {0}
unfolding digits str recover finally zoom attempt read ActionConvergenceStatus-discrete
    DeploymentPatch-discrete DeploymentPolicyState-discrete expires_after_acquisition Json-discrete
    erase put_document is_live read_lease is_held acquire is_foreign renew release
    intervention_request_hash event on_outside on_leases stored call_store append_at append_now
    event_now require_fresh require_reviewed require_authority require_unchanged reached
    action_converged has_converged finish halt record_safe_halt record_refusal still_runs
    duplicate_of new_intervention described require_revalidated require_record on_machine
    set_claimed set_lease with_locals resume record_claim claim renew_lease succeed converge
    apply_reviewed mutate act record_failure on_error on_release_error release_lease guarded
    with_lease draw_token start reject_duplicate proceed program policing lookup lease_key consume
executing = tt

consumes :
    (consume digest executor_kubernetes "executor-1" 300000000 request machine).0
    ≡ ok (record (new_intervention request) { state = InterventionState.succeeded })
unfolding executing
consumes = refl

applies_once :
    (consume digest executor_kubernetes "executor-1" 300000000 request machine).1.outside.applied
    ≡ patch ∷ []
unfolding executing
applies_once = refl

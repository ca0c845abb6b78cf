-- ===== src/Executor/Outer.antt =====
-- `consume` around the block that holds the lease.
use kubecouncil.Base.{
  ℕ, String, Bool, true, false, Option, none, some, Error, value_error, key_error, approval_error,
  publish_error, policy_error, execution_error, recovery_error, other_error,
}
use kubecouncil.Base.Effects.{Effect, ◌>>=◌}
use kubecouncil.Base.Effects.Keeps.{
  Keeps, Keeps-bind, Keeps-bind-lift, Keeps-lift, Keeps-read, Keeps-zoom, Keeps-if, Keeps-bind-Seen,
  Seen,
}
use kubecouncil.Domain.Evidence.{Instant}
use kubecouncil.Domain.Authority.{Intervention, InterventionRequest}
use kubecouncil.Binding.{Digest}
use kubecouncil.Lease.{acquire}
use kubecouncil.Store.Intervene.{is_running}
use kubecouncil.Policy.Outside.{ExecutorKubernetes}
use kubecouncil.Executor.Machine.{Machine, on_outside, on_leases, stored}
use kubecouncil.Executor.Consume.{
  Attempt, on_machine, on_release_error, with_lease, draw_token, start, reject_duplicate, proceed,
  consume,
}
use kubecouncil.Executor.Reads.{CallsKeep, append_at-Keeps, append_now-Keeps}

module _ {E : Type 0} {P : Machine E → Type 0} (digest : Digest) (outside : ExecutorKubernetes E)
    (owner : String) (ttl : ℕ) (q : InterventionRequest) (calls : CallsKeep digest outside P) where
  on_machine-Keeps_only :
      {A : Type 0} (m : Effect (Machine E) A) → Keeps P m → Keeps (λ x. P x.machine) (on_machine m)
  unfolding on_machine
  on_machine-Keeps_only m k = Keeps-zoom _ _ m λ s h. k.at s.machine h

  pub on_release_error-Keeps :
      (e : Error)
      → Keeps (λ (x : Attempt E). P x.machine) (on_release_error digest outside owner ttl q e)
  unfolding on_release_error
  on_release_error-Keeps (value_error m) =
      Keeps-bind _ _ (on_machine-Keeps_only _ (append_now-Keeps digest outside calls q _ _))
        λ _. Keeps-lift _
  on_release_error-Keeps (key_error m) = Keeps-lift _
  on_release_error-Keeps (execution_error m) = Keeps-lift _
  on_release_error-Keeps (approval_error m) = Keeps-lift _
  on_release_error-Keeps (publish_error m) = Keeps-lift _
  on_release_error-Keeps (policy_error m) = Keeps-lift _
  on_release_error-Keeps (recovery_error m) = Keeps-lift _
  on_release_error-Keeps (other_error name m) = Keeps-lift _

  draw_token-Keeps : (now : Instant) → Keeps P (draw_token digest outside owner ttl q now)
  unfolding draw_token
  draw_token-Keeps now = Keeps-bind _ _ (Keeps-read _) λ checked.
      Keeps-bind-lift _ _ λ held _. Keeps-if held _ _ (λ _. Keeps-lift _) (λ _. calls.uuid4_hex)

  module _
      (leased : (now : Instant) (v : Intervention) (resuming : Bool) (token : String)
        → Seen P (on_outside outside.clock) now
        → Keeps P (
            on_leases (λ leases. acquire leases q.target v.intervention_id owner token now ttl)
            >>= with_lease digest outside owner ttl q now v resuming)) where
    start-Keeps :
        (now : Instant) (v : Intervention) (resuming : Bool)
        → Seen P (on_outside outside.clock) now
        → Keeps P (start digest outside owner ttl q now v resuming)
    unfolding start
    start-Keeps now v resuming time =
        Keeps-bind _ _ (append_at-Keeps digest outside calls q _ _ _)
          λ _. Keeps-bind _ _ (draw_token-Keeps now) λ token. leased now v resuming token time

    proceed-Keeps :
        (now : Instant) (found : Option Intervention)
        → Seen P (on_outside outside.clock) now
        → Keeps P (proceed digest outside owner ttl q now found)
    unfolding proceed reject_duplicate
    proceed-Keeps now none time = start-Keeps now _ false time
    proceed-Keeps now (some v) time =
        Keeps-if (is_running v) _ _ (λ _. start-Keeps now v true time)
          (λ _. Keeps-bind _ _ (append_at-Keeps digest outside calls q _ _ _) λ _. Keeps-lift _)

    pub consume-Keeps : Keeps P (consume digest outside owner ttl q)
    unfolding consume stored
    consume-Keeps = Keeps-bind-Seen _ _ calls.clock λ now time.
        Keeps-bind _ _ (Keeps-read _) λ found. Keeps-bind-lift _ _ λ r _. proceed-Keeps now _ time

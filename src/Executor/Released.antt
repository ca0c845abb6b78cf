-- ===== src/Executor/Released.antt =====
-- What `consume` does to the workload leases.
use kubecouncil.Base.{
  ℕ, String, Bool, true, Option, none, some, Result, ok, err, ◌≡◌, refl, subst, string_eq,
}
use kubecouncil.Base.Dict.{lookup}
use kubecouncil.Base.Effects.{
  read, ◌>>=◌, zoom, recover, finally, attempt, attempted, handled, then_run,
}
use kubecouncil.Base.Effects.Keeps.{
  Keeps, Keeps-bind, Keeps-lift, Keeps-zoom, Seen, Keeps-recover, Ensures,
}
use kubecouncil.Domain.Evidence.{Instant}
use kubecouncil.Domain.Authority.{Intervention, InterventionRequest, WorkloadLease}
use kubecouncil.Binding.{Digest}
use kubecouncil.Lease.{Leases, lease_key, acquire, renew, release}
use kubecouncil.Store.Change.{execute}
use kubecouncil.Policy.Outside.{ExecutorKubernetes}
use kubecouncil.Executor.Machine.{Machine, on_outside, on_leases, call_store}
use kubecouncil.Executor.Consume.{
  Attempt, on_machine, with_locals, on_release_error, release_lease, guarded, with_lease, consume,
  without_value,
}
use kubecouncil.Executor.Reads.{CallsKeep, append_at-Keeps}
use kubecouncil.Executor.Outer.{on_release_error-Keeps, consume-Keeps}
use kubecouncil.Executor.Steps.{BlockKeeps, act-Keeps, on_error-Keeps}
use kubecouncil.Executor.Leases.{
  is_given_back, IsOurs, is_kept, refused_from, renew-is_kept, release-is_given_back,
  unreleased-is_given_back, acquired-is_kept,
}

module _ {E : Type 0} (digest : Digest) (outside : ExecutorKubernetes E) where
  Leases-CallsKeep :
      (Q : Leases → Type 0) → CallsKeep digest outside (λ (m : Machine E). Q m.leases)
  unfolding call_store on_outside
  Leases-CallsKeep Q = record {
    evaluate = λ r p. Keeps-zoom _ _ _ λ s h. h;
    inspect_deployment = λ target. Keeps-zoom _ _ _ λ s h. h;
    uuid4_hex = Keeps-zoom _ _ _ λ s h. h;
    clock = Keeps-zoom _ _ _ λ s h. h;
    verify = λ patch applied. Keeps-zoom _ _ _ λ s h. h;
    call_store = λ change id _. Keeps-zoom _ _ (attempt (execute digest change id)) λ s h. h;
  }

  module _ {A : Type 0} {Q : Leases → Type 0} {R : A → Type 0} where
    on_leases-Ensures :
        (f : Leases → Result (Leases × A))
        → ((leases leases' : Leases) (a : A)
            → Q leases
            → f leases ≡ ok (leases', a)
            → Q leases' × R a)
        → Ensures (λ (m : Machine E). Q m.leases) R (on_leases f)
    unfolding on_leases zoom attempt
    on_leases-Ensures f kf = record { at = λ s h. after s h (f s.leases) refl }
      where
        after :
            (s : Machine E)
            → Q s.leases
            → (r : Result (Leases × A)) → f s.leases ≡ r
            → Q (attempted r s.leases).1 × ((a : A) → (attempted r s.leases).0 ≡ ok a → R a)
        after s h (ok (leases', a)) e =
            let (q, ra) = kf s.leases leases' a h e in (q, λ b eq. subst R (cc) ra)
        after s h (err x) e = (h, λ a eq. cc)

module _ {E : Type 0} (digest : Digest) (outside : ExecutorKubernetes E) (owner : String) (ttl : ℕ)
    (q : InterventionRequest) where
  abbrev key : String
  key = lease_key q.target

  -- No valid document of the Executor under the target's key.
  abbrev GivenBack : Leases → Type 0
  GivenBack leases = is_given_back owner (lookup key leases) ≡ true

  abbrev calls : CallsKeep digest outside (λ (m : Machine E). GivenBack m.leases)
  calls = Leases-CallsKeep digest outside GivenBack

  module _ (token : String) where
    abbrev Kept : Leases → Type 0
    Kept leases = is_kept owner token key (lookup key leases) ≡ true

    block :
        BlockKeeps digest outside ttl q
          (λ (m : Machine E). Kept m.leases)
          (λ m. Kept m.leases)
          (IsOurs owner token key)
    unfolding on_outside
    block = record {
      sees = λ m h. h;
      calls = Leases-CallsKeep digest outside Kept;
      applies = λ patch permit. Keeps-zoom _ _ _ λ s h. h;
      renews = λ l now ours.
          on_leases-Ensures digest outside (λ leases. renew leases l now ttl)
            λ leases leases' a kept e.
              renew-is_kept owner token key leases l now ttl leases' a ours kept e;
    }

    release_lease-frees :
        (x : Attempt E)
        → Kept x.machine.leases
        → IsOurs owner token key x.lease
        → GivenBack (release_lease digest outside owner ttl q x).1.machine.leases
    unfolding release_lease ◌>>=◌ read recover on_machine on_leases zoom attempt
    release_lease-frees x kept ours = after (release x.machine.leases x.lease) refl
      where
        after :
            (r : Result Leases)
            → release x.machine.leases x.lease ≡ r
            → GivenBack
                (let (done, leases) = attempted (without_value r) x.machine.leases in
                  handled (on_release_error digest outside owner ttl q) done (record x {
                    machine = record (x.machine) { leases = leases };
                  })).1.machine.leases
        after (ok leases') e =
            release-is_given_back owner token key x.machine.leases x.lease ours kept leases' e
        after (err raised) e =
            (on_release_error-Keeps digest outside owner ttl q calls raised).at x
              (unreleased-is_given_back owner token key x.machine.leases x.lease raised ours kept e)

    -- The clock shows the same whatever the leases are.
    same_time :
        (now : Instant) (m : Machine E)
        → Kept m.leases
        → Seen (λ (x : Machine E). GivenBack x.leases) (on_outside outside.clock) now
        → Seen (λ (x : Machine E). Kept x.leases) (on_outside outside.clock) now
    unfolding on_outside zoom
    same_time now m kept o = record {
      before = record m { outside = o.before.outside };
      holds = kept;
      returned = o.returned;
    }

    guarded-frees :
        (now : Instant) (v : Intervention) (x : Attempt E)
        → Seen (λ (m : Machine E). GivenBack m.leases) (on_outside outside.clock) now
        → Kept x.machine.leases × IsOurs owner token key x.lease
        → GivenBack (guarded digest outside owner ttl q now v x).1.machine.leases
    unfolding guarded finally
    guarded-frees now v x time h =
        let tried =
          Keeps-recover _ _
            (act-Keeps digest outside owner ttl q block now v (same_time now x.machine h.0 time))
            (on_error-Keeps digest outside owner ttl q block v) in
        let (kept, ours) = tried.at x h in release_lease-frees _ kept ours

  leased :
      (now : Instant) (v : Intervention) (resuming : Bool) (token : String)
      → Seen (λ (m : Machine E). GivenBack m.leases) (on_outside outside.clock) now
      → Keeps
          (λ (m : Machine E). GivenBack m.leases)
          (on_leases (λ leases. acquire leases q.target v.intervention_id owner token now ttl)
            >>= with_lease digest outside owner ttl q now v resuming)
  unfolding ◌>>=◌ on_leases zoom attempt with_lease with_locals
  leased now v resuming token time = record {
    at = λ m h. after m h (acquire m.leases q.target v.intervention_id owner token now ttl) refl;
  }
    where
      refusal :
          Keeps
            (λ (m : Machine E). GivenBack m.leases)
            (with_lease digest outside owner ttl q now v resuming none)
      refusal = Keeps-bind _ _ (append_at-Keeps digest outside calls q _ _ _) λ _. Keeps-lift _

      after :
          (m : Machine E)
          → GivenBack m.leases
          → (r : Result (Leases × Option WorkloadLease))
          → acquire m.leases q.target v.intervention_id owner token now ttl ≡ r
          → GivenBack
              (let (done, leases) = attempted r m.leases in
                then_run done
                  (with_lease digest outside owner ttl q now v resuming)
                  (record m { leases = leases })).1.leases
      after m h (err raised) e = h
      after m h (ok (leases', none)) e =
          refusal.at (record m { leases = leases' })
            (subst GivenBack
              (refused_from m.leases q v.intervention_id owner token now ttl leases' e) h)
      after m h (ok (leases', some l)) e =
          guarded-frees token now v
            (record { machine = record m { leases = leases' }; claimed = resuming; lease = l }) time
            (acquired-is_kept m.leases q v.intervention_id owner token now ttl leases' l e)

  -- A document is given back when there is none, when it is another Executor's, or when its expiry
  -- does not follow its acquisition, which no call of the lease store accepts; a clock that steps
  -- back by the lease's time before a renewal leaves such a one. If the document under the
  -- target's key is given back, then it is given back after `consume`, whatever that returns or
  -- raises at any point, also when the Intervention fails or is refused.
  pub consume-releases :
      (m : Machine E)
      → is_given_back owner (lookup (lease_key q.target) m.leases) ≡ true
      → is_given_back owner
          (lookup (lease_key q.target) (consume digest outside owner ttl q m).1.leases)
        ≡ true
  consume-releases m h = (consume-Keeps digest outside owner ttl q calls leased).at m h

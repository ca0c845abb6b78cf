-- ===== src/Policy/Sound.antt =====
-- What a passed decision of `DeterministicProposalPolicy.evaluate` says.
use kubecouncil.Base.{
  ℕ, ◌-◌, ◌≤◌, String, true, false, Option, none, some, List, [], ◌∷◌, ok, ◌≡◌, refl, subst, arith,
  ==_eq, string_eq, contains, find, all, Option-cases, inl, inr,
}
use kubecouncil.Base.Effects.Keeps.{
  Returns, Returns-bind, Returns-bind-lift, Returns-lift, Returns-if, Observed,
  Returns-bind-Observed,
}
use kubecouncil.Domain.Enums.{PolicyStatus, policy_status_eq}
use kubecouncil.Domain.Profile.{ManagedWorkload, action_type_eq}
use kubecouncil.Domain.Enrollment.{EnrollmentReadiness, EnrollmentSnapshot}
use kubecouncil.Domain.Evidence.{Instant}
use kubecouncil.Domain.Policy.{
  RemediationAction, RemediationProposal, rollback, scale, restart, action_target, action_type,
  DeploymentRevision, DeploymentPolicyState, DeploymentPatch, DryRunResult, PolicyCheck,
  PolicyDecision, matches_status,
}
use kubecouncil.Domain.Record.{InvestigationRecord}
use kubecouncil.Binding.{Digest}
use kubecouncil.Enrollment.{check, declared_workload}
use kubecouncil.Policy.Outside.{PolicyKubernetes}
use kubecouncil.Policy.Patch.{build_patch, patch_shape_is_exact, revision_of}
use kubecouncil.Policy.Checks.{
  preflight_checks, first_failure, evidence_hash, is_executable, is_allowed, is_free, is_safe,
  within_bounds, within_quota, action_checks,
}
use kubecouncil.Policy.Evaluate.{
  dated, after_dry_run, after_preflight, rejected_preflight, conclude, evaluate,
}

unfoldable pub ActionIsSafe : ManagedWorkload → DeploymentPolicyState → RemediationAction → Type 0
ActionIsSafe w s (rollback a) =
    (revision : DeploymentRevision) × (revision_of (some s) a.revision ≡ some revision)
    × (revision.restorable ≡ true)
    × (revision.implicated ≡ false)
ActionIsSafe w s (scale a) =
    (w.replica_bounds.minimum ≤ a.replicas)
    × (a.replicas ≤ w.replica_bounds.maximum)
    × (a.replicas - s.replicas ≤ s.replica_quota_headroom)
ActionIsSafe w s (restart a) = Unit

-- What the checks before the patch establish.
pub record IsAdmissible (digest : Digest) (r : InvestigationRecord) (p : RemediationProposal)
    (readiness : EnrollmentReadiness) (state : DeploymentPolicyState) : Type 0 where
  pub workload : ManagedWorkload
  pub scoped : p.incident_id ≡ r.incident.incident_id
  pub current : p.evidence_hash ≡ evidence_hash digest r.evidence
  pub ready : readiness.ready ≡ true
  pub declared : declared_workload r.application_profile (action_target p.action) ≡ some workload
  pub executable : workload.executable ≡ true
  pub unprotected : workload.protected_dependency ≡ false
  pub allowed : contains workload.allowed_actions (action_type p.action) ≡ true
  pub unheld : state.active_intervention ≡ false
  pub safe : ActionIsSafe workload state p.action

pub first_failure-all :
    (checks : List PolicyCheck)
    → first_failure checks ≡ none
    → all (λ (c : PolicyCheck). c.passed) checks ≡ true
unfolding first_failure find all
first_failure-all [] h = refl
first_failure-all (c ∷ checks) h = ground (arith, first_failure-all checks)

rollback_passes :
    (revision : ℕ) (s : DeploymentPolicyState) (found : Option DeploymentRevision)
    → revision_of (some s) revision ≡ found
    → is_safe found ≡ true
    → (x : DeploymentRevision) × (revision_of (some s) revision ≡ some x)
      × (x.restorable ≡ true)
      × (x.implicated ≡ false)
unfolding is_safe
rollback_passes revision s none e h = cc
rollback_passes revision s (some x) e h = (x, e, ground arith, ground arith)

action_checks_pass :
    (action : RemediationAction) (w : ManagedWorkload) (s : DeploymentPolicyState)
    → all (λ (c : PolicyCheck). c.passed) (action_checks action (some w) (some s)) ≡ true
    → ActionIsSafe w s action
unfolding ActionIsSafe action_checks all within_bounds within_quota
action_checks_pass (rollback a) w s h =
    rollback_passes a.revision s (revision_of (some s) a.revision) refl (ground arith)
action_checks_pass (scale a) w s h = (ground arith, ground arith, ground arith)
action_checks_pass (restart a) w s h = tt

pub preflight_checks-IsAdmissible :
    (digest : Digest) (r : InvestigationRecord) (p : RemediationProposal)
    (readiness : EnrollmentReadiness) (state : DeploymentPolicyState)
    → all (λ (c : PolicyCheck). c.passed) (preflight_checks digest r p readiness.ready (some state))
      ≡ true
    → IsAdmissible digest r p readiness state
unfolding preflight_checks all is_executable is_allowed is_free
preflight_checks-IsAdmissible digest r p readiness state h =
    elim (Option-cases (declared_workload r.application_profile (action_target p.action))) [
      | inl missing ↦ absurd (ground arith)
      | inr (w, e) ↦ record {
        workload = w;
        scoped = ==_eq p.incident_id r.incident.incident_id (ground arith);
        current = ==_eq p.evidence_hash (evidence_hash digest r.evidence) (ground arith);
        ready = ground arith;
        declared = e;
        executable = ground arith;
        unprotected = ground arith;
        allowed = ground arith;
        unheld = ground arith;
        safe = action_checks_pass p.action w state (ground arith);
      }
    ]

-- What a passed decision on the proposal rests on.
pub record IsAuthorised {E : Type 0} (digest : Digest) (outside : PolicyKubernetes E)
    (r : InvestigationRecord) (p : RemediationProposal) (d : PolicyDecision) : Type 0 where
  pub snapshot : EnrollmentSnapshot
  pub readiness : EnrollmentReadiness
  pub state : DeploymentPolicyState
  pub patch : DeploymentPatch
  pub dry_run : DryRunResult
  pub enrollment : Observed (outside.inspect r.application_profile) snapshot
  pub checked : check r.application_profile snapshot ≡ ok readiness
  pub inspected : Observed (outside.inspect_deployment (action_target p.action)) (some state)
  pub admissible : IsAdmissible digest r p readiness state
  pub built : build_patch p.action state ≡ ok patch
  pub exact : patch_shape_is_exact patch ≡ true
  pub tried : Observed (outside.dry_run_deployment_patch patch) dry_run
  pub accepted : dry_run.accepted ≡ true
  pub decided : d.patch ≡ some patch
  pub shown : d.dry_run_diff ≡ dry_run.diff
  pub incident : d.incident_id ≡ r.incident.incident_id
  pub proposal : d.proposal_id ≡ p.proposal_id
  pub resource_version : d.workload_resource_version ≡ some state.resource_version
  pub generation : d.workload_generation ≡ some state.generation
  pub revision : d.workload_revision ≡ some state.current_revision

pub matches_status-returns : (d d' : PolicyDecision) → matches_status d ≡ ok d' → d ≡ d'
unfolding matches_status
matches_status-returns d d' h = ground arith

module _ {E : Type 0} (digest : Digest) (outside : PolicyKubernetes E) where
  pub dated-Returns :
      {Q : PolicyDecision → Type 0} (d : PolicyDecision)
      → ((now : Instant) → Q (record d { evaluated_at = now }))
      → Returns Q (dated digest outside d)
  unfolding dated
  dated-Returns {Q} d q =
      Returns-bind outside.utc_now _
        λ now. Returns-lift _ λ d' e. subst Q (matches_status-returns _ d' e) (q now)

  module _ (r : InvestigationRecord) (p : RemediationProposal) where
    abbrev Passed : PolicyDecision → Type 0
    Passed d = d.status ≡ PolicyStatus.passed → IsAuthorised digest outside r p d

    module _ (snapshot : EnrollmentSnapshot) (readiness : EnrollmentReadiness)
        (hs : Observed (outside.inspect r.application_profile) snapshot)
        (hr : check r.application_profile snapshot ≡ ok readiness) where
      module _ (state : DeploymentPolicyState)
          (hd : Observed (outside.inspect_deployment (action_target p.action)) (some state))
          (ha : IsAdmissible digest r p readiness state) (patch : DeploymentPatch)
          (hb : build_patch p.action state ≡ ok patch) where
        after_dry_run-Passed :
            (checks : List PolicyCheck) (dry_run : DryRunResult)
            → patch_shape_is_exact patch ≡ true
            → Observed (outside.dry_run_deployment_patch patch) dry_run
            → Returns Passed (after_dry_run digest outside r p checks state patch dry_run)
        unfolding after_dry_run
        after_dry_run-Passed checks dry_run hx ht =
            Returns-if dry_run.accepted _ _
              (λ accepted. dated-Returns _ λ now _. record {
                snapshot = snapshot;
                readiness = readiness;
                state = state;
                patch = patch;
                dry_run = dry_run;
                enrollment = hs;
                checked = hr;
                inspected = hd;
                admissible = ha;
                built = hb;
                exact = hx;
                tried = ht;
                accepted = accepted;
                decided = refl;
                shown = refl;
                incident = refl;
                proposal = refl;
                resource_version = refl;
                generation = refl;
                revision = refl;
              })
              (λ _. dated-Returns _ λ now s. cc)

        after_preflight-Passed :
            (checks : List PolicyCheck)
            → Returns Passed (after_preflight digest outside r p checks state patch)
        unfolding after_preflight
        after_preflight-Passed checks =
            Returns-if (patch_shape_is_exact patch) _ _
              (λ hx. Returns-bind-Observed _ _ λ dry_run. after_dry_run-Passed _ dry_run hx)
              (λ _. dated-Returns _ λ now s. cc)

      conclude-Passed :
          (state : Option DeploymentPolicyState) (checks : List PolicyCheck) (found : Option String)
          → Observed (outside.inspect_deployment (action_target p.action)) state
          → preflight_checks digest r p readiness.ready state ≡ checks
          → first_failure checks ≡ found
          → Returns Passed (conclude digest outside r p checks found state)
      unfolding conclude rejected_preflight
      conclude-Passed state checks (some failure) hd hc hf = dated-Returns _ λ now s. cc
      conclude-Passed none checks none hd hc hf = dated-Returns _ λ now s. cc
      conclude-Passed (some state) checks none hd hc hf = Returns-bind-lift _ _ λ patch built.
          after_preflight-Passed state hd
            (preflight_checks-IsAdmissible digest r p readiness state (all_of checks hc hf)) patch
            built checks
        where
          all_of :
              (checks : List PolicyCheck)
              → preflight_checks digest r p readiness.ready (some state) ≡ checks
              → first_failure checks ≡ none
              → all
                  (λ (c : PolicyCheck). c.passed)
                  (preflight_checks digest r p readiness.ready (some state))
                ≡ true
          all_of checks hc hf = rw hc (first_failure-all checks hf)

    -- A passed decision of the policy belongs to this Incident and proposal, and rests on an
    -- inspection of the Enrollment whose checks are all passed, on the declared workload of the
    -- target, which is executable, unprotected and allows the action, on evidence that is current,
    -- on an inspected Deployment state without an active Intervention in which the action is safe
    -- (a restorable, unimplicated revision, or replicas within bounds and quota), and on an
    -- accepted dry run of the patch that it carries, which is the one built from the action and
    -- that state, in the exact shape; it is pinned to that state.
    pub evaluate-IsAuthorised :
        (s : E) (d : PolicyDecision)
        → (evaluate digest outside r p s).0 ≡ ok d
        → d.status ≡ PolicyStatus.passed
        → IsAuthorised digest outside r p d
    unfolding evaluate
    evaluate-IsAuthorised s d h passed = (returns.at s d h) passed
      where
        returns : Returns Passed (evaluate digest outside r p)
        returns = Returns-bind-Observed _ _ λ snapshot hs. Returns-bind-lift _ _ λ readiness hr.
            Returns-bind-Observed _ _
              λ state hd. conclude-Passed snapshot readiness hs hr state _ _ hd refl refl

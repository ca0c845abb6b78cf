-- ===== src/Policy/Total.antt =====
-- `DeterministicProposalPolicy.evaluate` decides on every proposal.
use kubecouncil.Base.{
  String, Bool, true, false, not, Option, none, some, List, [], ◌∷◌, ◌++◌, ok, is_none, decide, ◌≡◌,
  ◌==◌, eq_==, Result-cases, inl, inr, refl, arith, all, any, any-append, filter, find, is_empty,
  is_some,
}
use kubecouncil.Base.Json.{object, member, end}
use kubecouncil.Base.Effects.Succeeds.{Succeeds, Succeeds-lift, Succeeds-if, Succeeds-bind}
use kubecouncil.Domain.Enums.{PolicyStatus, policy_status_eq, PolicyStatus-discrete}
use kubecouncil.Domain.Evidence.{Instant}
use kubecouncil.Domain.Profile.{ApplicationProfile, ManagedWorkload, WorkloadReference}
use kubecouncil.Domain.Enrollment.{EnrollmentReadiness, EnrollmentSnapshot, is_truthful}
use kubecouncil.Domain.Policy.{
  RemediationAction, RemediationProposal, rollback, scale, restart, action_target,
  DeploymentPolicyState, DeploymentPatch, DryRunResult, has_one_outcome, PolicyCheck,
  PolicyDecision, matches_status,
}
use kubecouncil.Domain.Record.{InvestigationRecord}
use kubecouncil.Binding.{Digest}
use kubecouncil.Enrollment.{check}
use kubecouncil.Policy.Outside.{PolicyKubernetes}
use kubecouncil.Policy.Patch.{build_patch, patch_of, patch_shape_is_exact, spec_of}
use kubecouncil.Policy.Checks.{preflight_checks, first_failure}
use kubecouncil.Policy.Sound.{ActionIsSafe, preflight_checks-IsAdmissible, first_failure-all}
use kubecouncil.Policy.Evaluate.{
  dated, after_dry_run, after_preflight, rejected_preflight, conclude, evaluate,
}

-- What is outside answers every call, and its dry runs are valid results.
pub record Answers {E : Type 0} (outside : PolicyKubernetes E) : Type 0 where
  pub inspect : (profile : ApplicationProfile) → Succeeds (λ _. Unit) (outside.inspect profile)
  pub inspect_deployment :
      (target : WorkloadReference) → Succeeds (λ _. Unit) (outside.inspect_deployment target)
  pub dry_run :
      (patch : DeploymentPatch)
      → Succeeds (λ r. has_one_outcome r ≡ ok r) (outside.dry_run_deployment_patch patch)
  pub utc_now : Succeeds (λ _. Unit) outside.utc_now

any_failed : List PolicyCheck → Bool
any_failed = any (λ (c : PolicyCheck). not c.passed)

filter_any :
    (checks : List PolicyCheck)
    → is_empty (filter (λ (c : PolicyCheck). not c.passed) checks) ≡ not (any_failed checks)
unfolding filter any any_failed
filter_any [] = refl
filter_any (c ∷ checks) = ground (arith, filter_any checks)

first_failure-any : (checks : List PolicyCheck) → any_failed checks ≡ is_some (first_failure checks)
unfolding any any_failed first_failure find
first_failure-any [] = refl
first_failure-any (c ∷ checks) = ground (arith, first_failure-any checks)

check-returns :
    (profile : ApplicationProfile) (s : EnrollmentSnapshot)
    → (readiness : EnrollmentReadiness) × (check profile s ≡ ok readiness)
unfolding check is_truthful
check-returns profile s = elim (Result-cases (check profile s)) [
  | inl (readiness, h) ↦ (readiness, h)
  | inr (e, h) ↦ absurd (ground arith)
]

build_patch-returns :
    (w : ManagedWorkload) (action : RemediationAction) (s : DeploymentPolicyState)
    → ActionIsSafe w s action
    → (patch : DeploymentPatch) × (build_patch action s ≡ ok patch)
unfolding build_patch spec_of ActionIsSafe
build_patch-returns w (rollback a) s (revision, found, _, _) =
    (patch_of (rollback a) s (object (member "template" revision.pod_template end)), ground arith)
build_patch-returns w (scale a) s safe = (_, refl)
build_patch-returns w (restart a) s safe = (_, refl)

passed-accepted :
    (d : PolicyDecision)
    → d.status ≡ PolicyStatus.passed
    → any_failed d.checks ≡ false
    → is_none d.patch ≡ false
    → is_none d.dry_run_diff ≡ false
    → d.rejection_reason ≡ none
    → matches_status d ≡ ok d
unfolding matches_status
passed-accepted d hs hc hp hd hr =
    ground (arith, filter_any d.checks, eq_== d.status PolicyStatus.passed hs)

rejected-accepted :
    (d : PolicyDecision) (reason : String)
    → (d.status == PolicyStatus.passed) ≡ false
    → any_failed d.checks ≡ true
    → d.dry_run_diff ≡ none
    → d.rejection_reason ≡ some reason
    → matches_status d ≡ ok d
unfolding matches_status
rejected-accepted d reason hs hc hd hr = ground (arith, filter_any d.checks)

dry_run_failed_ne : (PolicyStatus.dry_run_failed == PolicyStatus.passed) ≡ false
unfolding PolicyStatus-discrete decide
dry_run_failed_ne = refl

rejected_ne : (PolicyStatus.rejected == PolicyStatus.passed) ≡ false
unfolding PolicyStatus-discrete decide
rejected_ne = refl

accepted-diff :
    (dry_run : DryRunResult)
    → dry_run.accepted ≡ true
    → has_one_outcome dry_run ≡ ok dry_run
    → is_none dry_run.diff ≡ false
unfolding has_one_outcome
accepted-diff dry_run accepted h = ground arith

append_passed :
    (checks : List PolicyCheck) (c : PolicyCheck)
    → any_failed checks ≡ false
    → c.passed ≡ true
    → any_failed (checks ++ c ∷ []) ≡ false
unfolding any_failed any
append_passed checks c hc h =
    ground (arith, any-append (λ (x : PolicyCheck). not x.passed) checks (c ∷ []))

append_failed :
    (checks : List PolicyCheck) (c : PolicyCheck)
    → c.passed ≡ false
    → any_failed (checks ++ c ∷ []) ≡ true
unfolding any_failed any
append_failed checks c h =
    ground (arith, any-append (λ (x : PolicyCheck). not x.passed) checks (c ∷ []))

-- The decision passes its validator and names the Incident and the proposal.
abbrev pub IsValidFor : InvestigationRecord → RemediationProposal → PolicyDecision → Type 0
IsValidFor r p d =
    (matches_status d ≡ ok d)
    × (d.incident_id ≡ r.incident.incident_id)
    × (d.proposal_id ≡ p.proposal_id)

module _ {E : Type 0} (digest : Digest) (outside : PolicyKubernetes E) (answers : Answers outside)
    (r : InvestigationRecord) (p : RemediationProposal) where
  dated-Succeeds :
      (d : PolicyDecision)
      → ((now : Instant) → IsValidFor r p (record d { evaluated_at = now }))
      → Succeeds (IsValidFor r p) (dated digest outside d)
  unfolding dated
  dated-Succeeds d h =
      Succeeds-bind _ _ answers.utc_now λ now _. Succeeds-lift _ _ (h now).0 (h now)

  after_dry_run-Succeeds :
      (checks : List PolicyCheck) (state : DeploymentPolicyState) (patch : DeploymentPatch)
      (dry_run : DryRunResult)
      → any_failed checks ≡ false
      → has_one_outcome dry_run ≡ ok dry_run
      → Succeeds (IsValidFor r p) (after_dry_run digest outside r p checks state patch dry_run)
  unfolding after_dry_run
  after_dry_run-Succeeds checks state patch dry_run hc ho =
      Succeeds-if dry_run.accepted _ _
        (λ accepted. dated-Succeeds _ λ now. (
          passed-accepted _ refl (append_passed checks _ hc accepted) refl
              (accepted-diff dry_run accepted ho) refl,
          refl,
          refl,
        ))
        (λ refused. dated-Succeeds _ λ now. (
          rejected-accepted _ _ dry_run_failed_ne (append_failed checks _ refused) refl refl,
          refl,
          refl,
        ))

  after_preflight-Succeeds :
      (checks : List PolicyCheck) (state : DeploymentPolicyState) (patch : DeploymentPatch)
      → any_failed checks ≡ false
      → Succeeds (IsValidFor r p) (after_preflight digest outside r p checks state patch)
  unfolding after_preflight
  after_preflight-Succeeds checks state patch hc =
      Succeeds-if (patch_shape_is_exact patch) _ _
        (λ exact. Succeeds-bind _ _ (answers.dry_run patch) λ dry_run ho.
          after_dry_run-Succeeds _ state patch dry_run (append_passed checks _ hc exact) ho)
        (λ inexact. dated-Succeeds _ λ now. (
          rejected-accepted _ _ rejected_ne (append_failed checks _ inexact) refl refl,
          refl,
          refl,
        ))

  rejected_preflight-Succeeds :
      (checks : List PolicyCheck) (state : Option DeploymentPolicyState) (reason : String)
      → any_failed checks ≡ true
      → Succeeds (IsValidFor r p) (rejected_preflight digest outside r p checks state reason)
  unfolding rejected_preflight
  rejected_preflight-Succeeds checks state reason hc =
      dated-Succeeds _ λ now. (rejected-accepted _ reason rejected_ne hc refl refl, refl, refl)

  conclude-Succeeds :
      (readiness : EnrollmentReadiness) (state : Option DeploymentPolicyState)
      (checks : List PolicyCheck) (found : Option String)
      → preflight_checks digest r p readiness.ready state ≡ checks
      → first_failure checks ≡ found
      → Succeeds (IsValidFor r p) (conclude digest outside r p checks found state)
  unfolding conclude preflight_checks
  conclude-Succeeds readiness state checks (some failure) hc hf =
      rejected_preflight-Succeeds checks state failure (ground (arith, first_failure-any checks))
  conclude-Succeeds readiness none checks none hc hf =
      absurd (unfold all in ground (arith, first_failure-all checks hf))
  conclude-Succeeds readiness (some state) checks none hc hf =
      let admissible =
        preflight_checks-IsAdmissible digest r p readiness state
          (rw hc (first_failure-all checks hf)) in
      let (patch, built) = build_patch-returns admissible.workload p.action state admissible.safe in
      Succeeds-bind {P = λ a. Unit} _ _ (Succeeds-lift _ patch built tt)
        λ a _. after_preflight-Succeeds checks state a (ground (arith, first_failure-any checks))

  -- When every call outside returns, and dry runs are valid results, the policy decides on every
  -- proposal in every state: no patch or decision that it builds raises, and the decision passes
  -- its own validator (so a rejected one has a failed check and a reason, and a passed one has
  -- neither, a patch and a diff) and names the Incident and the proposal.
  pub evaluate-decides :
      (s : E) → (d : PolicyDecision) × ((evaluate digest outside r p s).0 ≡ ok d) × IsValidFor r p d
  unfolding evaluate
  evaluate-decides s = decides.at s
    where
      decides : Succeeds (IsValidFor r p) (evaluate digest outside r p)
      decides = Succeeds-bind _ _ (answers.inspect r.application_profile) λ snapshot _.
          let (readiness, checked) = check-returns r.application_profile snapshot in
          Succeeds-bind {P = λ a. Unit} _ _ (Succeeds-lift _ readiness checked tt) λ a _.
            Succeeds-bind _ _ (answers.inspect_deployment (action_target p.action))
              λ state _. conclude-Succeeds a state _ _ refl refl

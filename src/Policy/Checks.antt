-- ===== src/Policy/Checks.antt =====
-- The checks of `DeterministicProposalPolicy.evaluate` before the patch, and `evidence_hash`.
use Prim.Native.Nat.{Ordering}
use Prim.Native.String.{compare, ◌++◌ as ◌<>◌}
use kubecouncil.Base.{
  ℕ, leb, ◌-◌, String, Bool, true, false, not, ◌&&◌, Option, none, some, List, [], ◌∷◌, map, ◌==◌,
  string_eq, contains, is_some, find, if◌then◌else◌,
}
use kubecouncil.Domain.Enums.{PolicyCheckCode}
use kubecouncil.Domain.Profile.{ManagedWorkload, action_type_eq}
use kubecouncil.Domain.Evidence.{EvidenceObservation}
use kubecouncil.Domain.Policy.{
  RemediationAction, RemediationProposal, rollback, scale, restart, action_target, action_type,
  DeploymentRevision, DeploymentPolicyState, PolicyCheck,
}
use kubecouncil.Domain.Record.{InvestigationRecord}
use kubecouncil.Binding.{Digest}
use kubecouncil.Enrollment.{declared_workload}
use kubecouncil.Policy.Patch.{revision_of}

-- `sorted` on strings
abbrev pub at_most : String → String → Bool
at_most a b = elim (compare a b) [ Ordering.gt ↦ false | _ ↦ true ]

unfoldable pub insert_sorted : String → List String → List String
insert_sorted a [] = a ∷ []
insert_sorted a (b ∷ bs) =
    let rest = insert_sorted a bs in if at_most a b then a ∷ b ∷ bs else b ∷ rest

unfoldable pub sorted : List String → List String
sorted [] = []
sorted (a ∷ as_) = insert_sorted a (sorted as_)

-- `"\n".join(…)`
unfoldable pub join_lines : List String → String
join_lines [] = ""
join_lines (a ∷ []) = a
join_lines (a ∷ b ∷ bs) = a <> ("\n" <> join_lines (b ∷ bs))

unfoldable pub evidence_hash : Digest → List EvidenceObservation → String
evidence_hash digest evidence =
    digest.hexdigest
      (join_lines (sorted (map (λ (item : EvidenceObservation). item.content_hash) evidence)))

-- `_check`: the check to append.
abbrev pub policy_check : PolicyCheckCode → Bool → String → String → PolicyCheck
policy_check code passed passed_message failed_message = record {
  code = code;
  passed = passed;
  message = if passed then passed_message else failed_message;
}

unfoldable pub is_executable : Option ManagedWorkload → Bool
is_executable none = false
is_executable (some w) = w.executable && not w.protected_dependency

unfoldable pub is_allowed : RemediationAction → Option ManagedWorkload → Bool
is_allowed action none = false
is_allowed action (some w) = contains w.allowed_actions (action_type action)

unfoldable pub is_free : Option DeploymentPolicyState → Bool
is_free none = false
is_free (some s) = not s.active_intervention

unfoldable pub is_safe : Option DeploymentRevision → Bool
is_safe none = false
is_safe (some revision) = revision.restorable && not revision.implicated

unfoldable pub within_bounds : Option ManagedWorkload → ℕ → Bool
within_bounds none replicas = false
within_bounds (some w) replicas =
    leb w.replica_bounds.minimum replicas && leb replicas w.replica_bounds.maximum

-- `max(0, action.replicas - state.replicas) <= state.replica_quota_headroom`
unfoldable pub within_quota : Option DeploymentPolicyState → ℕ → Bool
within_quota none replicas = false
within_quota (some s) replicas = leb (replicas - s.replicas) s.replica_quota_headroom

unfoldable pub action_checks :
    RemediationAction → Option ManagedWorkload → Option DeploymentPolicyState → List PolicyCheck
action_checks (rollback a) workload state =
    policy_check PolicyCheckCode.revision_available (is_some (revision_of state a.revision))
      "Requested prior revision exists in current Deployment history."
      "Requested revision is missing from current Deployment history."
    ∷ policy_check PolicyCheckCode.restoration_safe (is_safe (revision_of state a.revision))
        "Requested revision has complete, non-implicated restoration evidence."
        "Requested revision is implicated or lacks safe restoration evidence."
    ∷ []
action_checks (scale a) workload state =
    policy_check PolicyCheckCode.replica_bounds (within_bounds workload a.replicas)
      "Requested replicas are within declared bounds."
      "Requested replicas exceed declared workload bounds."
    ∷ policy_check PolicyCheckCode.replica_quota (within_quota state a.replicas)
        "Requested scale remains within current quota headroom."
        "Requested scale exceeds current quota headroom."
    ∷ []
action_checks (restart a) workload state = []

-- The checks that need no patch, in their order.
unfoldable pub preflight_checks :
    Digest
    → InvestigationRecord
    → RemediationProposal
    → Bool
    → Option DeploymentPolicyState
    → List PolicyCheck
preflight_checks digest r p ready state =
    let workload = declared_workload r.application_profile (action_target p.action) in
    policy_check PolicyCheckCode.proposal_scoped (p.incident_id == r.incident.incident_id)
      "Proposal belongs to this Incident." "Proposal belongs to another Incident."
    ∷ policy_check PolicyCheckCode.evidence_current
        (p.evidence_hash == evidence_hash digest r.evidence)
        "Proposal is bound to the current recorded evidence." "Proposal evidence binding is stale."
    ∷ policy_check PolicyCheckCode.enrollment_ready ready
        "Application Enrollment prerequisites are current."
        "Application Enrollment prerequisites are not ready."
    ∷ policy_check PolicyCheckCode.target_enrolled (is_some workload)
        "Target is declared by the enrolled Application Profile."
        "Target is outside the enrolled Application Profile."
    ∷ policy_check PolicyCheckCode.target_executable (is_executable workload)
        "Target is an executable Managed Workload."
        "Target is protected or otherwise non-executable."
    ∷ policy_check PolicyCheckCode.action_allowed (is_allowed p.action workload)
        "Action is explicitly allowlisted for the target."
        "Action is not allowlisted for the target; present it only as Manual Guidance."
    ∷ policy_check PolicyCheckCode.live_state_available (is_some state)
        "Current Deployment state is available."
        "Current Deployment state is unavailable or the target is unmanaged."
    ∷ policy_check PolicyCheckCode.no_active_intervention (is_free state)
        "No active Intervention holds the target."
        "Another Intervention currently holds the target."
    ∷ action_checks p.action workload state

-- `next((check.message for check in checks if not check.passed), None)`
unfoldable pub first_failure : List PolicyCheck → Option String
first_failure checks = elim (find (λ (c : PolicyCheck). not c.passed) checks) [
  | none ↦ none
  | some c ↦ some c.message
]

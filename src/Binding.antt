-- ===== src/Binding.antt =====
-- What a human Approval is bound to (backend/app/domain/approval.py): `canonical_hash`,
-- `build_approval_binding` and `approval_matches_record`.
pub mod Fresh
use kubecouncil.Base.{
  ℕ, Eq, if◌then◌else◌, String, Bool, true, false, not, ◌&&◌, ◌||◌, Option, none, some, List,
  Result, ok, err, ◌>>=◌, ◌>>◌, value_error, raise_if, ◌==◌, string_eq, nat_eq,
}
use kubecouncil.Domain.Enums.{PolicyStatus, policy_status_eq}
use kubecouncil.Domain.Profile.{WorkloadReference, RecoveryCriteria}
use kubecouncil.Domain.Evidence.{Instant, EvidenceWindow, EvidenceObservation}
use kubecouncil.Domain.Policy.{
  RemediationProposal, PolicyDecision, DeploymentPolicyState, DeploymentPatch,
}
use kubecouncil.Domain.Authority.{Approval, ApprovalBinding}
use kubecouncil.Domain.Record.{InvestigationRecord}

-- The values that the code hashes. A payload is an Intervention request without its hash, a key
-- the four ids that make an idempotency key.
pub data Material : Type 0 where
  proposal : RemediationProposal → Material
  policy : PolicyDecision → Material
  criteria : RecoveryCriteria → Material
  evidence : EvidenceWindow → List EvidenceObservation → Material
  text : String → Material
  key : String → String → String → WorkloadReference → Material
  payload :
      String
      → String
      → String
      → String
      → WorkloadReference
      → DeploymentPatch
      → Instant
      → String
      → Material

-- `json.dumps` over pydantic's dump of a value, and SHA-256 in hexadecimal.
pub record Digest : Type 0 where
  pub dumps : Material → String
  pub hexdigest : String → String

-- The stored value is there, and equals the current one.
abbrev pub is_value {ℓ} : {A : Type ℓ} ⦃e : Eq A⦄ → Option A → A → Bool
is_value none a = false
is_value (some x) a = x == a

-- The proposal and its decision, unless `proposal is None or policy is None or policy.status is
-- not PASSED`.
abbrev pub if_passed :
    RemediationProposal → PolicyDecision → Option (RemediationProposal × PolicyDecision)
if_passed p d = if d.status == PolicyStatus.passed then some (p, d) else none

unfoldable pub review_of :
    Option RemediationProposal
    → Option PolicyDecision
    → Option (RemediationProposal × PolicyDecision)
review_of (some p) (some d) = if_passed p d
review_of _ _ = none

unfoldable pub passed_review : InvestigationRecord → Option (RemediationProposal × PolicyDecision)
unfolding review_of
passed_review r = review_of r.proposal r.policy_decision

module _ (digest : Digest) where
  unfoldable pub canonical_hash : Material → String
  canonical_hash value = digest.hexdigest (digest.dumps value)

  -- The tests after `policy.status is PASSED`, on the recorded proposal and decision.
  unfoldable pub binding_of :
      InvestigationRecord
      → RemediationProposal
      → PolicyDecision
      → DeploymentPolicyState
      → Instant
      → Result ApprovalBinding
  binding_of r p d state expires_at = elim d.dry_run_diff [
    | none ↦ err (value_error "Approval requires a successful server-side dry-run")
    | some diff ↦
        raise_if
          (not (
            is_value d.workload_resource_version state.resource_version
            && is_value d.workload_generation state.generation
            && is_value d.workload_revision state.current_revision))
          (value_error "live workload state changed after policy review")
        >> ok (record {
          incident_version = r.incident.version;
          proposal_hash = canonical_hash (proposal p);
          evidence_hash = canonical_hash (evidence r.evidence_window r.evidence);
          workload_resource_version = state.resource_version;
          workload_generation = state.generation;
          workload_revision = state.current_revision;
          policy_hash = canonical_hash (policy d);
          dry_run_hash = canonical_hash (text diff);
          recovery_criteria_hash = canonical_hash (criteria p.recovery_criteria);
          failure_strategy_hash = canonical_hash (text p.rollback_strategy);
          expires_at = expires_at;
        })
  ]

  unfoldable pub build_approval_binding :
      InvestigationRecord → DeploymentPolicyState → Instant → Result ApprovalBinding
  unfolding binding_of
  build_approval_binding r state expires_at = elim (passed_review r) [
    | none ↦ err (value_error "Approval requires one policy-passed Remediation Proposal")
    | some (p, d) ↦ binding_of r p d state expires_at
  ]

  -- The conjunction of `approval_matches_record`, for a proposal and a decision with a diff.
  unfoldable pub approval_matches :
      InvestigationRecord → RemediationProposal → PolicyDecision → String → Approval → Bool
  approval_matches r p d diff a =
      a.proposal_id == p.proposal_id
      && a.proposal_hash == canonical_hash (proposal p)
      && a.evidence_hash == canonical_hash (evidence r.evidence_window r.evidence)
      && is_value d.workload_resource_version a.workload_resource_version
      && is_value d.workload_generation a.workload_generation
      && is_value d.workload_revision a.workload_revision
      && a.policy_hash == canonical_hash (policy d)
      && a.dry_run_hash == canonical_hash (text diff)
      && a.recovery_criteria_hash == canonical_hash (criteria p.recovery_criteria)
      && a.failure_strategy_hash == canonical_hash (text p.rollback_strategy)

  unfoldable pub approval_matches_record : InvestigationRecord → Approval → Bool
  approval_matches_record r a = elim (passed_review r) [
    | none ↦ false
    | some (p, d) ↦ elim d.dry_run_diff [ none ↦ false | some diff ↦ approval_matches r p d diff a ]
  ]

-- ===== src/Binding/Fresh.antt =====
-- `build_approval_binding` against `approval_matches_record`.
use kubecouncil.Base.{
  Option-cases, inl, inr, String, true, none, some, ok, ◌≡◌, arith, eq_==, string_eq, nat_eq,
}
use kubecouncil.Domain.Evidence.{Instant}
use kubecouncil.Domain.Policy.{RemediationProposal, PolicyDecision, DeploymentPolicyState}
use kubecouncil.Domain.Authority.{Approval, ApprovalBinding}
use kubecouncil.Domain.Record.{InvestigationRecord}
use kubecouncil.Domain.Enums.{policy_status_eq}
use kubecouncil.Binding.{
  Digest, Material, canonical_hash, binding_of, build_approval_binding, approval_matches,
  approval_matches_record, passed_review,
}

-- The hashes and workload versions that an Approval copies from a binding.
pub record Carries (a : Approval) (b : ApprovalBinding) : Type 0 where
  pub proposal_hash : a.proposal_hash ≡ b.proposal_hash
  pub evidence_hash : a.evidence_hash ≡ b.evidence_hash
  pub workload_resource_version : a.workload_resource_version ≡ b.workload_resource_version
  pub workload_generation : a.workload_generation ≡ b.workload_generation
  pub workload_revision : a.workload_revision ≡ b.workload_revision
  pub policy_hash : a.policy_hash ≡ b.policy_hash
  pub dry_run_hash : a.dry_run_hash ≡ b.dry_run_hash
  pub recovery_criteria_hash : a.recovery_criteria_hash ≡ b.recovery_criteria_hash
  pub failure_strategy_hash : a.failure_strategy_hash ≡ b.failure_strategy_hash

module _ (digest : Digest) where
  matches_of_binding :
      (r : InvestigationRecord) (p : RemediationProposal) (d : PolicyDecision)
      (state : DeploymentPolicyState) (t : Instant) (b : ApprovalBinding) (a : Approval)
      (diff : String)
      → binding_of digest r p d state t ≡ ok b
      → Carries a b
      → a.proposal_id ≡ p.proposal_id
      → d.dry_run_diff ≡ some diff
      → approval_matches digest r p d diff a ≡ true
  unfolding binding_of approval_matches
  matches_of_binding r p d state t b a diff h c e f = ground (
    arith,
    eq_== a.proposal_id p.proposal_id,
    eq_== a.proposal_hash (canonical_hash digest (Material.proposal p)),
    eq_== a.evidence_hash (canonical_hash digest (Material.evidence r.evidence_window r.evidence)),
    eq_== a.policy_hash (canonical_hash digest (Material.policy d)),
    eq_== a.dry_run_hash (canonical_hash digest (Material.text diff)),
    eq_== a.recovery_criteria_hash (canonical_hash digest (Material.criteria p.recovery_criteria)),
    eq_== a.failure_strategy_hash (canonical_hash digest (Material.text p.rollback_strategy)),
  )

  binding_of_no_diff :
      (r : InvestigationRecord) (p : RemediationProposal) (d : PolicyDecision)
      (state : DeploymentPolicyState) (t : Instant) (b : ApprovalBinding)
      → d.dry_run_diff ≡ none
      → ¬ (binding_of digest r p d state t ≡ ok b)
  unfolding binding_of
  binding_of_no_diff r p d state t b e h = ground arith

  -- An Approval that carries a binding just built for a record, and names the record's proposal,
  -- matches that record.
  pub build_approval_binding-approval_matches_record :
      (r : InvestigationRecord) (state : DeploymentPolicyState) (t : Instant) (b : ApprovalBinding)
      (a : Approval) (p : RemediationProposal)
      → build_approval_binding digest r state t ≡ ok b
      → r.proposal ≡ some p
      → Carries a b
      → a.proposal_id ≡ p.proposal_id
      → approval_matches_record digest r a ≡ true
  unfolding build_approval_binding approval_matches_record passed_review
  build_approval_binding-approval_matches_record r state t b a p h e c f =
      elim (Option-cases r.policy_decision) [
        | inl unreviewed ↦ ground arith
        | inr (d, reviewed) ↦ elim (Option-cases d.dry_run_diff) [
          | inl no_diff ↦ ground (arith, binding_of_no_diff r p d state t b no_diff)
          | inr (diff, has_diff) ↦ ground (arith, matches_of_binding r p d state t b a diff)
        ]
      ]

-- ===== src/Tests/Bindings.antt =====
-- An Approval of the reviewed proposal.
use kubecouncil.Base.{true, ok, ◌≡◌, refl}
use kubecouncil.Domain.Authority.{ApprovalBinding}
use kubecouncil.Binding.{binding_of, build_approval_binding, approval_matches_record}
use kubecouncil.Binding.Fresh.{Carries, build_approval_binding-approval_matches_record}
use kubecouncil.Tests.Data.{state, digest, approval, proposal, reviewed_record}
use kubecouncil.Tests.Stores.{program}

abbrev pub binding : ApprovalBinding
binding = record {
  incident_version = 2;
  proposal_hash = "00000000000000000000000000000000";
  evidence_hash = "00000000000000000000000000000000";
  workload_resource_version = "42";
  workload_generation = 8;
  workload_revision = 8;
  policy_hash = "00000000000000000000000000000000";
  dry_run_hash = "00000000000000000000000000000000";
  recovery_criteria_hash = "00000000000000000000000000000000";
  failure_strategy_hash = "00000000000000000000000000000000";
  expires_at = 9500000000;
}

builds : build_approval_binding digest reviewed_record state 9500000000 ≡ ok binding
unfolding program build_approval_binding binding_of
builds = refl

carries : Carries approval binding
carries = record {
  proposal_hash = refl;
  evidence_hash = refl;
  workload_resource_version = refl;
  workload_generation = refl;
  workload_revision = refl;
  policy_hash = refl;
  dry_run_hash = refl;
  recovery_criteria_hash = refl;
  failure_strategy_hash = refl;
}

build_approval_binding-approval_matches_record_example :
    approval_matches_record digest reviewed_record approval ≡ true
build_approval_binding-approval_matches_record_example =
    build_approval_binding-approval_matches_record digest reviewed_record state 9500000000 binding
      approval proposal builds refl carries refl

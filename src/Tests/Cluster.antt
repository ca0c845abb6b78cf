-- ===== src/Tests/Cluster.antt =====
-- A cluster that counts its UUIDs and logs the patches that it applies, and a reviewed proposal.
use Prim.Native.String.{slice}
use kubecouncil.Base.{ℕ, ◌+◌, true, none, some, List, [], ◌∷◌, ok}
use kubecouncil.Domain.Enums.{ActionConvergenceStatus}
use kubecouncil.Domain.Enrollment.{EnrollmentSnapshot}
use kubecouncil.Domain.Policy.{
  DeploymentPolicyState, DeploymentPatch, RemediationProposal, PolicyDecision,
}
use kubecouncil.Domain.Authority.{InterventionRequest}
use kubecouncil.Domain.Record.{InvestigationRecord}
use kubecouncil.Policy.Outside.{PolicyKubernetes, ExecutorKubernetes}
use kubecouncil.Policy.Patch.{patch_of}
use kubecouncil.Base.Json.{number, object, member, end}
use kubecouncil.Tests.Data
use kubecouncil.Tests.Data.{target, profile}

abbrev pub snapshot : EnrollmentSnapshot
snapshot = record {
  namespaces =
      record {
        namespace = "online-boutique";
        present = true;
        labels = ("kubecouncil.io/enrolled", "true") ∷ [];
      }
      ∷ [];
  workloads =
      record {
        reference = target;
        present = true;
        labels = ("kubecouncil.io/managed", "true") ∷ [];
      }
      ∷ [];
  role_bindings =
      record {
        namespace = "online-boutique";
        subject = profile.investigator_identity;
        role = profile.investigator_role;
        present = true;
      }
      ∷ record {
        namespace = "online-boutique";
        subject = profile.executor_identity;
        role = profile.executor_role;
        present = true;
      }
      ∷ [];
  admission_policy_binding = true;
}

pub record Cluster : Type 0 where
  pub deployment : DeploymentPolicyState
  pub applied : List DeploymentPatch
  pub tokens : ℕ

abbrev pub cluster : Cluster
cluster = record { deployment = Data.state; applied = []; tokens = 0 }

abbrev pub kubernetes : PolicyKubernetes Cluster
kubernetes = record {
  inspect_deployment = λ t c. (ok (some c.deployment), c);
  dry_run_deployment_patch =
      λ patch c. (ok (record { accepted = true; diff = some "replicas 2 -> 3"; error = none }), c);
  inspect = λ p c. (ok snapshot, c);
  utc_now = λ c. (ok 9100000000, c);
  uuid4_hex = λ c.
      (ok (slice "0123456789abcdef" c.tokens (c.tokens + 1)), record c { tokens = c.tokens + 1 });
}

-- What an applied patch makes of the Deployment.
abbrev pub scaled : DeploymentPolicyState
scaled = record Data.state { resource_version = "43"; generation = 9; replicas = 3 }

abbrev pub executor_kubernetes : ExecutorKubernetes Cluster
executor_kubernetes = record {
  policy = kubernetes;
  apply_deployment_patch =
      λ patch c. (ok scaled, record c { deployment = scaled; applied = patch ∷ c.applied });
  verify_deployment_convergence = λ patch applied c. (
    ok (record {
      status = ActionConvergenceStatus.succeeded;
      reason = "Deployment reached the action-specific state.";
      observed_state = some c.deployment;
    }),
    c,
  );
  clock = λ c. (ok 9250000000, c);
}

abbrev pub proposal : RemediationProposal
proposal = record Data.proposal { evidence_hash = "00000000000000000000000000000000" }

abbrev pub patch : DeploymentPatch
patch = patch_of proposal.action Data.state (object (member "replicas" (number 3) end))

abbrev pub reviewed : PolicyDecision
reviewed = record Data.decision { patch = some patch }

abbrev pub reviewed_record : InvestigationRecord
reviewed_record = record Data.reviewed_record {
  proposal = some proposal;
  policy_decision = some reviewed;
}

abbrev pub approved_record : InvestigationRecord
approved_record = record reviewed_record { approvals = Data.approval ∷ [] }

abbrev pub request : InterventionRequest
request = record {
  request_id = "request-1";
  incident_id = "inc-1";
  proposal_id = "proposal-1";
  approval_id = "approval-1";
  target = target;
  patch = patch;
  requested_at = 9210000000;
  idempotency_key = "00000000000000000000000000000000";
  payload_hash = "00000000000000000000000000000000";
}

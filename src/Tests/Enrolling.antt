-- ===== src/Tests/Enrolling.antt =====
-- Enrollment of the profile, its readiness, and the patches of its actions.
use kubecouncil.Base.{ok, true, false, some, [], ◌∷◌, refl, ◌≡◌, ◌↔◌, find, decide}
use kubecouncil.Domain.Profile.{ManagedWorkload, WorkloadReference-discrete, scale_deployment}
use kubecouncil.Domain.Enums.{important}
use kubecouncil.Domain.Enrollment.{EnrollmentReadiness}
use kubecouncil.Domain.Policy.{DeploymentPatch, action_target, action_type}
use kubecouncil.Enrollment.{check, declared_workload, require_enrolled_target}
use kubecouncil.Enrollment.Ready.{IsReady, check-IsReady, require_enrolled_target-returns}
use kubecouncil.Policy.Patch.{build_patch, patch_shape_is_exact}
use kubecouncil.Policy.Exact.{build_patch-exact, TemplateIsKnown}
use kubecouncil.Tests.Data
use kubecouncil.Tests.Data.{profile, target}
use kubecouncil.Tests.Cluster.{snapshot, proposal}

check-IsReady_example :
    (readiness : EnrollmentReadiness) × (check profile snapshot ≡ ok readiness)
    × ((readiness.ready ≡ true) ↔ IsReady profile snapshot)
check-IsReady_example = check-IsReady profile snapshot

abbrev workload : ManagedWorkload
workload = record {
  reference = target;
  criticality = important;
  replica_bounds = record { minimum = 1; maximum = 5 };
  executable = true;
  protected_dependency = false;
  allowed_actions = scale_deployment ∷ [];
  dependencies = [];
}

abbrev readiness : EnrollmentReadiness
readiness = record {
  application_id = "online-boutique";
  profile_version = "v1";
  ready = true;
  checks = [];
}

enrolls : require_enrolled_target profile readiness target true ≡ ok workload
unfolding require_enrolled_target declared_workload find decide WorkloadReference-discrete
enrolls = refl

require_enrolled_target-returns_example :
    (readiness.ready ≡ true)
    × (readiness.application_id ≡ profile.application_id)
    × (readiness.profile_version ≡ profile.version)
    × (declared_workload profile target ≡ some workload)
    × (workload.reference ≡ target)
    × (true ≡ true → (workload.executable ≡ true) × (workload.protected_dependency ≡ false))
require_enrolled_target-returns_example =
    require_enrolled_target-returns profile readiness target true workload enrolls

build_patch-exact_example :
    (patch : DeploymentPatch) × (build_patch proposal.action Data.state ≡ ok patch)
    × (patch.target ≡ action_target proposal.action)
    × (patch.action_type ≡ action_type proposal.action)
    × (patch.resource_version ≡ Data.state.resource_version)
    × (patch_shape_is_exact patch ≡ true)
build_patch-exact_example =
    build_patch-exact proposal.action Data.state (unfold TemplateIsKnown in tt)

-- ===== src/Enrollment.antt =====
-- Enrollment checks (backend/app/services/enrollment.py): `EnrollmentChecker.check` and
-- `require_enrolled_target`.
pub mod Ready
use kubecouncil.Base.{
  String, Bool, true, false, not, ◌&&◌, ◌||◌, Option, none, some, List, [], ◌∷◌, ◌++◌, flat_map,
  Result, ok, err, ◌>>=◌, ◌>>◌, value_error, raise_if, ◌==◌, string_eq, any, find, find_last,
  if◌then◌else◌,
}
use Prim.Native.String.{◌++◌ as ◌<>◌}
use kubecouncil.Base.Dict.{Dict, lookup}
use kubecouncil.Domain.Profile.{
  ApplicationProfile, ManagedWorkload, WorkloadReference, workload_reference_eq,
}
use kubecouncil.Domain.Enrollment.{
  EnrollmentCheckCode, EnrollmentCheck, EnrollmentReadiness, EnrollmentSnapshot, all_passed,
  is_truthful, NamespaceEnrollmentState, WorkloadEnrollmentState, RoleBindingEnrollmentState,
}

-- `labels.get(label) == "true"`
unfoldable pub is_labelled : String → Dict String → Bool
is_labelled label labels = elim (lookup label labels) [ none ↦ false | some v ↦ v == "true" ]

abbrev pub enrolled_namespace_label : String
enrolled_namespace_label = "kubecouncil.io/enrolled"

abbrev pub managed_workload_label : String
managed_workload_label = "kubecouncil.io/managed"

unfoldable pub namespace_state : EnrollmentSnapshot → String → Option NamespaceEnrollmentState
namespace_state s namespace =
    find_last (λ (n : NamespaceEnrollmentState). n.namespace == namespace) s.namespaces

-- `namespace_state is not None and namespace_state.exists`
unfoldable pub namespace_selected : Option NamespaceEnrollmentState → Bool
namespace_selected none = false
namespace_selected (some n) = n.present

unfoldable pub namespace_labelled : Option NamespaceEnrollmentState → Bool
namespace_labelled none = false
namespace_labelled (some n) = n.present && is_labelled enrolled_namespace_label n.labels

-- An active binding of the role to the identity in the namespace.
unfoldable pub is_bound : EnrollmentSnapshot → String → String → String → Bool
is_bound s namespace subject role =
    any
      (λ (b : RoleBindingEnrollmentState).
        b.present && b.namespace == namespace && b.subject == subject && b.role == role)
      s.role_bindings

abbrev pub check_of : EnrollmentCheckCode → Bool → String → String → EnrollmentCheck
check_of code passed yes_message no_message = record {
  code = code;
  passed = passed;
  message = if passed then yes_message else no_message;
  workload = none;
}

unfoldable pub namespace_checks :
    ApplicationProfile → EnrollmentSnapshot → String → List EnrollmentCheck
namespace_checks profile s namespace =
    let found = namespace_state s namespace in
    check_of EnrollmentCheckCode.namespace_selected (namespace_selected found)
      ("Namespace " <> (namespace <> " is selected by Enrollment."))
      ("Namespace " <> (namespace <> " is missing from Enrollment inspection."))
    ∷ check_of EnrollmentCheckCode.namespace_enrolled_label (namespace_labelled found)
        ("Namespace " <> (namespace <> " has kubecouncil.io/enrolled: true."))
        ("Namespace " <> (namespace <> " must have kubecouncil.io/enrolled: true."))
    ∷ check_of EnrollmentCheckCode.investigator_role_binding
        (is_bound s namespace profile.investigator_identity profile.investigator_role)
        ("Investigator RoleBinding is active in " <> (namespace <> "."))
        ("Investigator RoleBinding is missing in " <> (namespace <> "."))
    ∷ check_of EnrollmentCheckCode.executor_role_binding
        (is_bound s namespace profile.executor_identity profile.executor_role)
        ("Executor RoleBinding is active in " <> (namespace <> "."))
        ("Executor RoleBinding is missing in " <> (namespace <> "."))
    ∷ []

unfoldable pub workload_state :
    EnrollmentSnapshot → WorkloadReference → Option WorkloadEnrollmentState
workload_state s reference =
    find_last (λ (w : WorkloadEnrollmentState). w.reference == reference) s.workloads

unfoldable pub workload_selected : Option WorkloadEnrollmentState → Bool
workload_selected none = false
workload_selected (some w) = w.present

unfoldable pub workload_managed : Option WorkloadEnrollmentState → Bool
workload_managed none = false
workload_managed (some w) = w.present && is_labelled managed_workload_label w.labels

abbrev pub workload_check :
    EnrollmentCheckCode → Bool → String → String → WorkloadReference → EnrollmentCheck
workload_check code passed yes_message no_message reference =
    record (check_of code passed yes_message no_message) { workload = some reference }

unfoldable pub workload_checks : EnrollmentSnapshot → ManagedWorkload → List EnrollmentCheck
workload_checks s w =
    let found = workload_state s w.reference in
    let name = w.reference.name in
    workload_check EnrollmentCheckCode.workload_selected (workload_selected found)
      ("Workload " <> (name <> " is selected by Enrollment."))
      ("Workload " <> (name <> " is missing from Enrollment inspection.")) w.reference
    ∷ (if w.executable
        then workload_check EnrollmentCheckCode.managed_workload_label (workload_managed found)
            ("Managed Workload " <> (name <> " has kubecouncil.io/managed: true."))
            ("Managed Workload " <> (name <> " must have kubecouncil.io/managed: true."))
            w.reference
          ∷ []
        else [])

unfoldable pub enrollment_checks : ApplicationProfile → EnrollmentSnapshot → List EnrollmentCheck
enrollment_checks profile s =
    check_of EnrollmentCheckCode.profile_valid true "Application Profile passed typed validation."
      "Application Profile passed typed validation."
    ∷ (flat_map (namespace_checks profile s) profile.namespaces
        ++ (flat_map (workload_checks s) profile.workloads
            ++ (check_of EnrollmentCheckCode.admission_policy_binding s.admission_policy_binding
                  "Admission-policy binding is active." "Admission-policy binding is missing."
                ∷ [])))

-- `EnrollmentChecker.check`
unfoldable pub check : ApplicationProfile → EnrollmentSnapshot → Result EnrollmentReadiness
check profile s = is_truthful (record {
  application_id = profile.application_id;
  profile_version = profile.version;
  ready = all_passed (enrollment_checks profile s);
  checks = enrollment_checks profile s;
})

-- `next((item for item in profile.workloads if item.reference == target), None)`
unfoldable pub declared_workload : ApplicationProfile → WorkloadReference → Option ManagedWorkload
declared_workload profile target =
    find (λ (w : ManagedWorkload). w.reference == target) profile.workloads

unfoldable pub require_enrolled_target :
    ApplicationProfile → EnrollmentReadiness → WorkloadReference → Bool → Result ManagedWorkload
require_enrolled_target profile readiness target require_executable = do
  raise_if
      (not (readiness.application_id == profile.application_id)
        || not (readiness.profile_version == profile.version))
      (value_error "enrollment readiness does not match the application profile")
  raise_if (not readiness.ready)
      (value_error "Enrollment is not ready; targets remain outside KubeCouncil authority")
  elim (declared_workload profile target) [
    | none ↦ err (value_error "target is outside the enrolled application profile")
    | some w ↦ do
      raise_if (require_executable && w.protected_dependency)
          (value_error "protected dependency is observable but is never executable")
      raise_if (require_executable && not w.executable)
          (value_error "target is not an executable Managed Workload")
      ok w
  ]

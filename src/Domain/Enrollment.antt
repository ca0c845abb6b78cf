-- ===== src/Domain/Enrollment.antt =====
-- Enrollment: what was inspected, the checks made of it, and their validators.
use kubecouncil.Base.{
  String, Bool, not, List, Option, Result, ok, ◌>>◌, value_error, raise_if, Eq, eq_of_discrete,
  string_eq, all, map, filter, unique, differ, String-discrete,
}
use kubecouncil.Base.Dict.{Dict}
use kubecouncil.Domain.Profile.{WorkloadReference, workload_reference_eq}

pub data EnrollmentCheckCode : Type 0 where
  profile_valid namespace_selected namespace_enrolled_label : EnrollmentCheckCode
  investigator_role_binding executor_role_binding workload_selected : EnrollmentCheckCode
  managed_workload_label admission_policy_binding : EnrollmentCheckCode

pub record EnrollmentCheck : Type 0 where
  pub code : EnrollmentCheckCode
  pub passed : Bool
  pub message : String
  pub workload : Option WorkloadReference

pub record EnrollmentReadiness : Type 0 where
  pub application_id : String
  pub profile_version : String
  pub ready : Bool
  pub checks : List EnrollmentCheck

-- `all(check.passed for check in checks)`
unfoldable pub all_passed : List EnrollmentCheck → Bool
all_passed = all (λ (c : EnrollmentCheck). c.passed)

-- The validator of `EnrollmentReadiness`.
unfoldable pub is_truthful : EnrollmentReadiness → Result EnrollmentReadiness
is_truthful r = do
  raise_if (differ r.ready (all_passed r.checks))
      (value_error "enrollment readiness must equal the result of all checks")
  ok r

unfoldable pub failed_checks : EnrollmentReadiness → List EnrollmentCheck
failed_checks r = filter (λ (c : EnrollmentCheck). not c.passed) r.checks

pub record NamespaceEnrollmentState : Type 0 where
  pub namespace : String
  pub present : Bool
  pub labels : Dict String

pub record WorkloadEnrollmentState : Type 0 where
  pub reference : WorkloadReference
  pub present : Bool
  pub labels : Dict String

pub record RoleBindingEnrollmentState : Type 0 where
  pub namespace : String
  pub subject : String
  pub role : String
  pub present : Bool

-- The field `exists` of the three states is `present` here.
pub record EnrollmentSnapshot : Type 0 where
  pub namespaces : List NamespaceEnrollmentState
  pub workloads : List WorkloadEnrollmentState
  pub role_bindings : List RoleBindingEnrollmentState
  pub admission_policy_binding : Bool

-- The triples that identify role bindings.
pub record BindingKey : Type 0 where
  pub namespace : String
  pub subject : String
  pub role : String

unfoldable pub BindingKey-discrete : Discrete BindingKey
unfolding String-discrete
BindingKey-discrete = hlevel String-discrete

instance abbrev pub binding_key_eq : Eq BindingKey
binding_key_eq = eq_of_discrete BindingKey-discrete

unfoldable pub binding_keys : List RoleBindingEnrollmentState → List BindingKey
binding_keys = map λ (s : RoleBindingEnrollmentState). record {
  namespace = s.namespace;
  subject = s.subject;
  role = s.role;
}

-- The validator of `EnrollmentSnapshot`.
unfoldable pub contains_unique_resources : EnrollmentSnapshot → Result EnrollmentSnapshot
contains_unique_resources s = do
  raise_if (not (unique (map (λ (n : NamespaceEnrollmentState). n.namespace) s.namespaces)))
      (value_error "enrollment snapshot namespaces must be unique")
  raise_if (not (unique (map (λ (w : WorkloadEnrollmentState). w.reference) s.workloads)))
      (value_error "enrollment snapshot workloads must be unique")
  raise_if (not (unique (binding_keys s.role_bindings)))
      (value_error "enrollment snapshot role bindings must be unique")
  ok s

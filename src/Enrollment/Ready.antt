-- ===== src/Enrollment/Ready.antt =====
-- What readiness says of the inspected Enrollment, and who passes `require_enrolled_target`.
use kubecouncil.Base.{
  String, Bool, true, false, ◌&&◌, some, List, [], ◌∷◌, ◌++◌, flat_map, ok, ◌≡◌, ◌↔◌, refl, arith,
  ap, ◌∙◌, all, Option-cases, Bool-cases, inl, inr, ◌==◌, ==_eq, string_eq, find_holds,
}
use kubecouncil.Domain.Profile.{
  ApplicationProfile, ManagedWorkload, WorkloadReference, workload_reference_eq,
}
use kubecouncil.Domain.Enrollment.{
  EnrollmentCheckCode, EnrollmentCheck, EnrollmentReadiness, EnrollmentSnapshot, all_passed,
  is_truthful, NamespaceEnrollmentState, WorkloadEnrollmentState,
}
use kubecouncil.Enrollment.{
  check_of, is_labelled, enrolled_namespace_label, managed_workload_label, namespace_state,
  namespace_selected, namespace_labelled, is_bound, namespace_checks, workload_state,
  workload_selected, workload_managed, workload_checks, enrollment_checks, check, declared_workload,
  require_enrolled_target,
}

-- The predicate holds of every element.
pub AllOf {ℓ} : {A : Type ℓ} → (A → Type ℓ) → List A → Type ℓ
AllOf P [] = Unit
AllOf P (x ∷ xs) = P x × AllOf P xs

-- The namespace was found, labelled, and both identities are bound to their roles in it.
pub record NamespaceIsReady (profile : ApplicationProfile) (s : EnrollmentSnapshot) (n : String)
    : Type 0 where
  pub state : NamespaceEnrollmentState
  pub found : namespace_state s n ≡ some state
  pub present : state.present ≡ true
  pub labelled : is_labelled enrolled_namespace_label state.labels ≡ true
  pub investigator : is_bound s n profile.investigator_identity profile.investigator_role ≡ true
  pub executor : is_bound s n profile.executor_identity profile.executor_role ≡ true

-- The workload was found and, if it is executable, labelled as managed.
pub record WorkloadIsReady (s : EnrollmentSnapshot) (w : ManagedWorkload) : Type 0 where
  pub state : WorkloadEnrollmentState
  pub found : workload_state s w.reference ≡ some state
  pub present : state.present ≡ true
  pub managed : w.executable ≡ true → is_labelled managed_workload_label state.labels ≡ true

pub record IsReady (profile : ApplicationProfile) (s : EnrollmentSnapshot) : Type 0 where
  pub namespaces : AllOf (NamespaceIsReady profile s) profile.namespaces
  pub workloads : AllOf (WorkloadIsReady s) profile.workloads
  pub admission : s.admission_policy_binding ≡ true

module _ {ℓ} {A : Type ℓ} where
  all-append : (p : A → Bool) (xs ys : List A) → all p (xs ++ ys) ≡ (all p xs && all p ys)
  unfolding all
  all-append p [] ys = refl
  all-append p (x ∷ xs) ys = ground (arith, all-append p xs ys)

  all-flat_map :
      {B : Type ℓ} (p : A → Bool) (f : B → List A) (xs : List B)
      → all p (flat_map f xs) ≡ all (λ x. all p (f x)) xs
  unfolding all flat_map
  all-flat_map p f [] = refl
  all-flat_map p f (x ∷ xs) =
      all-append p (f x) (flat_map f xs) ∙ ap (all p (f x) &&◌) (all-flat_map p f xs)

  all-AllOf :
      {Q : A → Type ℓ} (p : A → Bool)
      → ((x : A) → (p x ≡ true) ↔ Q x)
      → (xs : List A) → (all p xs ≡ true) ↔ AllOf Q xs
  unfolding all AllOf
  all-AllOf p h [] = (λ _. tt, λ _. refl)
  all-AllOf p h (x ∷ xs) =
      let (there, back) = all-AllOf p h xs in
      (
        λ e. ((h x).0 (ground arith), there (ground arith)),
        λ q. ground (arith, (h x).1 q.0, back q.1),
      )

has_passed : EnrollmentCheck → Bool
has_passed c = c.passed

namespace_ready :
    (profile : ApplicationProfile) (s : EnrollmentSnapshot) (n : String)
    → (all has_passed (namespace_checks profile s n) ≡ true) ↔ NamespaceIsReady profile s n
unfolding all namespace_checks namespace_selected namespace_labelled has_passed
namespace_ready profile s n = (
  λ e. elim (Option-cases (namespace_state s n)) [
    | inl missing ↦ absurd (ground arith)
    | inr (state, found) ↦ record {
      state = state;
      found = found;
      present = ground arith;
      labelled = ground arith;
      investigator = ground arith;
      executor = ground arith;
    }
  ],
  λ h. ground (arith, h.found, h.present, h.labelled, h.investigator, h.executor),
)

split :
    (profile : ApplicationProfile) (s : EnrollmentSnapshot)
    → all has_passed (enrollment_checks profile s) ≡ (
        all (λ n. all has_passed (namespace_checks profile s n)) profile.namespaces
        && (all (λ w. all has_passed (workload_checks s w)) profile.workloads
            && s.admission_policy_binding))
unfolding enrollment_checks all has_passed
split profile s = ground (
  arith,
  all-append has_passed (flat_map (namespace_checks profile s) profile.namespaces) (
      flat_map (workload_checks s) profile.workloads
      ++ check_of EnrollmentCheckCode.admission_policy_binding s.admission_policy_binding
          "Admission-policy binding is active." "Admission-policy binding is missing."
        ∷ []),
  all-append has_passed (flat_map (workload_checks s) profile.workloads) (
      check_of EnrollmentCheckCode.admission_policy_binding s.admission_policy_binding
        "Admission-policy binding is active." "Admission-policy binding is missing."
      ∷ []),
  all-flat_map has_passed (namespace_checks profile s) profile.namespaces,
  all-flat_map has_passed (workload_checks s) profile.workloads,
)

workload_ready :
    (s : EnrollmentSnapshot) (w : ManagedWorkload)
    → (all has_passed (workload_checks s w) ≡ true) ↔ WorkloadIsReady s w
unfolding all workload_checks workload_selected workload_managed has_passed
workload_ready s w = (
  λ e. elim (Option-cases (workload_state s w.reference)) [
    | inl missing ↦ absurd (ground arith)
    | inr (state, found) ↦ record {
      state = state;
      found = found;
      present = ground arith;
      managed = λ x. ground arith;
    }
  ],
  λ h. elim (Bool-cases w.executable) [
    | inl e ↦ ground (arith, h.found, h.present, h.managed e)
    | inr e ↦ ground (arith, h.found, h.present)
  ],
)

enrollment_checks-IsReady :
    (profile : ApplicationProfile) (s : EnrollmentSnapshot)
    → (all has_passed (enrollment_checks profile s) ≡ true) ↔ IsReady profile s
unfolding enrollment_checks all
enrollment_checks-IsReady profile s =
    let (ns_there, ns_back) = all-AllOf _ (namespace_ready profile s) profile.namespaces in
    let (ws_there, ws_back) = all-AllOf _ (workload_ready s) profile.workloads in
    (
      λ e. record {
        namespaces = ns_there (ground (arith, split profile s));
        workloads = ws_there (ground (arith, split profile s));
        admission = ground (arith, split profile s);
      },
      λ h. ground (arith, split profile s, ns_back h.namespaces, ws_back h.workloads, h.admission),
    )

returned :
    (profile : ApplicationProfile) (s : EnrollmentSnapshot)
    → check profile s
      ≡ ok (record {
        application_id = profile.application_id;
        profile_version = profile.version;
        ready = all has_passed (enrollment_checks profile s);
        checks = enrollment_checks profile s;
      })
unfolding check is_truthful all_passed has_passed
returned profile s = elim (Bool-cases (all has_passed (enrollment_checks profile s))) [
  | inl e ↦ ground arith
  | inr e ↦ ground arith
]

-- The readiness that `check` returns is ready exactly when every namespace of the profile was
-- found with its label and the bindings of both identities, every workload was found, the
-- executable ones with their label, and the admission policy is bound; and `check` returns.
pub check-IsReady :
    (profile : ApplicationProfile) (s : EnrollmentSnapshot)
    → (readiness : EnrollmentReadiness) × (check profile s ≡ ok readiness)
      × ((readiness.ready ≡ true) ↔ IsReady profile s)
check-IsReady profile s = (_, returned profile s, enrollment_checks-IsReady profile s)

-- `require_enrolled_target` returns only for a ready Enrollment of this profile and version, and
-- returns the workload that the profile declares for the target, which is the target's own; if an
-- executable one is required it is executable and no protected dependency.
pub require_enrolled_target-returns :
    (profile : ApplicationProfile) (readiness : EnrollmentReadiness) (target : WorkloadReference)
    (required : Bool) (w : ManagedWorkload)
    → require_enrolled_target profile readiness target required ≡ ok w
    → (readiness.ready ≡ true)
      × (readiness.application_id ≡ profile.application_id)
      × (readiness.profile_version ≡ profile.version)
      × (declared_workload profile target ≡ some w)
      × (w.reference ≡ target)
      × (required ≡ true → (w.executable ≡ true) × (w.protected_dependency ≡ false))
unfolding require_enrolled_target declared_workload
require_enrolled_target-returns profile readiness target required w h =
    elim (Option-cases (declared_workload profile target)) [
      | inl missing ↦ absurd (ground arith)
      | inr (x, found) ↦
          let same : declared_workload profile target ≡ some w = ground arith in
          (
            ground arith,
            ==_eq readiness.application_id profile.application_id (ground arith),
            ==_eq readiness.profile_version profile.version (ground arith),
            same,
            ==_eq w.reference target (
                find_holds (λ (v : ManagedWorkload). v.reference == target) profile.workloads w
                  same),
            λ e. (ground arith, ground arith),
          )
    ]

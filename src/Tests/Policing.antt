-- ===== src/Tests/Policing.antt =====
-- The policy on the reviewed proposal.
use kubecouncil.Base.{
  find_last, ok, err, refl, ◌≡◌, Result, decide, find, all, any, filter, contains, flat_map,
  String-discrete, ℕ_discrete,
}
use kubecouncil.Base.Dict.{lookup}
use kubecouncil.Base.Json.{Json-discrete}
use kubecouncil.Base.Effects.{lift, ◌>>=◌}
use kubecouncil.Domain.Enums.{PolicyStatus, PolicyStatus-discrete}
use kubecouncil.Domain.Profile.{ActionType-discrete, WorkloadReference-discrete}
use kubecouncil.Domain.Enrollment.{is_truthful, all_passed}
use kubecouncil.Domain.Policy.{PolicyDecision, matches_status, has_one_outcome}
use kubecouncil.Enrollment.{
  check, enrollment_checks, namespace_checks, namespace_selected, namespace_state,
  namespace_labelled, is_labelled, is_bound, declared_workload, workload_checks, workload_managed,
  workload_selected, workload_state,
}
use kubecouncil.Policy.Checks.{
  action_checks, evidence_hash, first_failure, insert_sorted, is_allowed, is_executable, is_free,
  is_safe, join_lines, preflight_checks, sorted, within_bounds, within_quota,
}
use kubecouncil.Policy.Evaluate.{
  after_dry_run, after_preflight, conclude, dated, or_default, rejected_preflight, evaluate,
}
use kubecouncil.Policy.Patch.{
  annotations_are_exact, as_dict, build_patch, dict_at, has_keys, is_int, is_str, keys,
  patch_shape_is_exact, restart_is_exact, revision_of, spec_is_exact, spec_of, value_at,
}
use kubecouncil.Policy.Sound.{IsAuthorised, evaluate-IsAuthorised}
use kubecouncil.Policy.Total.{Answers, IsValidFor, evaluate-decides}
use kubecouncil.Tests.Data.{digest}
use kubecouncil.Tests.Cluster.{cluster, kubernetes, proposal, approved_record, reviewed}

-- The definitions that an evaluation computes.
unfoldable pub policing : Unit {0}
unfolding decide find all any filter contains flat_map String-discrete ℕ_discrete lookup
    Json-discrete lift ◌>>=◌ PolicyStatus-discrete ActionType-discrete WorkloadReference-discrete
    is_truthful all_passed matches_status check enrollment_checks namespace_checks
    namespace_selected namespace_state find_last namespace_labelled is_labelled is_bound
    declared_workload workload_checks workload_managed workload_selected workload_state
    action_checks evidence_hash first_failure insert_sorted is_allowed is_executable is_free is_safe
    join_lines preflight_checks sorted within_bounds within_quota after_dry_run after_preflight
    conclude dated or_default rejected_preflight evaluate annotations_are_exact as_dict build_patch
    dict_at has_keys is_int is_str keys patch_shape_is_exact restart_is_exact revision_of
    spec_is_exact spec_of value_at
policing = tt

abbrev decision_in : Result PolicyDecision → PolicyDecision
decision_in (ok d) = d
decision_in (err e) = reviewed

abbrev decided : PolicyDecision
decided = decision_in (evaluate digest kubernetes approved_record proposal cluster).0

decides : (evaluate digest kubernetes approved_record proposal cluster).0 ≡ ok decided
unfolding policing
decides = refl

passes : decided.status ≡ PolicyStatus.passed
unfolding policing
passes = refl

evaluate-IsAuthorised_example : IsAuthorised digest kubernetes approved_record proposal decided
evaluate-IsAuthorised_example =
    evaluate-IsAuthorised digest kubernetes approved_record proposal cluster decided decides passes

answers : Answers kubernetes
unfolding has_one_outcome
answers = record {
  inspect = λ profile. record { at = λ s. (_, refl, tt) };
  inspect_deployment = λ target. record { at = λ s. (_, refl, tt) };
  dry_run = λ patch. record { at = λ s. (_, refl, refl) };
  utc_now = record { at = λ s. (_, refl, tt) };
}

evaluate-decides_example :
    (d : PolicyDecision) × ((evaluate digest kubernetes approved_record proposal cluster).0 ≡ ok d)
    × IsValidFor approved_record proposal d
evaluate-decides_example =
    evaluate-decides digest kubernetes answers approved_record proposal cluster

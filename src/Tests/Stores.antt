-- ===== src/Tests/Stores.antt =====
-- Calls of the store on two incidents, from the first alert to the recovery of one of them.
use kubecouncil.Base.{
  [], ◌∷◌, ok, ◌≡◌, refl, decide, contains, any, find, ne_of_==_false, string_eq, get_last?,
  String-discrete, ℕ_discrete,
}
use kubecouncil.Base.Dict.{lookup, insert}
use kubecouncil.Domain.Enums.{
  IncidentLifecycle-discrete, InvestigationOutcome-discrete, InterventionOutcome-discrete,
  PolicyStatus-discrete, ApprovalDecision-discrete, InterventionState-discrete,
}
use kubecouncil.Domain.Profile.{WorkloadReference-discrete, enrolled_workloads}
use kubecouncil.Domain.Authority.{Intervention-discrete}
use kubecouncil.Domain.Evidence.{is_time_ordered}
use kubecouncil.Domain.Lifecycle.{
  transition_incident, lifecycle_transitions, investigation_outcome_transitions,
  intervention_outcome_transitions,
}
use kubecouncil.Domain.Record.{
  InvestigationRecord, any_stray, any_outside, any_uncited, policy_fault, any_other_proposal,
  scope_escapes, entries_stray, citations_dangle, all_entries_belong_to_the_incident,
}
use kubecouncil.Binding.{
  canonical_hash, review_of, passed_review, approval_matches, approval_matches_record,
}
use kubecouncil.Store.Access.{Store, get, required_record, replace, amend, next_cursor, with_event}
use kubecouncil.Store.Create.{earlier, window_start_of, opened, create}
use kubecouncil.Store.Append.{append_audit_event}
use kubecouncil.Store.Decide.{
  complete_investigation, incident_after_policy, record_policy_decision, record_approval_decision,
}
use kubecouncil.Store.Intervene.{
  lacks_approval, approval_for, is_running, record_intervention, intervention_for, put_intervention,
  lifecycle_after, outcome_after, update_intervention,
}
use kubecouncil.Store.Change.{
  apply_change, execute, investigation, policy, approval, intervention, intervention_update,
}
use kubecouncil.Store.Reachable.{
  IsReachable, empty, created, mutated, IsReachable-IsSound, execute_others,
}
use kubecouncil.Store.Invariant.{IsSound}
use kubecouncil.Tests.Data
use kubecouncil.Tests.Data.{profile, signal, first_record, event, digest, reviewed_record, decision}
use kubecouncil.Tests.Story.{
  output, investigated_record, approved_record, claimed, done, claimed_record, monitored_record,
}

-- The definitions that a run computes.
unfoldable pub program : Unit {0}
unfolding create window_start_of earlier is_time_ordered opened all_entries_belong_to_the_incident
    any_stray any_outside any_uncited policy_fault any_other_proposal scope_escapes entries_stray
    citations_dangle contains decide WorkloadReference-discrete String-discrete any insert lookup
    enrolled_workloads execute apply_change amend get required_record replace complete_investigation
    transition_incident lifecycle_transitions investigation_outcome_transitions
    intervention_outcome_transitions IncidentLifecycle-discrete InvestigationOutcome-discrete
    InterventionOutcome-discrete record_policy_decision incident_after_policy PolicyStatus-discrete
    record_approval_decision approval_matches_record approval_matches passed_review review_of
    canonical_hash with_event next_cursor get_last? record_intervention lacks_approval approval_for
    find ApprovalDecision-discrete is_running InterventionState-discrete update_intervention
    intervention_for put_intervention lifecycle_after outcome_after Intervention-discrete ℕ_discrete
    append_audit_event
program = tt

-- The other incident, opened by the same alert.
abbrev pub other_record : InvestigationRecord
other_record = record first_record {
  incident = record (first_record.incident) { incident_id = "inc-2" };
  evidence_window = record (first_record.evidence_window) {
    window_id = "window-2";
    incident_id = "inc-2";
  };
}

-- The store of the two incidents.
abbrev pub both : InvestigationRecord → Store
both r = ("inc-1", r) ∷ ("inc-2", other_record) ∷ []

opens_first :
    create [] profile signal "inc-1" "window-1" ≡ ok (("inc-1", first_record) ∷ [], first_record)
unfolding program
opens_first = refl

opens_other :
    create (("inc-1", first_record) ∷ []) profile signal "inc-2" "window-2"
    ≡ ok (both first_record, other_record)
unfolding program
opens_other = refl

investigates :
    execute digest (investigation output) "inc-1" (both first_record)
    ≡ ok (both investigated_record, investigated_record)
unfolding program
investigates = refl

reviews :
    execute digest (policy decision) "inc-1" (both investigated_record)
    ≡ ok (both reviewed_record, reviewed_record)
unfolding program
reviews = refl

approves :
    execute digest
      (approval 9200000000 2 Data.approval (event "event-1" "approval_recorded"))
      "inc-1"
      (both reviewed_record)
    ≡ ok (both approved_record, approved_record)
unfolding program
approves = refl

claims :
    execute digest
      (intervention 3 claimed (event "event-2" "intervention_claimed"))
      "inc-1"
      (both approved_record)
    ≡ ok (both claimed_record, claimed_record)
unfolding program
claims = refl

ends :
    execute digest
      (intervention_update done (event "event-3" "intervention_succeeded"))
      "inc-1"
      (both claimed_record)
    ≡ ok (both monitored_record, monitored_record)
unfolding program
ends = refl

pub until_approved : IsReachable digest (both approved_record)
until_approved =
    mutated _ "inc-1"
      (mutated _ "inc-1"
        (mutated _ "inc-1"
          (created profile signal "inc-2" "window-2"
            (created profile signal "inc-1" "window-1" empty opens_first) opens_other)
          investigates)
        reviews)
      approves

pub until_monitored : IsReachable digest (both monitored_record)
until_monitored = mutated _ "inc-1" (mutated _ "inc-1" until_approved claims) ends

IsReachable-IsSound_example : IsSound "inc-1" monitored_record
IsReachable-IsSound_example =
    IsReachable-IsSound digest (both monitored_record) "inc-1" monitored_record until_monitored
      (unfold get lookup in refl)

execute_others_example : get (both claimed_record) "inc-2" ≡ get (both approved_record) "inc-2"
execute_others_example =
    execute_others digest (intervention 3 claimed (event "event-2" "intervention_claimed")) "inc-1"
      "inc-2" (both approved_record) (both claimed_record) claimed_record until_approved claims
      (ne_of_==_false "inc-2" "inc-1" refl)

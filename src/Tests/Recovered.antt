-- ===== src/Tests/Recovered.antt =====
-- What the recovery assessments and the versions of a record come to.
use kubecouncil.Base.{◌≤◌, ◌↔◌, some, [], ◌∷◌, ok, ◌≡◌, refl, filter}
use kubecouncil.Domain.Enums.{IncidentLifecycle}
use kubecouncil.Domain.Record.{InvestigationRecord}
use kubecouncil.Store.Access.{get, timeline}
use kubecouncil.Store.Decide.{record_approval_decision}
use kubecouncil.Store.Recover.{
  lacks_success, declared_journey, assessments_of, last_assessment, overlaps, continues,
  expected_stable_windows, expected_event_type, all_checks_pass, journey_fault, check_assessment,
  incident_after_assessment, record_recovery_assessment,
}
use kubecouncil.Store.Change.{
  apply_change, execute, audit_event, approval, intervention, assessment,
}
use kubecouncil.Store.Reachable.{IsReachable, mutated, IsReachable-IsSound, timeline_resumes}
use kubecouncil.Store.Extends.{Extends}
use kubecouncil.Store.Concluded.{SameConclusions, apply_change-SameConclusions}
use kubecouncil.Store.History.{apply_change-Extends}
use kubecouncil.Store.Versions.{stale_version_refused, decided_once}
use kubecouncil.Store.Stable.{IsStableRun, windows_newest, resolved_iff}
use kubecouncil.Store.Honest.{resolved_when_stable}
use kubecouncil.Tests.Data
use kubecouncil.Tests.Data.{digest, event, incident, reviewed_record}
use kubecouncil.Tests.Story.{
  approved_record, claimed, monitored_record, watched_record, resolved_record, numbered, window_1,
  window_2,
}
use kubecouncil.Tests.Stores.{program, both, until_approved, until_monitored}

recovery : Unit {0}
unfolding program lacks_success declared_journey assessments_of last_assessment overlaps continues
    expected_stable_windows expected_event_type all_checks_pass journey_fault check_assessment
    incident_after_assessment record_recovery_assessment filter
recovery = tt

watches :
    execute digest
      (assessment 5 window_1 (event "event-4" "recovery_window_satisfied"))
      "inc-1"
      (both monitored_record)
    ≡ ok (both watched_record, watched_record)
unfolding recovery
watches = refl

resolves :
    record_recovery_assessment "inc-1" 6 window_2
      (event "event-5" "recovery_stabilized")
      watched_record
    ≡ ok resolved_record
unfolding recovery
resolves = refl

until_watched : IsReachable digest (both watched_record)
until_watched = mutated _ "inc-1" until_monitored watches

stored : get (both watched_record) "inc-1" ≡ some watched_record
unfolding program
stored = refl

resolved_when_stable_example : IsStableRun 2 (windows_newest "intervention-1" resolved_record)
resolved_when_stable_example =
    resolved_when_stable digest (both watched_record) "inc-1" 6 window_2
      (event "event-5" "recovery_stabilized") watched_record resolved_record until_watched stored
      resolves refl

resolved_iff_example : (resolved_record.incident.lifecycle ≡ IncidentLifecycle.resolved) ↔ (2 ≤ 2)
resolved_iff_example =
    resolved_iff "inc-1" 6 window_2 (event "event-5" "recovery_stabilized") watched_record
      resolved_record resolves

-- The record with a note after the decision.
abbrev noted_record : InvestigationRecord
noted_record = record approved_record {
  audit_events = numbered "event-1" "approval_recorded" 1 ∷ numbered "note" "note" 2 ∷ [];
}

notes :
    apply_change digest (audit_event (event "note" "note")) "inc-1" approved_record
    ≡ ok noted_record
unfolding program
notes = refl

approves_record :
    record_approval_decision digest 9200000000 "inc-1" 2 Data.approval
      (event "event-1" "approval_recorded")
      reviewed_record
    ≡ ok approved_record
unfolding program
approves_record = refl

approved_stored : get (both approved_record) "inc-1" ≡ some approved_record
unfolding program
approved_stored = refl

noted-Extends : Extends approved_record noted_record
noted-Extends =
    apply_change-Extends digest "inc-1" approved_record noted_record
      (audit_event (event "note" "note"))
      (IsReachable-IsSound digest (both approved_record) "inc-1" approved_record until_approved
        approved_stored)
      notes

apply_change-Extends_example : Extends approved_record noted_record
apply_change-Extends_example =
    apply_change-Extends digest "inc-1" approved_record noted_record
      (audit_event (event "note" "note"))
      (IsReachable-IsSound digest (both approved_record) "inc-1" approved_record until_approved
        approved_stored)
      notes

apply_change-SameConclusions_example : SameConclusions approved_record noted_record
apply_change-SameConclusions_example =
    apply_change-SameConclusions digest "inc-1" approved_record noted_record
      (audit_event (event "note" "note"))
      (IsReachable-IsSound digest (both approved_record) "inc-1" approved_record until_approved
        approved_stored)
      (λ e. cc e) notes

stale_version_refused_example : ¬ (
    apply_change digest
      (intervention 2 claimed (event "event-2" "intervention_claimed"))
      "inc-1"
      noted_record
    ≡ ok noted_record)
stale_version_refused_example =
    stale_version_refused digest "inc-1" reviewed_record approved_record noted_record noted_record
      (approval 9200000000 2 Data.approval (event "event-1" "approval_recorded"))
      (intervention 2 claimed (event "event-2" "intervention_claimed")) 2 refl refl
      (unfold apply_change in approves_record) noted-Extends

decided_once_example : ¬ (
    record_approval_decision digest 9300000000 "inc-1" 3 Data.approval
      (event "event-2" "approval_recorded")
      noted_record
    ≡ ok noted_record)
decided_once_example =
    decided_once digest "inc-1" reviewed_record approved_record noted_record noted_record 9200000000
      9300000000 2 3 Data.approval Data.approval (event "event-1" "approval_recorded")
      (event "event-2" "approval_recorded") approves_record noted-Extends

timeline_resumes_example :
    timeline (both watched_record) "inc-1" 3
    ≡ ok (numbered "event-4" "recovery_window_satisfied" 4 ∷ [])
timeline_resumes_example =
    timeline_resumes digest (both watched_record) "inc-1" watched_record 3 until_watched stored

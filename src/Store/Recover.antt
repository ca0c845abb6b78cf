-- ===== src/Store/Recover.antt =====
-- `record_recovery_assessment`.
use kubecouncil.Base.{
  ℕ, ◌+◌, eqb, leb, ltb, String, Bool, true, false, not, ◌&&◌, ◌||◌, Option, none, some, List, [],
  ◌∷◌, ◌++◌, Result, ok, err, ◌>>=◌, ◌>>◌, value_error, raise_if, ◌==◌, string_eq, find, filter,
  get_last?, if◌then◌else◌, differ,
}
use kubecouncil.Domain.Enums.{
  IncidentLifecycle, InterventionOutcome, InterventionState, lifecycle_eq, intervention_state_eq,
}
use kubecouncil.Domain.Evidence.{seconds}
use kubecouncil.Domain.Profile.{CriticalJourney}
use kubecouncil.Domain.Authority.{Intervention}
use kubecouncil.Domain.Recovery.{RecoveryAssessment}
use kubecouncil.Domain.Lifecycle.{Incident, transition_incident}
use kubecouncil.Domain.Record.{AuditEvent, InvestigationRecord, all_entries_belong_to_the_incident}
use kubecouncil.Store.Access.{with_event, has_event}
use kubecouncil.Store.Decide.{bumped}
use kubecouncil.Store.Intervene.{intervention_for}

-- `intervention is None or intervention.state is not SUCCEEDED`
unfoldable pub lacks_success : Option Intervention → Bool
lacks_success none = true
lacks_success (some v) = not (v.state == InterventionState.succeeded)

unfoldable pub declared_journey : InvestigationRecord → Option CriticalJourney
declared_journey r =
    find
      (λ (j : CriticalJourney).
        j.name == r.application_profile.recovery_criteria.critical_journey_name)
      r.application_profile.critical_journeys

-- The assessments of one Intervention, oldest first.
unfoldable pub assessments_of : String → List RecoveryAssessment → List RecoveryAssessment
assessments_of intervention_id =
    filter (λ (a : RecoveryAssessment). a.intervention_id == intervention_id)

-- `previous[-1] if previous else None`
unfoldable pub last_assessment : InvestigationRecord → String → Option RecoveryAssessment
last_assessment r intervention_id =
    get_last? (assessments_of intervention_id r.recovery_assessments)

-- `previous and window_started_at < previous[-1].window_ended_at`
unfoldable pub overlaps : Option RecoveryAssessment → ℕ → Bool
overlaps none started_at = false
overlaps (some p) started_at = ltb started_at p.window_ended_at

-- `previous and previous[-1].criteria_satisfied and previous[-1].window_ended_at == started_at`
unfoldable pub continues : Option RecoveryAssessment → ℕ → Bool
continues none started_at = false
continues (some p) started_at = p.criteria_satisfied && eqb p.window_ended_at started_at

abbrev pub windows_of : Option RecoveryAssessment → ℕ
windows_of none = 0
windows_of (some p) = p.stable_windows

-- The stabilization progress after one more window.
unfoldable pub expected_stable_windows : Option RecoveryAssessment → Bool → ℕ → ℕ
expected_stable_windows previous satisfied started_at =
    if satisfied then if continues previous started_at then windows_of previous + 1 else 1 else 0

unfoldable pub expected_event_type : Bool → Bool → String
expected_event_type satisfied stabilized =
    if satisfied
    then if stabilized then "recovery_stabilized" else "recovery_window_satisfied"
    else "recovery_window_failed"

unfoldable pub all_checks_pass : RecoveryAssessment → Bool
all_checks_pass a =
    a.kubernetes_converged && a.symptoms_cleared && a.traffic_sufficient && a.availability_satisfied
    && a.latency_satisfied && a.sufficient_evidence

-- `journey is None or assessment.journey_name != journey.name`, then the traffic test.
unfoldable pub journey_fault : Option CriticalJourney → RecoveryAssessment → Result (Unit {0})
journey_fault none a = err (value_error "recovery assessment changed the declared Critical Journey")
journey_fault (some journey) a = do
  raise_if (not (a.journey_name == journey.name))
      (value_error "recovery assessment changed the declared Critical Journey")
  raise_if (differ a.traffic_sufficient (leb journey.minimum_request_count a.request_count))
      (value_error "recovery traffic sufficiency is inconsistent")

-- The tests of `record_recovery_assessment`, in their order.
unfoldable pub check_assessment :
    String → ℕ → RecoveryAssessment → AuditEvent → InvestigationRecord → Result (Unit {0})
check_assessment incident_id expected_version a event r =
    let criteria = r.application_profile.recovery_criteria in
    let previous = last_assessment r a.intervention_id in
    do
      raise_if (not (eqb r.incident.version expected_version))
          (value_error "recovery verification context is stale")
      raise_if (not (r.incident.lifecycle == IncidentLifecycle.monitoring))
          (value_error "recovery verification requires a monitoring Incident")
      raise_if (not (a.incident_id == incident_id) || not (event.incident_id == incident_id))
          (value_error "recovery assessment and audit event must belong to the Incident")
      raise_if (lacks_success (intervention_for r a.intervention_id))
          (value_error "recovery assessment requires a successful Intervention")
      raise_if (not (eqb a.required_stable_windows criteria.required_stable_windows))
          (value_error "recovery assessment changed the required stabilization windows")
      journey_fault (declared_journey r) a
      raise_if (a.criteria_satisfied && not (all_checks_pass a))
          (value_error "recovery criteria contain a failed deterministic check")
      raise_if
          (not (
            eqb a.window_ended_at
              (a.window_started_at + seconds criteria.stabilization_window_seconds)))
          (value_error "recovery assessment used the wrong stabilization window")
      raise_if (overlaps previous a.window_started_at)
          (value_error "recovery assessment windows cannot overlap")
      raise_if
          (not (
            eqb a.stable_windows
              (expected_stable_windows previous a.criteria_satisfied a.window_started_at)))
          (value_error "recovery assessment stabilization progress is invalid")
      raise_if
          (not (
            event.event_type
            == expected_event_type a.criteria_satisfied
                (leb criteria.required_stable_windows a.stable_windows)))
          (value_error "recovery audit event does not match the assessment")
      raise_if (has_event r event) (value_error "audit event already exists and is append-only")

-- A stabilized incident is resolved.
unfoldable pub incident_after_assessment :
    InvestigationRecord → RecoveryAssessment → Result Incident
incident_after_assessment r a =
    let resolved =
      transition_incident r.incident (some IncidentLifecycle.resolved) none
        (some InterventionOutcome.succeeded) in
    if leb r.application_profile.recovery_criteria.required_stable_windows a.stable_windows
    then resolved
    else ok r.incident

unfoldable pub record_recovery_assessment :
    String → ℕ → RecoveryAssessment → AuditEvent → InvestigationRecord → Result InvestigationRecord
record_recovery_assessment incident_id expected_version a event r = do
  check_assessment incident_id expected_version a event r
  updated ← incident_after_assessment r a
  all_entries_belong_to_the_incident (record r {
    incident = bumped r updated;
    recovery_assessments = r.recovery_assessments ++ a ∷ [];
    audit_events = with_event r event;
  })

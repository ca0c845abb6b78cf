-- ===== src/Domain/Lifecycle.antt =====
-- Incidents and the transition tables of their lifecycle and outcomes: `Incident`,
-- `_LIFECYCLE_TRANSITIONS`, `_INVESTIGATION_OUTCOME_TRANSITIONS`,
-- `_INTERVENTION_OUTCOME_TRANSITIONS` and `transition_incident`.
use kubecouncil.Base.{
  ℕ, String, not, ◌&&◌, Option, none, some, List, [], ◌∷◌, Result, ok, ◌>>=◌, ◌>>◌, value_error,
  raise_if, ◌==◌, contains,
}
use kubecouncil.Domain.Enums.{
  IncidentLifecycle, InvestigationOutcome, InterventionOutcome, lifecycle_eq,
  investigation_outcome_eq, intervention_outcome_eq,
}
use kubecouncil.Domain.Evidence.{Instant}
pub mod Sound
pub mod Paths

pub record Incident : Type 0 where
  pub incident_id : String
  pub application_id : String
  pub profile_version : String
  pub opened_at : Instant
  pub lifecycle : IncidentLifecycle
  pub investigation_outcome : InvestigationOutcome
  pub intervention_outcome : InterventionOutcome
  pub version : ℕ
  pub summary : String

unfoldable pub lifecycle_transitions : IncidentLifecycle → List IncidentLifecycle
lifecycle_transitions IncidentLifecycle.open_ =
    IncidentLifecycle.investigating ∷ IncidentLifecycle.closed ∷ []
lifecycle_transitions IncidentLifecycle.investigating =
    IncidentLifecycle.awaiting_approval ∷ IncidentLifecycle.monitoring ∷ IncidentLifecycle.closed
    ∷ []
lifecycle_transitions IncidentLifecycle.awaiting_approval =
    IncidentLifecycle.investigating ∷ IncidentLifecycle.mitigating ∷ IncidentLifecycle.closed ∷ []
lifecycle_transitions IncidentLifecycle.mitigating =
    IncidentLifecycle.monitoring ∷ IncidentLifecycle.closed ∷ []
lifecycle_transitions IncidentLifecycle.monitoring =
    IncidentLifecycle.mitigating ∷ IncidentLifecycle.resolved ∷ IncidentLifecycle.closed ∷ []
lifecycle_transitions IncidentLifecycle.resolved = IncidentLifecycle.closed ∷ []
lifecycle_transitions IncidentLifecycle.closed = []

unfoldable pub investigation_outcome_transitions : InvestigationOutcome → List InvestigationOutcome
investigation_outcome_transitions InvestigationOutcome.not_started =
    InvestigationOutcome.proposal_ready ∷ InvestigationOutcome.needs_more_evidence
    ∷ InvestigationOutcome.no_safe_action ∷ InvestigationOutcome.inconclusive ∷ []
investigation_outcome_transitions InvestigationOutcome.needs_more_evidence =
    InvestigationOutcome.proposal_ready ∷ InvestigationOutcome.no_safe_action
    ∷ InvestigationOutcome.inconclusive ∷ []
investigation_outcome_transitions InvestigationOutcome.proposal_ready = []
investigation_outcome_transitions InvestigationOutcome.no_safe_action = []
investigation_outcome_transitions InvestigationOutcome.inconclusive = []

unfoldable pub intervention_outcome_transitions : InterventionOutcome → List InterventionOutcome
intervention_outcome_transitions InterventionOutcome.not_started =
    InterventionOutcome.monitoring ∷ InterventionOutcome.succeeded ∷ InterventionOutcome.rolled_back
    ∷ InterventionOutcome.failed ∷ InterventionOutcome.safe_halted ∷ []
intervention_outcome_transitions InterventionOutcome.monitoring =
    InterventionOutcome.succeeded ∷ InterventionOutcome.rolled_back ∷ InterventionOutcome.failed
    ∷ InterventionOutcome.safe_halted ∷ []
intervention_outcome_transitions InterventionOutcome.succeeded = []
intervention_outcome_transitions InterventionOutcome.rolled_back = []
intervention_outcome_transitions InterventionOutcome.failed = []
intervention_outcome_transitions InterventionOutcome.safe_halted = []

-- `requested or current`
abbrev pub or_current {ℓ} : {A : Type ℓ} → Option A → A → A
or_current none current = current
or_current (some requested) _ = requested

-- The values that the messages interpolate are left out of them.
unfoldable pub transition_incident :
    Incident
    → Option IncidentLifecycle
    → Option InvestigationOutcome
    → Option InterventionOutcome
    → Result Incident
transition_incident incident lifecycle investigation_outcome intervention_outcome =
    let next_lifecycle = or_current lifecycle incident.lifecycle in
    let next_investigation = or_current investigation_outcome incident.investigation_outcome in
    let next_intervention = or_current intervention_outcome incident.intervention_outcome in
    do
      raise_if
          (not (next_lifecycle == incident.lifecycle)
            && not (contains (lifecycle_transitions incident.lifecycle) next_lifecycle))
          (value_error "invalid incident lifecycle transition")
      raise_if
          (not (next_investigation == incident.investigation_outcome)
            && not (
                contains (investigation_outcome_transitions incident.investigation_outcome)
                  next_investigation))
          (value_error "invalid investigation outcome transition")
      raise_if
          (not (next_intervention == incident.intervention_outcome)
            && not (
                contains (intervention_outcome_transitions incident.intervention_outcome)
                  next_intervention))
          (value_error "invalid intervention outcome transition")
      ok (record incident {
        lifecycle = next_lifecycle;
        investigation_outcome = next_investigation;
        intervention_outcome = next_intervention;
      })

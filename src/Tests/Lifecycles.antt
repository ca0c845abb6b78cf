-- ===== src/Tests/Lifecycles.antt =====
-- Transitions of an incident.
use kubecouncil.Base.{none, some, ok, ◌≡◌, refl, contains, decide}
use kubecouncil.Domain.Enums.{
  IncidentLifecycle, InvestigationOutcome, InterventionOutcome, IncidentLifecycle-discrete,
  InvestigationOutcome-discrete, InterventionOutcome-discrete,
}
use kubecouncil.Domain.Lifecycle.{
  Incident, transition_incident, lifecycle_transitions, investigation_outcome_transitions,
  intervention_outcome_transitions,
}
use kubecouncil.Domain.Lifecycle.Sound.{
  Transition, InvestigationStep, InterventionStep, investigate, transition_incident-Transition,
  transition_incident-eq-ok,
}
use kubecouncil.Domain.Lifecycle.Paths.{
  Journey, Visits, SameIdentity, here, next, closed_stays, intervention_outcome_stays,
  investigation_outcome_stays, identity_stays, resolved-Visits-monitoring,
}
use kubecouncil.Tests.Data.{incident}

abbrev investigating : Incident
investigating = record incident {
  lifecycle = IncidentLifecycle.investigating;
  investigation_outcome = InvestigationOutcome.inconclusive;
}

abbrev monitored : Incident
monitored = record investigating { lifecycle = IncidentLifecycle.monitoring }

abbrev resolved : Incident
resolved = record investigating {
  lifecycle = IncidentLifecycle.resolved;
  intervention_outcome = InterventionOutcome.succeeded;
}

-- The tables and the tests that a run computes.
program : Unit {0}
unfolding transition_incident lifecycle_transitions investigation_outcome_transitions
    intervention_outcome_transitions contains decide IncidentLifecycle-discrete
    InvestigationOutcome-discrete InterventionOutcome-discrete
program = tt

begin :
    transition_incident incident
      (some IncidentLifecycle.investigating)
      (some InvestigationOutcome.inconclusive)
      none
    ≡ ok investigating
unfolding program
begin = refl

watched :
    transition_incident investigating (some IncidentLifecycle.monitoring) none none ≡ ok monitored
unfolding program
watched = refl

settled :
    transition_incident monitored
      (some IncidentLifecycle.resolved)
      none
      (some InterventionOutcome.succeeded)
    ≡ ok resolved
unfolding program
settled = refl

abbrev journey : Journey incident resolved
journey =
    next (some IncidentLifecycle.resolved) none (some InterventionOutcome.succeeded)
      (next (some IncidentLifecycle.monitoring) none none
        (next (some IncidentLifecycle.investigating) (some InvestigationOutcome.inconclusive) none
          here begin)
        watched)
      settled

transition_incident-Transition_example :
    (investigating ≡ investigating) × Transition incident investigating
transition_incident-Transition_example =
    transition_incident-Transition incident (some IncidentLifecycle.investigating)
      (some InvestigationOutcome.inconclusive) none investigating begin

transition_incident-eq-ok_example :
    transition_incident incident (some IncidentLifecycle.investigating) none none
    ≡ ok (record incident { lifecycle = IncidentLifecycle.investigating })
transition_incident-eq-ok_example =
    transition_incident-eq-ok incident (some IncidentLifecycle.investigating) none none (record {
      lifecycle_step = investigate;
      investigation_step = InvestigationStep.stay;
      intervention_step = InterventionStep.stay;
    })

resolved-Visits-monitoring_example : Visits IncidentLifecycle.monitoring resolved journey
resolved-Visits-monitoring_example = resolved-Visits-monitoring journey (λ e. cc) refl

abbrev closed : Incident
closed = record resolved { lifecycle = IncidentLifecycle.closed }

ends : transition_incident resolved (some IncidentLifecycle.closed) none none ≡ ok closed
unfolding program
ends = refl

stays_closed : transition_incident closed none none none ≡ ok closed
unfolding program
stays_closed = refl

abbrev stays : Journey closed closed
stays = next none none none here stays_closed

abbrev ending : Journey resolved closed
ending = next (some IncidentLifecycle.closed) none none here ends

closed_stays_example : closed.lifecycle ≡ IncidentLifecycle.closed
closed_stays_example = closed_stays stays refl

intervention_outcome_stays_example : closed.intervention_outcome ≡ resolved.intervention_outcome
intervention_outcome_stays_example = intervention_outcome_stays ending (λ e. cc e, λ e. cc e)

investigation_outcome_stays_example : closed.investigation_outcome ≡ resolved.investigation_outcome
investigation_outcome_stays_example = investigation_outcome_stays ending (λ e. cc e, λ e. cc e)

identity_stays_example : SameIdentity resolved closed
identity_stays_example = identity_stays ending

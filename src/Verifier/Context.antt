-- ===== src/Verifier/Context.antt =====
-- What `verify_next_window` reads in the record before it observes, and what is outside.
use kubecouncil.Base.{
  ltb, ◌-◌, String, not, Option, none, some, Result, ok, err, ◌>>=◌, ◌>>◌, recovery_error,
  other_error, raise_if, ◌==◌, string_eq, find_last,
}
use kubecouncil.Base.Effects.{Effect}
use kubecouncil.Domain.Enums.{
  IncidentLifecycle, InterventionState, lifecycle_eq, intervention_state_eq,
}
use kubecouncil.Domain.Evidence.{Instant, seconds}
use kubecouncil.Domain.Profile.{
  CriticalJourney, SyntheticProbe, WorkloadReference, workload_reference_eq,
}
use kubecouncil.Domain.Policy.{RemediationProposal}
use kubecouncil.Domain.Authority.{Approval, Intervention}
use kubecouncil.Domain.Recovery.{RecoveryObservation, SyntheticProbeObservation}
use kubecouncil.Domain.Record.{InvestigationRecord}
use kubecouncil.Store.Intervene.{approval_for}
use kubecouncil.Store.Recover.{declared_journey, last_assessment, overlaps}

-- `RecoveryEvidenceProvider`, `SyntheticProbeRunner`, the clock and the UUIDs.
pub record RecoveryProvider (E : Type 0) : Type 0 where
  pub observe :
      WorkloadReference → CriticalJourney → Instant → Instant → Effect E RecoveryObservation
  pub run : SyntheticProbe → Effect E SyntheticProbeObservation
  pub clock : Effect E Instant
  pub uuid4_hex : Effect E String

-- The locals that the record gives.
pub record Context : Type 0 where
  pub intervention : Intervention
  pub proposal : RemediationProposal
  pub approval : Approval
  pub journey : CriticalJourney

unfoldable pub required {ℓ} : {A : Type ℓ} → String → Option A → Result A
required message none = err (recovery_error message)
required message (some a) = ok a

-- The last successful Intervention.
unfoldable pub verified_intervention : InvestigationRecord → Option Intervention
verified_intervention r =
    find_last (λ (v : Intervention). v.state == InterventionState.succeeded) r.interventions

unfoldable pub context_of : InvestigationRecord → Result Context
context_of r = do
  raise_if (not (r.incident.lifecycle == IncidentLifecycle.monitoring))
      (recovery_error "recovery verification requires a monitoring Incident")
  v ← required "recovery verification requires a successful Intervention" (verified_intervention r)
  p ← required "recovery requires its recorded proposal" r.proposal
  a ← required "recovery Intervention has no recorded Approval" (approval_for r v.approval_id)
  j ← required "recovery Critical Journey is not declared" (declared_journey r)
  ok (record { intervention = v; proposal = p; approval = a; journey = j })

-- The start of the window; before `datetime.min` Python raises OverflowError.
unfoldable pub window_start : InvestigationRecord → Context → Instant → Result Instant
window_start r c ended_at =
    let length = seconds r.application_profile.recovery_criteria.stabilization_window_seconds in
    do
      raise_if (ltb ended_at length) (other_error "OverflowError" "date value out of range")
      raise_if (overlaps (last_assessment r c.intervention.intervention_id) (ended_at - length))
          (recovery_error "the next recovery window overlaps prior evidence")
      ok (ended_at - length)

unfoldable pub require_scope : Context → RecoveryObservation → Result (Unit {0})
require_scope c o = do
  raise_if (not (o.deployment.target == c.intervention.target))
      (recovery_error "recovery evidence escaped the approved workload")
  raise_if (not (o.journey.journey_name == c.journey.name))
      (recovery_error "recovery evidence escaped the declared journey")

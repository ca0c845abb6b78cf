-- ===== src/Domain/Lifecycle/Paths.antt =====
-- What holds of an incident over any number of transitions.
use kubecouncil.Base.{Option, ok, ◌≡◌, refl, sym, subst, ◌∙◌, ◌≢◌, ◌⊎◌, inl, inr}
use kubecouncil.Domain.Enums.{IncidentLifecycle, InvestigationOutcome, InterventionOutcome}
use kubecouncil.Domain.Lifecycle.{Incident, transition_incident}
use kubecouncil.Domain.Lifecycle.Sound.{
  LifecycleStep, InvestigationStep, InterventionStep, transition_incident-Transition, investigate,
  pass_policy, watch, reconsider, mitigate, converge, mitigate_again, resolve, close, conclude,
  settle,
}

-- Calls of `transition_incident`, one after the other.
pub data Journey (i : Incident) : Incident → Type 0 where
  here : Journey i i
  next :
      {j k : Incident}
      → (l : Option IncidentLifecycle) → (o : Option InvestigationOutcome)
      → (v : Option InterventionOutcome) → Journey i j
      → transition_incident j l o v ≡ ok k
      → Journey i k

-- Some incident on the way is in this lifecycle state; the last one counts too.
pub data Visits (s : IncidentLifecycle) {i : Incident} : (j : Incident) → Journey i j → Type 0 where
  at_end : {j : Incident} → (r : Journey i j) → j.lifecycle ≡ s → Visits s j r
  before :
      {j k : Incident}
      → (l : Option IncidentLifecycle) → (o : Option InvestigationOutcome)
      → (v : Option InterventionOutcome) → (r : Journey i j)
      → (e : transition_incident j l o v ≡ ok k) → Visits s j r
      → Visits s k (next l o v r e)

abbrev pub IsSettled : InterventionOutcome → Type 0
IsSettled v = (v ≢ InterventionOutcome.not_started) × (v ≢ InterventionOutcome.monitoring)

abbrev pub IsConcluded : InvestigationOutcome → Type 0
IsConcluded o =
    (o ≢ InvestigationOutcome.not_started) × (o ≢ InvestigationOutcome.needs_more_evidence)

settled_step : {v w : InterventionOutcome} → InterventionStep v w → IsSettled v → w ≡ v
settled_step InterventionStep.stay h = refl
settled_step InterventionStep.start h = absurd (h.0 refl)
settled_step (settle _) h = absurd (h.1 refl)

concluded_step : {v w : InvestigationOutcome} → InvestigationStep v w → IsConcluded v → w ≡ v
concluded_step InvestigationStep.stay h = refl
concluded_step InvestigationStep.start h = absurd (h.0 refl)
concluded_step (conclude _) h = absurd (h.1 refl)

closed_step :
    {s t : IncidentLifecycle}
    → LifecycleStep s t
    → s ≡ IncidentLifecycle.closed
    → t ≡ IncidentLifecycle.closed
closed_step LifecycleStep.stay h = h
closed_step close h = refl
closed_step investigate h = cc
closed_step pass_policy h = cc
closed_step watch h = cc
closed_step reconsider h = cc
closed_step mitigate h = cc
closed_step converge h = cc
closed_step mitigate_again h = cc
closed_step resolve h = cc

resolve_step :
    {s t : IncidentLifecycle}
    → LifecycleStep s t
    → t ≡ IncidentLifecycle.resolved
    → (s ≡ IncidentLifecycle.resolved) ⊎ (s ≡ IncidentLifecycle.monitoring)
resolve_step LifecycleStep.stay h = inl h
resolve_step resolve h = inr refl
resolve_step close h = cc
resolve_step investigate h = cc
resolve_step pass_policy h = cc
resolve_step watch h = cc
resolve_step reconsider h = cc
resolve_step mitigate h = cc
resolve_step converge h = cc
resolve_step mitigate_again h = cc

-- An incident that was not resolved at first is resolved only after it was monitored.
pub resolved-Visits-monitoring :
    {i j : Incident} (r : Journey i j)
    → i.lifecycle ≢ IncidentLifecycle.resolved
    → j.lifecycle ≡ IncidentLifecycle.resolved
    → Visits IncidentLifecycle.monitoring j r
resolved-Visits-monitoring here n h = absurd (n h)
resolved-Visits-monitoring (next {j} {k} l o v r e) n h =
    let (_, t) = transition_incident-Transition j l o v k e in
    elim (resolve_step t.lifecycle_step h) [
      | inl p ↦ before l o v r e (resolved-Visits-monitoring r n p)
      | inr p ↦ before l o v r e (at_end r p)
    ]

-- What no transition changes.
pub record SameIdentity (i j : Incident) : Type 0 where
  pub incident_id : j.incident_id ≡ i.incident_id
  pub application_id : j.application_id ≡ i.application_id
  pub profile_version : j.profile_version ≡ i.profile_version
  pub version : j.version ≡ i.version

-- What every number of transitions keeps.
Journey_final :
    {i j : Incident} (r : Journey i j)
    → (i.lifecycle ≡ IncidentLifecycle.closed → j.lifecycle ≡ IncidentLifecycle.closed)
      × (IsSettled i.intervention_outcome → j.intervention_outcome ≡ i.intervention_outcome)
      × (IsConcluded i.investigation_outcome → j.investigation_outcome ≡ i.investigation_outcome)
      × SameIdentity i j
Journey_final here = (
  λ h. h,
  λ h. refl,
  λ h. refl,
  record { incident_id = refl; application_id = refl; profile_version = refl; version = refl },
)
Journey_final (next {j} {k} l o v r e) =
    let (same, t) = transition_incident-Transition j l o v k e in
    let (c, s, g, q) = Journey_final r in
    (
      λ h. closed_step t.lifecycle_step (c h),
      λ h. settled_step t.intervention_step (subst IsSettled (sym (s h)) h) ∙ s h,
      λ h. concluded_step t.investigation_step (subst IsConcluded (sym (g h)) h) ∙ g h,
      rw same (record {
        incident_id = q.incident_id;
        application_id = q.application_id;
        profile_version = q.profile_version;
        version = q.version;
      }),
    )

-- However many transitions are made, a closed incident stays closed.
pub closed_stays :
    {i j : Incident} (r : Journey i j)
    → i.lifecycle ≡ IncidentLifecycle.closed
    → j.lifecycle ≡ IncidentLifecycle.closed
closed_stays r = (Journey_final r).0

-- However many transitions are made, an intervention outcome other than `not_started` and
-- `monitoring` does not change.
pub intervention_outcome_stays :
    {i j : Incident} (r : Journey i j)
    → IsSettled i.intervention_outcome
    → j.intervention_outcome ≡ i.intervention_outcome
intervention_outcome_stays r = (Journey_final r).1

-- However many transitions are made, an investigation outcome other than `not_started` and
-- `needs_more_evidence` does not change.
pub investigation_outcome_stays :
    {i j : Incident} (r : Journey i j)
    → IsConcluded i.investigation_outcome
    → j.investigation_outcome ≡ i.investigation_outcome
investigation_outcome_stays r = (Journey_final r).2

-- However many transitions are made, the Incident's id, its application, its profile version and
-- its version do not change.
pub identity_stays : {i j : Incident} → Journey i j → SameIdentity i j
identity_stays r = (Journey_final r).3

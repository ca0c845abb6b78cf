-- ===== src/Verifier/Accepted.antt =====
-- The assessments that `verify_next_window` builds, and the tests of the store.
use kubecouncil.Base.{
  ◌+◌, String, Bool, true, false, Option, none, some, List, [], ◌∷◌, map, ok, ◌≡◌, arith,
  Option-cases, inl, inr, ◌==◌, ==_eq, ==_refl, eq_==, string_eq, find, find_last, contains, unique,
}
use kubecouncil.Domain.Enums.{
  IncidentLifecycle, InterventionState, lifecycle_eq, intervention_state_eq,
}
use kubecouncil.Domain.Evidence.{Instant, seconds}
use kubecouncil.Domain.Authority.{Intervention}
use kubecouncil.Domain.Recovery.{RecoveryObservation}
use kubecouncil.Domain.Record.{InvestigationRecord}
use kubecouncil.Store.Access.{has_event}
use kubecouncil.Store.Intervene.{intervention_for}
use kubecouncil.Store.Recover.{
  lacks_success, declared_journey, last_assessment, overlaps, all_checks_pass, journey_fault,
  check_assessment,
}
use kubecouncil.Verifier.Context.{
  Context, required, verified_intervention, context_of, window_start,
}
use kubecouncil.Verifier.Assess.{
  JourneyEvidence, criteria_satisfied, traffic_sufficient, assessment_of,
}
use kubecouncil.Verifier.Verify.{event_of}

module _ {A : Type 0} (id_of : A → String) (p : A → Bool) where
  find_last-contains :
      (xs : List A) (v : A) → find_last p xs ≡ some v → contains (map id_of xs) (id_of v) ≡ true
  unfolding find_last contains
  find_last-contains [] v h = cc
  find_last-contains (x ∷ xs) v h = elim (Option-cases (find_last p xs)) [
    | inl missing ↦ ground (arith, ==_refl (id_of v))
    | inr (y, found) ↦ ground (arith, find_last-contains xs y found)
  ]

  find_last-find :
      (xs : List A) (v : A)
      → unique (map id_of xs) ≡ true
      → find_last p xs ≡ some v
      → find (λ x. id_of x == id_of v) xs ≡ some v
  unfolding find_last find unique
  find_last-find [] v u h = cc
  find_last-find (x ∷ xs) v u h = elim (Option-cases (find_last p xs)) [
    | inl missing ↦ ground (arith, ==_refl (id_of v))
    | inr (y, found) ↦ ground (
      arith,
      find_last-contains xs y found,
      find_last-find xs y (ground arith) found,
      ==_eq (id_of x) (id_of v),
    )
  ]

  find_last_holds : (xs : List A) (v : A) → find_last p xs ≡ some v → p v ≡ true
  unfolding find_last
  find_last_holds [] v h = cc
  find_last_holds (x ∷ xs) v h = elim (Option-cases (find_last p xs)) [
    | inl missing ↦ ground arith
    | inr (y, found) ↦ ground (arith, find_last_holds xs y found)
  ]

-- What `context_of` found.
pub record IsContext (r : InvestigationRecord) (c : Context) : Type 0 where
  pub monitoring : r.incident.lifecycle ≡ IncidentLifecycle.monitoring
  pub intervention : verified_intervention r ≡ some c.intervention
  pub journey : declared_journey r ≡ some c.journey

required-returns :
    {A : Type 0} (message : String) (o : Option A) (a : A) → required message o ≡ ok a → o ≡ some a
unfolding required
required-returns message none a h = cc
required-returns message (some b) a h = cc

pub context_of-IsContext :
    (r : InvestigationRecord) (c : Context) → context_of r ≡ ok c → IsContext r c
unfolding context_of required
context_of-IsContext r c h = record {
  monitoring = ==_eq r.incident.lifecycle IncidentLifecycle.monitoring (ground arith);
  intervention = ground arith;
  journey = ground arith;
}

pub intervention_succeeded :
    (r : InvestigationRecord) (c : Context)
    → IsContext r c
    → unique (map (λ (v : Intervention). v.intervention_id) r.interventions) ≡ true
    → lacks_success (intervention_for r c.intervention.intervention_id) ≡ false
unfolding verified_intervention intervention_for lacks_success
intervention_succeeded r c h u =
    let found =
      find_last-find (λ (v : Intervention). v.intervention_id)
        (λ (v : Intervention). v.state == InterventionState.succeeded) r.interventions
        c.intervention u h.intervention in
    ground (
      arith,
      found,
      find_last_holds (λ (v : Intervention). v.intervention_id)
          (λ (v : Intervention). v.state == InterventionState.succeeded) r.interventions
          c.intervention h.intervention,
    )

window_start-returns :
    (r : InvestigationRecord) (c : Context) (started_at ended_at : Instant)
    → window_start r c ended_at ≡ ok started_at
    → (ended_at
        ≡ started_at + seconds r.application_profile.recovery_criteria.stabilization_window_seconds)
      × (overlaps (last_assessment r c.intervention.intervention_id) started_at ≡ false)
unfolding window_start
window_start-returns r c started_at ended_at h = (ground arith, ground arith)

-- The assessment that the verifier builds of a window, and its event, pass every test that
-- `record_recovery_assessment` makes before the Incident's transition, on the record that the
-- window was read from, when that record's Interventions have different ids and the event's id is
-- new.
pub assessment_of-accepted :
    (incident_id : String) (r : InvestigationRecord) (c : Context) (started_at ended_at : Instant)
    (o : RecoveryObservation) (e : JourneyEvidence) (token : String)
    → context_of r ≡ ok c
    → window_start r c ended_at ≡ ok started_at
    → unique (map (λ (v : Intervention). v.intervention_id) r.interventions) ≡ true
    → has_event r
        (event_of incident_id c token (assessment_of incident_id r c started_at ended_at o e))
      ≡ false
    → check_assessment incident_id r.incident.version
        (assessment_of incident_id r c started_at ended_at o e)
        (event_of incident_id c token (assessment_of incident_id r c started_at ended_at o e))
        r
      ≡ ok tt
unfolding check_assessment assessment_of event_of all_checks_pass journey_fault traffic_sufficient
    criteria_satisfied
assessment_of-accepted incident_id r c started_at ended_at o e token hc hw hu he =
    let is_context = context_of-IsContext r c hc in
    let (ended, apart) = window_start-returns r c started_at ended_at hw in
    ground (
      arith,
      intervention_succeeded r c is_context hu,
      is_context.journey,
      ended,
      apart,
      he,
      eq_== r.incident.lifecycle IncidentLifecycle.monitoring is_context.monitoring,
      ==_refl incident_id,
      ==_refl c.journey.name,
      ==_refl
          (event_of incident_id c token
            (assessment_of incident_id r c started_at ended_at o e)).event_type,
    )

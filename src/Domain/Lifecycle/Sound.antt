-- ===== src/Domain/Lifecycle/Sound.antt =====
-- `transition_incident` against the transition diagrams, drawn as relations.
use kubecouncil.Base.{
  Bool, false, not, ◌&&◌, Option, ok, ◌≡◌, refl, arith, contains, decide, ==_refl, ◌==◌,
}
use kubecouncil.Domain.Enums.{
  IncidentLifecycle, InvestigationOutcome, InterventionOutcome, IncidentLifecycle-discrete,
  investigation_outcome_eq, intervention_outcome_eq, InvestigationOutcome-discrete,
  InterventionOutcome-discrete, lifecycle_eq,
}
use kubecouncil.Domain.Lifecycle.{
  Incident, or_current, transition_incident, lifecycle_transitions,
  investigation_outcome_transitions, intervention_outcome_transitions,
}

-- The steps of the incident lifecycle, staying where it is included.
pub data LifecycleStep : IncidentLifecycle → IncidentLifecycle → Type 0 where
  stay : {s : IncidentLifecycle} → LifecycleStep s s
  investigate : LifecycleStep IncidentLifecycle.open_ IncidentLifecycle.investigating
  pass_policy : LifecycleStep IncidentLifecycle.investigating IncidentLifecycle.awaiting_approval
  watch : LifecycleStep IncidentLifecycle.investigating IncidentLifecycle.monitoring
  reconsider : LifecycleStep IncidentLifecycle.awaiting_approval IncidentLifecycle.investigating
  mitigate : LifecycleStep IncidentLifecycle.awaiting_approval IncidentLifecycle.mitigating
  converge : LifecycleStep IncidentLifecycle.mitigating IncidentLifecycle.monitoring
  mitigate_again : LifecycleStep IncidentLifecycle.monitoring IncidentLifecycle.mitigating
  resolve : LifecycleStep IncidentLifecycle.monitoring IncidentLifecycle.resolved
  close : {s : IncidentLifecycle} → LifecycleStep s IncidentLifecycle.closed

-- An investigation ends once, after at most one request for more evidence.
pub data InvestigationStep : InvestigationOutcome → InvestigationOutcome → Type 0 where
  stay : {s : InvestigationOutcome} → InvestigationStep s s
  start : {s : InvestigationOutcome} → InvestigationStep InvestigationOutcome.not_started s
  conclude :
      {s : InvestigationOutcome}
      → (s ≡ InvestigationOutcome.not_started → ⊥)
      → InvestigationStep InvestigationOutcome.needs_more_evidence s

pub data InterventionStep : InterventionOutcome → InterventionOutcome → Type 0 where
  stay : {s : InterventionOutcome} → InterventionStep s s
  start : {s : InterventionOutcome} → InterventionStep InterventionOutcome.not_started s
  settle :
      {s : InterventionOutcome}
      → (s ≡ InterventionOutcome.not_started → ⊥)
      → InterventionStep InterventionOutcome.monitoring s

abbrev lifecycle_blocked : IncidentLifecycle → IncidentLifecycle → Bool
lifecycle_blocked s t = not (t == s) && not (contains (lifecycle_transitions s) t)

abbrev investigation_blocked : InvestigationOutcome → InvestigationOutcome → Bool
investigation_blocked s t = not (t == s) && not (contains (investigation_outcome_transitions s) t)

abbrev intervention_blocked : InterventionOutcome → InterventionOutcome → Bool
intervention_blocked s t = not (t == s) && not (contains (intervention_outcome_transitions s) t)

ruleset lifecycle_steps = (
  LifecycleStep.stay, investigate, pass_policy, watch, reconsider, mitigate, converge,
  mitigate_again, resolve, close,
)

lifecycle_sound : (s t : IncidentLifecycle) → lifecycle_blocked s t ≡ false → LifecycleStep s t
unfolding lifecycle_transitions contains IncidentLifecycle-discrete decide
lifecycle_sound IncidentLifecycle.open_ IncidentLifecycle.open_ h = LifecycleStep.stay
lifecycle_sound IncidentLifecycle.investigating IncidentLifecycle.open_ h = cc
lifecycle_sound IncidentLifecycle.awaiting_approval IncidentLifecycle.open_ h = cc
lifecycle_sound IncidentLifecycle.mitigating IncidentLifecycle.open_ h = cc
lifecycle_sound IncidentLifecycle.monitoring IncidentLifecycle.open_ h = cc
lifecycle_sound IncidentLifecycle.resolved IncidentLifecycle.open_ h = cc
lifecycle_sound IncidentLifecycle.closed IncidentLifecycle.open_ h = cc
lifecycle_sound _ _ h = first_of (cc, search lifecycle_steps)

closing_free : (s : IncidentLifecycle) → lifecycle_blocked s IncidentLifecycle.closed ≡ false
unfolding lifecycle_transitions contains IncidentLifecycle-discrete decide
closing_free IncidentLifecycle.open_ = refl
closing_free _ = refl

lifecycle_complete : {s t : IncidentLifecycle} → LifecycleStep s t → lifecycle_blocked s t ≡ false
unfolding lifecycle_transitions contains IncidentLifecycle-discrete decide
lifecycle_complete (LifecycleStep.stay {s}) = rw (==_refl s)
lifecycle_complete (close {s}) = closing_free s
lifecycle_complete investigate = refl
lifecycle_complete _ = refl

investigation_sound :
    (s t : InvestigationOutcome) → investigation_blocked s t ≡ false → InvestigationStep s t
unfolding investigation_outcome_transitions contains InvestigationOutcome-discrete decide
investigation_sound InvestigationOutcome.not_started t h = InvestigationStep.start
investigation_sound InvestigationOutcome.needs_more_evidence InvestigationOutcome.not_started h = cc
investigation_sound InvestigationOutcome.needs_more_evidence t h = conclude (λ e. cc)
investigation_sound InvestigationOutcome.proposal_ready InvestigationOutcome.not_started h = cc
investigation_sound InvestigationOutcome.no_safe_action InvestigationOutcome.not_started h = cc
investigation_sound InvestigationOutcome.inconclusive InvestigationOutcome.not_started h = cc
investigation_sound _ _ h = first_of (cc, search (InvestigationStep.stay))

investigation_complete :
    {s t : InvestigationOutcome} → InvestigationStep s t → investigation_blocked s t ≡ false
unfolding investigation_outcome_transitions contains InvestigationOutcome-discrete decide
investigation_complete (InvestigationStep.stay {s}) = rw (==_refl s)
investigation_complete (InvestigationStep.start {s}) = go s
  where
    go :
        (s : InvestigationOutcome)
        → investigation_blocked InvestigationOutcome.not_started s ≡ false
    go InvestigationOutcome.not_started = refl
    go _ = refl
investigation_complete (conclude {s} n) = go s n
  where
    go :
        (s : InvestigationOutcome)
        → (s ≡ InvestigationOutcome.not_started → ⊥)
        → investigation_blocked InvestigationOutcome.needs_more_evidence s ≡ false
    go InvestigationOutcome.not_started n = absurd (n refl)
    go _ n = refl

intervention_sound :
    (s t : InterventionOutcome) → intervention_blocked s t ≡ false → InterventionStep s t
unfolding intervention_outcome_transitions contains InterventionOutcome-discrete decide
intervention_sound InterventionOutcome.not_started t h = InterventionStep.start
intervention_sound InterventionOutcome.monitoring InterventionOutcome.not_started h = cc
intervention_sound InterventionOutcome.monitoring t h = settle (λ e. cc)
intervention_sound InterventionOutcome.succeeded InterventionOutcome.not_started h = cc
intervention_sound InterventionOutcome.rolled_back InterventionOutcome.not_started h = cc
intervention_sound InterventionOutcome.failed InterventionOutcome.not_started h = cc
intervention_sound InterventionOutcome.safe_halted InterventionOutcome.not_started h = cc
intervention_sound _ _ h = first_of (cc, search (InterventionStep.stay))

intervention_complete :
    {s t : InterventionOutcome} → InterventionStep s t → intervention_blocked s t ≡ false
unfolding intervention_outcome_transitions contains InterventionOutcome-discrete decide
intervention_complete (InterventionStep.stay {s}) = rw (==_refl s)
intervention_complete (InterventionStep.start {s}) = go s
  where
    go : (s : InterventionOutcome) → intervention_blocked InterventionOutcome.not_started s ≡ false
    go InterventionOutcome.not_started = refl
    go _ = refl
intervention_complete (settle {s} n) = go s n
  where
    go :
        (s : InterventionOutcome)
        → (s ≡ InterventionOutcome.not_started → ⊥)
        → intervention_blocked InterventionOutcome.monitoring s ≡ false
    go InterventionOutcome.not_started n = absurd (n refl)
    go _ n = refl

-- The steps that a call of `transition_incident` makes.
pub record Transition (i j : Incident) : Type 0 where
  pub lifecycle_step : LifecycleStep i.lifecycle j.lifecycle
  pub investigation_step : InvestigationStep i.investigation_outcome j.investigation_outcome
  pub intervention_step : InterventionStep i.intervention_outcome j.intervention_outcome

module _ (i : Incident) (l : Option IncidentLifecycle) (o : Option InvestigationOutcome)
    (v : Option InterventionOutcome) where
  -- The incident with the requested values put in.
  abbrev pub requested : Incident
  requested = record i {
    lifecycle = or_current l i.lifecycle;
    investigation_outcome = or_current o i.investigation_outcome;
    intervention_outcome = or_current v i.intervention_outcome;
  }

  unblocked :
      (j : Incident)
      → transition_incident i l o v ≡ ok j
      → (lifecycle_blocked i.lifecycle (or_current l i.lifecycle) ≡ false)
        × (investigation_blocked i.investigation_outcome (or_current o i.investigation_outcome)
            ≡ false)
        × (intervention_blocked i.intervention_outcome (or_current v i.intervention_outcome)
            ≡ false)
        × (j ≡ requested)
  unfolding transition_incident
  unblocked j h = ground arith

  -- A transition that returns made one step, or none, of each of the three diagrams, and gave the
  -- incident with the requested states and nothing else changed.
  pub transition_incident-Transition :
      (j : Incident) → transition_incident i l o v ≡ ok j → (j ≡ requested) × Transition i j
  transition_incident-Transition j h =
      let (a, b, c, e) = unblocked j h in
      (
        e,
        rw e (record {
          lifecycle_step = lifecycle_sound _ _ a;
          investigation_step = investigation_sound _ _ b;
          intervention_step = intervention_sound _ _ c;
        }),
      )

  -- A transition whose requested states are a step, or none, of each of the three diagrams returns
  -- the incident with those states.
  pub transition_incident-eq-ok :
      Transition i requested → transition_incident i l o v ≡ ok requested
  unfolding transition_incident
  transition_incident-eq-ok t = ground (
    arith,
    lifecycle_complete t.lifecycle_step,
    investigation_complete t.investigation_step,
    intervention_complete t.intervention_step,
  )

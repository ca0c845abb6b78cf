-- ===== src/Store/Stable.antt =====
-- The stabilization counts of `record_recovery_assessment`, against runs of satisfied windows,
-- each beginning where the one before it ended.
use kubecouncil.Base.{
  ℕ, ◌↔◌, zero, suc, ◌≤◌, String, true, Option, none, some, List, [], ◌∷◌, ◌++◌, ok, ◌≡◌, sym,
  subst, refl, arith, inl, inr, Bool-cases, if◌then◌else◌, filter, get_last?, ◌==◌, string_eq,
  ==_eq, ==_refl,
}
use kubecouncil.Domain.Recovery.{RecoveryAssessment}
use kubecouncil.Domain.Enums.{IncidentLifecycle, InterventionOutcome, lifecycle_eq}
use kubecouncil.Domain.Lifecycle.{Incident}
use kubecouncil.Domain.Lifecycle.Sound.{transition_incident-Transition}
use kubecouncil.Domain.Record.{AuditEvent, InvestigationRecord}
use kubecouncil.Store.Recover.{
  assessments_of, last_assessment, continues, expected_stable_windows, check_assessment,
  incident_after_assessment, record_recovery_assessment,
}
use kubecouncil.Store.Returns

-- The assessments of one Intervention, newest first.
unfoldable pub newest :
    String → List RecoveryAssessment → List RecoveryAssessment → List RecoveryAssessment
newest v [] acc = acc
newest v (a ∷ ws) acc = newest v ws (if a.intervention_id == v then a ∷ acc else acc)

-- The window begins where the newest of the others ended.
abbrev pub Follows : RecoveryAssessment → List RecoveryAssessment → Type 0
Follows a [] = ⊥
Follows a (p ∷ _) = p.window_ended_at ≡ a.window_started_at

-- The newest n windows are satisfied and without gaps.
abbrev pub IsStableRun : ℕ → List RecoveryAssessment → Type 0
IsStableRun zero ws = Unit {0}
IsStableRun (suc n) [] = ⊥
IsStableRun (suc zero) (a ∷ ws) = a.criteria_satisfied ≡ true
IsStableRun (suc (suc n)) (a ∷ ws) =
    (a.criteria_satisfied ≡ true) × Follows a ws × IsStableRun (suc n) ws

-- Every assessment's count is the length of such a run.
abbrev pub IsHonest : List RecoveryAssessment → Type 0
IsHonest [] = Unit {0}
IsHonest (a ∷ ws) = IsStableRun a.stable_windows (a ∷ ws) × IsHonest ws

abbrev pub head? : List RecoveryAssessment → Option RecoveryAssessment
head? [] = none
head? (a ∷ _) = some a

newest-snoc :
    (v : String) (ws acc : List RecoveryAssessment) (a : RecoveryAssessment)
    → newest v (ws ++ a ∷ []) acc
      ≡ (if a.intervention_id == v then a ∷ newest v ws acc else newest v ws acc)
unfolding newest
newest-snoc v [] acc a = ground arith
newest-snoc v (x ∷ ws) acc a = newest-snoc v ws (if x.intervention_id == v then x ∷ acc else acc) a

-- `previous[-1]` is the head of the newest-first list.
or_else : Option RecoveryAssessment → Option RecoveryAssessment → Option RecoveryAssessment
or_else none o = o
or_else (some a) o = some a

last_cons :
    (a : RecoveryAssessment) (ws : List RecoveryAssessment)
    → get_last? (a ∷ ws) ≡ or_else (get_last? ws) (some a)
unfolding get_last? or_else
last_cons a [] = refl
last_cons a (b ∷ []) = refl
last_cons a (b ∷ c ∷ ws) = ground (arith, last_cons b (c ∷ ws))

head-newest :
    (v : String) (ws acc : List RecoveryAssessment)
    → head? (newest v ws acc) ≡ or_else (get_last? (assessments_of v ws)) (head? acc)
unfolding newest assessments_of filter or_else get_last?
head-newest v [] acc = refl
head-newest v (a ∷ ws) acc = elim (Bool-cases (a.intervention_id == v)) [
  | inl mine ↦ ground (arith, head-newest v ws (a ∷ acc), last_cons a (assessments_of v ws))
  | inr other ↦ ground (arith, head-newest v ws acc)
]

shorter_run : (m n : ℕ) (ws : List RecoveryAssessment) → n ≤ m → IsStableRun m ws → IsStableRun n ws
shorter_run m zero ws le run = tt
shorter_run zero (suc n) ws le run = absurd (omega arith)
shorter_run (suc m) (suc n) [] le run = run
shorter_run (suc zero) (suc zero) (a ∷ ws) le run = run
shorter_run (suc zero) (suc (suc n)) (a ∷ ws) le run = absurd (omega arith)
shorter_run (suc (suc m)) (suc zero) (a ∷ ws) le run = run.0
shorter_run (suc (suc m)) (suc (suc n)) (a ∷ ws) le run =
    (run.0, run.1, shorter_run (suc m) (suc n) ws (omega arith) run.2)

extend_run :
    (n : ℕ) (a p : RecoveryAssessment) (ws : List RecoveryAssessment)
    → IsStableRun n (p ∷ ws)
    → a.criteria_satisfied ≡ true
    → p.window_ended_at ≡ a.window_started_at
    → IsStableRun (suc n) (a ∷ p ∷ ws)
extend_run zero a p ws run s f = s
extend_run (suc n) a p ws run s f = (s, f, run)

continued_run :
    (a : RecoveryAssessment) (ws : List RecoveryAssessment)
    → IsHonest ws
    → a.stable_windows ≡ expected_stable_windows (head? ws) a.criteria_satisfied a.window_started_at
    → a.criteria_satisfied ≡ true
    → continues (head? ws) a.window_started_at ≡ true
    → IsStableRun a.stable_windows (a ∷ ws)
unfolding expected_stable_windows continues
continued_run a [] h e good on = absurd (ground arith)
continued_run a (p ∷ ws) h e good on =
    let k : a.stable_windows ≡ suc p.stable_windows = ground arith in
    subst (λ n. IsStableRun n (a ∷ p ∷ ws)) (sym k)
      (extend_run p.stable_windows a p ws h.0 good (ground arith))

-- One more window, counted as `record_recovery_assessment` wants it.
run_cons :
    (a : RecoveryAssessment) (ws : List RecoveryAssessment)
    → IsHonest ws
    → a.stable_windows ≡ expected_stable_windows (head? ws) a.criteria_satisfied a.window_started_at
    → IsStableRun a.stable_windows (a ∷ ws)
unfolding expected_stable_windows
run_cons a ws h e = elim (Bool-cases a.criteria_satisfied) [
  | inr failed ↦
      let k : a.stable_windows ≡ 0 = ground arith in subst (λ n. IsStableRun n (a ∷ ws)) (sym k) tt
  | inl good ↦ elim (Bool-cases (continues (head? ws) a.window_started_at)) [
    | inr fresh ↦
        let k : a.stable_windows ≡ 1 = ground arith in
        subst (λ n. IsStableRun n (a ∷ ws)) (sym k) good
    | inl on ↦ continued_run a ws h e good on
  ]
]

-- The count that the tests of `record_recovery_assessment` compared with.
checked_windows :
    (id : String) (n : ℕ) (a : RecoveryAssessment) (e : AuditEvent) (r : InvestigationRecord)
    → check_assessment id n a e r ≡ ok tt
    → (a.stable_windows
        ≡ expected_stable_windows
            (last_assessment r a.intervention_id)
            a.criteria_satisfied
            a.window_started_at)
      × (r.incident.lifecycle ≡ IncidentLifecycle.monitoring)
unfolding check_assessment
checked_windows id n a e r h =
    ground (arith, ==_eq r.incident.lifecycle IncidentLifecycle.monitoring)

-- The assessments of an Intervention, newest first, in a record.
abbrev pub windows_newest : String → InvestigationRecord → List RecoveryAssessment
windows_newest v r = newest v r.recovery_assessments []

last_is_head :
    (v : String) (r : InvestigationRecord) → last_assessment r v ≡ head? (windows_newest v r)
unfolding last_assessment or_else
last_is_head v r = ground (arith, head-newest v r.recovery_assessments [])

resolved_iff_enough :
    (r : InvestigationRecord) (a : RecoveryAssessment) (j : Incident)
    → incident_after_assessment r a ≡ ok j
    → r.incident.lifecycle ≡ IncidentLifecycle.monitoring
    → (j.lifecycle ≡ IncidentLifecycle.resolved)
      ↔ (r.application_profile.recovery_criteria.required_stable_windows ≤ a.stable_windows)
unfolding incident_after_assessment
resolved_iff_enough r a j h m =
    let moved =
      transition_incident-Transition r.incident (some IncidentLifecycle.resolved) none
        (some InterventionOutcome.succeeded) j in
    (λ done. ground arith, λ enough. ground (arith, moved))

module _ (id : String) (n : ℕ) (a : RecoveryAssessment) (e : AuditEvent)
    (r r' : InvestigationRecord) where
  assessed_run :
      check_assessment id n a e r ≡ ok tt
      → IsHonest (windows_newest a.intervention_id r)
      → IsStableRun a.stable_windows (a ∷ windows_newest a.intervention_id r)
  assessed_run h honest =
      run_cons a (windows_newest a.intervention_id r) honest
        (rw (← last_is_head a.intervention_id r) (checked_windows id n a e r h).0)

  -- A recorded assessment keeps the counts of every Intervention honest.
  pub record_recovery_assessment-IsHonest :
      (v : String)
      → record_recovery_assessment id n a e r ≡ ok r'
      → IsHonest (windows_newest v r)
      → IsHonest (windows_newest v r')
  record_recovery_assessment-IsHonest v h honest =
      let facts = Returns.record_recovery_assessment-returns id r r' n a e h in
      rw facts.4 (
        rw (newest-snoc v r.recovery_assessments [] a) (elim (Bool-cases (a.intervention_id == v)) [
          | inl mine ↦ rw mine (
            subst (λ k. IsStableRun a.stable_windows (a ∷ windows_newest k r))
                (==_eq a.intervention_id v mine)
                (assessed_run facts.0 (
                  subst (λ k. IsHonest (windows_newest k r)) (sym (==_eq a.intervention_id v mine))
                    honest)),
            honest,
          )
          | inr other ↦ rw other honest
        ]))

  -- A recorded assessment resolves the incident exactly when it counts the required windows.
  pub resolved_iff :
      record_recovery_assessment id n a e r ≡ ok r'
      → (r'.incident.lifecycle ≡ IncidentLifecycle.resolved)
        ↔ (r.application_profile.recovery_criteria.required_stable_windows ≤ a.stable_windows)
  resolved_iff h =
      let facts = Returns.record_recovery_assessment-returns id r r' n a e h in
      rw facts.4 (resolved_iff_enough r a facts.2 facts.3 (checked_windows id n a e r facts.0).1)

  -- When a recorded assessment resolves the incident, and the counts were honest before, the
  -- newest windows of the Intervention, as many as the profile requires, are all satisfied, each
  -- beginning where the one before it ended.
  pub resolved-IsStableRun :
      record_recovery_assessment id n a e r ≡ ok r'
      → IsHonest (windows_newest a.intervention_id r)
      → r'.incident.lifecycle ≡ IncidentLifecycle.resolved
      → IsStableRun r.application_profile.recovery_criteria.required_stable_windows
          (windows_newest a.intervention_id r')
  resolved-IsStableRun h honest done =
      let facts = Returns.record_recovery_assessment-returns id r r' n a e h in
      let enough = (resolved_iff h).0 done in
      rw facts.4 (
        rw (newest-snoc a.intervention_id r.recovery_assessments [] a) (
          rw (==_refl a.intervention_id)
            (shorter_run a.stable_windows _ _ enough (assessed_run facts.0 honest))))

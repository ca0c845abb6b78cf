-- ===== src/Store/Returns.antt =====
-- What each validated mutation returns when it returns: the record with its parts replaced, and
-- the facts that its tests established.
use kubecouncil.Base.{
  ℕ, String, true, false, none, some, [], ◌∷◌, ◌++◌, Result, ok, ◌≡◌, arith, inl, inr, ◌==◌,
  string_eq, ==_eq, any, Result-cases, Option-cases, ◌<◌, ◌+◌,
}
use kubecouncil.Domain.Enums.{
  IncidentLifecycle, InvestigationOutcome, policy_status_eq, investigation_outcome_eq,
}
use kubecouncil.Domain.Evidence.{Instant}
use kubecouncil.Domain.Council.{SpecialistFinding, ModelInvocation}
use kubecouncil.Domain.Policy.{CoordinatorOutput, PolicyDecision}
use kubecouncil.Domain.Authority.{Approval, Intervention, intervention_eq}
use kubecouncil.Domain.Recovery.{RecoveryAssessment}
use kubecouncil.Domain.Lifecycle.{Incident, transition_incident}
use kubecouncil.Domain.Record.{AuditEvent, InvestigationRecord}
use kubecouncil.Domain.Consistent.{IsValid, accepted}
use kubecouncil.Binding.{Digest, approval_matches_record}
use kubecouncil.Store.Access.{with_event, has_event}
use kubecouncil.Store.Append.{append_finding, append_model_invocation}
use kubecouncil.Store.Decide.{
  bumped, complete_investigation, incident_after_policy, record_policy_decision,
  record_approval_decision, compare_and_set,
}
use kubecouncil.Store.Intervene.{
  is_running, lacks_approval, approval_for, intervention_for, put_intervention, lifecycle_after,
  outcome_after, record_intervention, update_intervention,
}
use kubecouncil.Store.Recover.{
  check_assessment, incident_after_assessment, record_recovery_assessment,
}

module _ (id : String) (r r' : InvestigationRecord) where
  pub append_finding-returns :
      (f : SpecialistFinding)
      → append_finding id f r ≡ ok r'
      → (r' ≡ record r { findings = r.findings ++ f ∷ [] }) × IsValid r'
  unfolding append_finding
  append_finding-returns f h =
      ground (arith, accepted (record r { findings = r.findings ++ f ∷ [] }) r')

  pub append_model_invocation-returns :
      (m : ModelInvocation)
      → append_model_invocation id m r ≡ ok r'
      → (r' ≡ record r { model_invocations = r.model_invocations ++ m ∷ [] }) × IsValid r'
  unfolding append_model_invocation
  append_model_invocation-returns m h =
      ground (arith, accepted (record r { model_invocations = r.model_invocations ++ m ∷ [] }) r')

  abbrev pub investigated : CoordinatorOutput → Incident → InvestigationRecord
  investigated o j = record r {
    incident = bumped r j;
    hypotheses = o.hypotheses;
    proposal = o.proposal;
    manual_guidance = o.manual_guidance;
  }

  pub complete_investigation-returns :
      (o : CoordinatorOutput)
      → complete_investigation id o r ≡ ok r'
      → ((r.incident.investigation_outcome == InvestigationOutcome.not_started) ≡ true)
        × IsValid r'
        × (j : Incident) × (transition_incident r.incident
              (some IncidentLifecycle.investigating)
              (some o.outcome)
              none
            ≡ ok j)
        × (r' ≡ investigated o j)
  unfolding complete_investigation
  complete_investigation-returns o h =
      elim (Result-cases (
        transition_incident r.incident (some IncidentLifecycle.investigating) (some o.outcome)
          none)) [
            | inl (j, e) ↦
                let facts : ((r.incident.investigation_outcome == InvestigationOutcome.not_started)
                      ≡ true)
                    × IsValid r'
                    × (r' ≡ investigated o j) =
                  ground (arith, accepted (investigated o j) r') in
                (facts.0, facts.1, j, e, facts.2)
            | inr (x, e) ↦ absurd (ground arith)
          ]

  pub record_policy_decision-returns :
      (d : PolicyDecision)
      → record_policy_decision id d r ≡ ok r'
      → (r.policy_decision ≡ none)
        × IsValid r'
        × (j : Incident) × (incident_after_policy r d ≡ ok j)
        × (r' ≡ record r { incident = j; policy_decision = some d })
  unfolding record_policy_decision
  record_policy_decision-returns d h = elim (Result-cases (incident_after_policy r d)) [
    | inl (j, e) ↦
        let facts : (r.policy_decision ≡ none)
            × IsValid r'
            × (r' ≡ record r { incident = j; policy_decision = some d }) =
          ground (arith, accepted (record r { incident = j; policy_decision = some d }) r') in
        (facts.0, facts.1, j, e, facts.2)
    | inr (x, e) ↦ absurd (ground arith)
  ]

  abbrev pub approved_record : Approval → AuditEvent → InvestigationRecord
  approved_record a e = record r {
    incident = bumped r r.incident;
    approvals = a ∷ [];
    audit_events = with_event r e;
  }

  pub record_approval_decision-returns :
      (digest : Digest) (now : Instant) (v : ℕ) (a : Approval) (e : AuditEvent)
      → record_approval_decision digest now id v a e r ≡ ok r'
      → (r.incident.version ≡ v)
        × (r.approvals ≡ [])
        × (now < a.expires_at)
        × (approval_matches_record digest r a ≡ true)
        × (r' ≡ approved_record a e)
        × IsValid r'
  unfolding record_approval_decision
  record_approval_decision-returns digest now v a e h =
      ground (arith, accepted (approved_record a e) r')

  pub compare_and_set-returns :
      (v : ℕ) (i : Incident)
      → compare_and_set id v i r ≡ ok r'
      → (r.incident.version ≡ v)
        × (i.incident_id ≡ id)
        × (i.application_id ≡ r.incident.application_id)
        × (i.profile_version ≡ r.incident.profile_version)
        × (r' ≡ record r { incident = record i { version = v + 1 } })
        × IsValid r'
  unfolding compare_and_set
  compare_and_set-returns v i h = ground (
    arith,
    accepted (record r { incident = record i { version = v + 1 } }) r',
    ==_eq i.incident_id id,
    ==_eq i.application_id r.incident.application_id,
    ==_eq i.profile_version r.incident.profile_version,
  )

  abbrev pub claimed_record : Intervention → AuditEvent → Incident → InvestigationRecord
  claimed_record v e j = record r {
    incident = bumped r j;
    interventions = r.interventions ++ v ∷ [];
    audit_events = with_event r e;
  }

  pub record_intervention-returns :
      (n : ℕ) (v : Intervention) (e : AuditEvent)
      → record_intervention id n v e r ≡ ok r'
      → (r.incident.version ≡ n)
        × (is_running v ≡ true)
        × (lacks_approval (approval_for r v.approval_id) ≡ false)
        × (any is_running r.interventions ≡ false)
        × (any (λ (item : Intervention). item.idempotency_key == v.idempotency_key) r.interventions
            ≡ false)
        × IsValid r'
        × (j : Incident) × (transition_incident r.incident
              (some IncidentLifecycle.mitigating)
              none
              none
            ≡ ok j)
        × (r' ≡ claimed_record v e j)
  unfolding record_intervention
  record_intervention-returns n v e h =
      elim (Result-cases
        (transition_incident r.incident (some IncidentLifecycle.mitigating) none none)) [
          | inl (j, t) ↦
              let facts : (r.incident.version ≡ n)
                  × (is_running v ≡ true)
                  × (lacks_approval (approval_for r v.approval_id) ≡ false)
                  × (any is_running r.interventions ≡ false)
                  × (any (λ (item : Intervention). item.idempotency_key == v.idempotency_key)
                        r.interventions
                      ≡ false)
                  × IsValid r'
                  × (r' ≡ claimed_record v e j) =
                ground (arith, accepted (claimed_record v e j) r') in
              (facts.0, facts.1, facts.2, facts.3, facts.4, facts.5, j, t, facts.6)
          | inr (x, t) ↦ absurd (ground arith)
        ]

  abbrev pub updated_record : Intervention → AuditEvent → Incident → InvestigationRecord
  updated_record v e j = record r {
    incident = bumped r j;
    interventions = put_intervention v r.interventions;
    audit_events = with_event r e;
  }

  -- The transition that ends an Intervention.
  abbrev pub ending : Intervention → Result Incident
  ending v =
      transition_incident r.incident (some (lifecycle_after v.state r.incident.lifecycle)) none
        (some (outcome_after v.state r.incident.intervention_outcome))

  pub update_intervention-returns :
      (v : Intervention) (e : AuditEvent)
      → update_intervention id v e r ≡ ok r'
      → (has_event r e ≡ false)
        × (is_running v ≡ false)
        × IsValid r'
        × (current : Intervention) × (intervention_for r v.intervention_id ≡ some current)
        × (is_running current ≡ true)
        × (record v { state = current.state } ≡ current)
        × (j : Incident) × (ending v ≡ ok j)
        × (r' ≡ updated_record v e j)
  unfolding update_intervention
  update_intervention-returns v e h = elim (Option-cases (intervention_for r v.intervention_id)) [
    | inl missing ↦ absurd (ground arith)
    | inr (current, found) ↦ elim (Result-cases (ending v)) [
      | inl (j, t) ↦
          let facts : (has_event r e ≡ false)
              × (is_running v ≡ false)
              × IsValid r'
              × (is_running current ≡ true)
              × (record v { state = current.state } ≡ current)
              × (r' ≡ updated_record v e j) =
            ground (
              arith,
              accepted (updated_record v e j) r',
              ==_eq (record v { state = current.state }) current,
            ) in
          (facts.0, facts.1, facts.2, current, found, facts.3, facts.4, j, t, facts.5)
      | inr (x, t) ↦ absurd (ground arith)
    ]
  ]

  abbrev pub assessed_record : RecoveryAssessment → AuditEvent → Incident → InvestigationRecord
  assessed_record a e j = record r {
    incident = bumped r j;
    recovery_assessments = r.recovery_assessments ++ a ∷ [];
    audit_events = with_event r e;
  }

  pub record_recovery_assessment-returns :
      (n : ℕ) (a : RecoveryAssessment) (e : AuditEvent)
      → record_recovery_assessment id n a e r ≡ ok r'
      → (check_assessment id n a e r ≡ ok tt)
        × IsValid r'
        × (j : Incident) × (incident_after_assessment r a ≡ ok j)
        × (r' ≡ assessed_record a e j)
  unfolding record_recovery_assessment
  record_recovery_assessment-returns n a e h = elim (Result-cases (incident_after_assessment r a)) [
    | inl (j, t) ↦
        let facts : (check_assessment id n a e r ≡ ok tt)
            × IsValid r'
            × (r' ≡ assessed_record a e j) =
          ground (arith, accepted (assessed_record a e j) r') in
        (facts.0, facts.1, j, t, facts.2)
    | inr (x, t) ↦ absurd (ground arith)
  ]

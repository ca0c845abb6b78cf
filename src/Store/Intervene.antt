-- ===== src/Store/Intervene.antt =====
-- `record_intervention` and `update_intervention`.
use kubecouncil.Base.{
  ℕ, eqb, String, Bool, true, not, ◌||◌, Option, none, some, List, [], ◌∷◌, ◌++◌, map, Result, err,
  ◌>>=◌, ◌>>◌, value_error, raise_if, ◌==◌, string_eq, any, find, if◌then◌else◌,
}
use kubecouncil.Domain.Enums.{
  IncidentLifecycle, InterventionOutcome, InterventionState, ApprovalDecision,
  intervention_state_eq, approval_decision_eq,
}
use kubecouncil.Domain.Authority.{Approval, Intervention, intervention_eq}
use kubecouncil.Domain.Lifecycle.{transition_incident}
use kubecouncil.Domain.Record.{AuditEvent, InvestigationRecord, all_entries_belong_to_the_incident}
use kubecouncil.Store.Access.{with_event, has_event}
use kubecouncil.Store.Decide.{bumped}

-- `approval is None or approval.decision is not APPROVED`
unfoldable pub lacks_approval : Option Approval → Bool
lacks_approval none = true
lacks_approval (some a) = not (a.decision == ApprovalDecision.approved)

unfoldable pub approval_for : InvestigationRecord → String → Option Approval
approval_for r approval_id = find (λ (a : Approval). a.approval_id == approval_id) r.approvals

-- `item.state is RUNNING`
unfoldable pub is_running : Intervention → Bool
is_running v = v.state == InterventionState.running

unfoldable pub record_intervention :
    String → ℕ → Intervention → AuditEvent → InvestigationRecord → Result InvestigationRecord
record_intervention incident_id expected_version intervention event r = do
  raise_if (not (eqb r.incident.version expected_version))
      (value_error "intervention request is stale")
  raise_if (not (intervention.incident_id == incident_id) || not (event.incident_id == incident_id))
      (value_error "Intervention and audit event must belong to the Incident")
  raise_if (not (is_running intervention))
      (value_error "a claimed Intervention must start in running state")
  raise_if (lacks_approval (approval_for r intervention.approval_id))
      (value_error "Intervention requires one recorded Approval")
  raise_if
      (any (λ (item : Intervention). item.idempotency_key == intervention.idempotency_key)
        r.interventions)
      (value_error "intervention request was already claimed")
  raise_if (any is_running r.interventions)
      (value_error "Incident already has an active Intervention")
  updated ← transition_incident r.incident (some IncidentLifecycle.mitigating) none none
  all_entries_belong_to_the_incident (record r {
    incident = bumped r updated;
    interventions = r.interventions ++ intervention ∷ [];
    audit_events = with_event r event;
  })

unfoldable pub intervention_for : InvestigationRecord → String → Option Intervention
intervention_for r intervention_id =
    find (λ (v : Intervention). v.intervention_id == intervention_id) r.interventions

-- `tuple(intervention if item.intervention_id == … else item for item in …)`
unfoldable pub put_intervention : Intervention → List Intervention → List Intervention
put_intervention v =
    map (λ (item : Intervention). if item.intervention_id == v.intervention_id then v else item)

-- The lifecycle that is asked for when an Intervention ends: only success changes it.
unfoldable pub lifecycle_after : InterventionState → IncidentLifecycle → IncidentLifecycle
lifecycle_after InterventionState.succeeded current = IncidentLifecycle.monitoring
lifecycle_after _ current = current

unfoldable pub outcome_after : InterventionState → InterventionOutcome → InterventionOutcome
outcome_after InterventionState.succeeded current = InterventionOutcome.monitoring
outcome_after InterventionState.rolled_back current = InterventionOutcome.rolled_back
outcome_after InterventionState.failed current = InterventionOutcome.failed
outcome_after InterventionState.safe_halted current = InterventionOutcome.safe_halted
outcome_after _ current = current

unfoldable pub update_intervention :
    String → Intervention → AuditEvent → InvestigationRecord → Result InvestigationRecord
update_intervention incident_id intervention event r =
    elim (intervention_for r intervention.intervention_id) [
      | none ↦ err (value_error "Intervention has not been claimed")
      | some current ↦ do
        raise_if (not (event.incident_id == incident_id))
            (value_error "Intervention audit event must belong to the Incident")
        raise_if (has_event r event) (value_error "audit event already exists and is append-only")
        raise_if (not (is_running current)) (value_error "completed Interventions are immutable")
        raise_if (not (record intervention { state = current.state } == current))
            (value_error "only Intervention state may change after claim")
        raise_if (is_running intervention) (value_error "Intervention update must be terminal")
        updated ←
            transition_incident r.incident
              (some (lifecycle_after intervention.state r.incident.lifecycle)) none
              (some (outcome_after intervention.state r.incident.intervention_outcome))
        all_entries_belong_to_the_incident (record r {
          incident = bumped r updated;
          interventions = put_intervention intervention r.interventions;
          audit_events = with_event r event;
        })
    ]

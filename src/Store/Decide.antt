-- ===== src/Store/Decide.antt =====
-- The mutations that decide: the investigation's outcome, the policy decision, the human
-- Approval, and `compare_and_set`.
use kubecouncil.Base.{
  ℕ, ◌+◌, eqb, leb, String, not, ◌||◌, none, some, [], ◌∷◌, Result, ok, err, ◌>>=◌, ◌>>◌,
  value_error, raise_if, ◌==◌, string_eq, any, is_empty, is_some, if◌then◌else◌,
}
use kubecouncil.Domain.Enums.{
  IncidentLifecycle, InvestigationOutcome, PolicyStatus, policy_status_eq, investigation_outcome_eq,
}
use kubecouncil.Domain.Evidence.{Instant}
use kubecouncil.Domain.Council.{RootCauseHypothesis}
use kubecouncil.Domain.Policy.{CoordinatorOutput, PolicyDecision}
use kubecouncil.Domain.Authority.{Approval}
use kubecouncil.Domain.Lifecycle.{Incident, transition_incident}
use kubecouncil.Domain.Record.{AuditEvent, InvestigationRecord, all_entries_belong_to_the_incident}
use kubecouncil.Binding.{Digest, approval_matches_record}
use kubecouncil.Store.Access.{with_event}

-- `incident.model_copy(update={"version": record.incident.version + 1})`
abbrev pub bumped : InvestigationRecord → Incident → Incident
bumped r incident = record incident { version = r.incident.version + 1 }

unfoldable pub complete_investigation :
    String → CoordinatorOutput → InvestigationRecord → Result InvestigationRecord
complete_investigation incident_id output r = do
  raise_if (not (r.incident.investigation_outcome == InvestigationOutcome.not_started))
      (value_error "investigation already has a terminal outcome")
  raise_if (any (λ (h : RootCauseHypothesis). not (h.incident_id == incident_id)) output.hypotheses)
      (value_error "Root Cause Hypotheses must belong to the requested incident")
  updated ←
      transition_incident r.incident (some IncidentLifecycle.investigating) (some output.outcome)
        none
  all_entries_belong_to_the_incident (record r {
    incident = bumped r updated;
    hypotheses = output.hypotheses;
    proposal = output.proposal;
    manual_guidance = output.manual_guidance;
  })

-- The incident after a policy decision: a passed one awaits Approval.
unfoldable pub incident_after_policy : InvestigationRecord → PolicyDecision → Result Incident
incident_after_policy r decision =
    let passed = do
      updated ← transition_incident r.incident (some IncidentLifecycle.awaiting_approval) none none
      ok (bumped r updated)
    in if decision.status == PolicyStatus.passed then passed else ok r.incident

unfoldable pub record_policy_decision :
    String → PolicyDecision → InvestigationRecord → Result InvestigationRecord
record_policy_decision incident_id decision r = elim r.proposal [
  | none ↦ err (value_error "policy decisions require a remediation proposal")
  | some proposal ↦ do
    raise_if (is_some r.policy_decision)
        (value_error "policy decision is already recorded and cannot be overridden")
    raise_if (not (decision.incident_id == incident_id))
        (value_error "policy decision must belong to the requested incident")
    raise_if (not (decision.proposal_id == proposal.proposal_id))
        (value_error "policy decision must reference the recorded proposal")
    incident ← incident_after_policy r decision
    all_entries_belong_to_the_incident
        (record r { incident = incident; policy_decision = some decision })
]

-- `now` is the clock's reading inside the method.
unfoldable pub record_approval_decision :
    Digest
    → Instant
    → String
    → ℕ
    → Approval
    → AuditEvent
    → InvestigationRecord
    → Result InvestigationRecord
record_approval_decision digest now incident_id expected_version approval event r = do
  raise_if (not (eqb r.incident.version expected_version))
      (value_error "approval review context is stale")
  raise_if (not (is_empty r.approvals)) (value_error "proposal is already decided")
  raise_if (not (approval.incident_id == incident_id) || not (event.incident_id == incident_id))
      (value_error "Approval and audit event must belong to the requested incident")
  raise_if (leb approval.expires_at now) (value_error "approval review context expired")
  raise_if (not (approval_matches_record digest r approval))
      (value_error "approval review context is stale")
  all_entries_belong_to_the_incident (record r {
    incident = bumped r r.incident;
    approvals = approval ∷ [];
    audit_events = with_event r event;
  })

unfoldable pub compare_and_set :
    String → ℕ → Incident → InvestigationRecord → Result InvestigationRecord
compare_and_set incident_id expected_version replacement r = do
  raise_if (not (eqb r.incident.version expected_version)) (value_error "stale incident version")
  raise_if (not (replacement.incident_id == incident_id))
      (value_error "replacement incident does not match the stored incident")
  raise_if (not (eqb replacement.version expected_version))
      (value_error "replacement incident must use the expected version")
  raise_if (not (replacement.application_id == r.incident.application_id))
      (value_error "replacement incident must use the enrolled application")
  raise_if (not (replacement.profile_version == r.incident.profile_version))
      (value_error "replacement incident must use the enrolled profile version")
  all_entries_belong_to_the_incident
      (record r { incident = record replacement { version = expected_version + 1 } })

-- ===== src/Store/Append.antt =====
-- The append-only mutations: evidence, alert signals, failures, queries, findings, invocations
-- and audit events. Each is a change of one record.
use kubecouncil.Base.{
  leb, String, not, ◌&&◌, [], ◌∷◌, ◌++◌, Result, ok, ◌>>◌, value_error, raise_if, ◌==◌, string_eq,
  contains, any,
}
use kubecouncil.Domain.Enums.{role_eq}
use kubecouncil.Domain.Profile.{workload_reference_eq, enrolled_workloads}
use kubecouncil.Domain.Evidence.{
  AlertSignalEvidence, EvidenceObservation, EvidenceRetrievalFailure, EvidenceQuery,
}
use kubecouncil.Domain.Council.{SpecialistFinding, ModelInvocation}
use kubecouncil.Domain.Record.{
  AuditEvent, InvestigationRecord, all_entries_belong_to_the_incident, lacks_query, query_ids,
  evidence_ids, any_uncited,
}
use kubecouncil.Store.Access.{with_event, has_event}

unfoldable pub append_evidence :
    String → EvidenceObservation → InvestigationRecord → Result InvestigationRecord
append_evidence incident_id evidence r = do
  raise_if (not (evidence.incident_id == incident_id))
      (value_error "evidence must belong to the requested incident")
  raise_if (not (evidence.evidence_window_id == r.evidence_window.window_id))
      (value_error "evidence must belong to the immutable initial evidence window")
  raise_if
      (not (
        leb r.evidence_window.started_at evidence.observed_at
        && leb evidence.observed_at r.evidence_window.ended_at))
      (value_error "evidence observation falls outside the immutable evidence window")
  raise_if (not (contains (enrolled_workloads r.application_profile) evidence.scope))
      (value_error "evidence scope is outside the enrolled application profile")
  raise_if (lacks_query (query_ids r) evidence.evidence_query_id)
      (value_error "follow-up evidence must reference a recorded evidence query")
  raise_if
      (any (λ (item : EvidenceObservation). item.evidence_id == evidence.evidence_id) r.evidence)
      (value_error "evidence already exists and is append-only")
  ok (record r { evidence = r.evidence ++ evidence ∷ [] })

unfoldable pub append_alert_signal :
    String → AlertSignalEvidence → InvestigationRecord → Result InvestigationRecord
append_alert_signal incident_id signal r = do
  raise_if (not (signal.incident_id == incident_id))
      (value_error "alert signal evidence must belong to the requested incident")
  raise_if (not (signal.signal.application_id == r.incident.application_id))
      (value_error "alert signal evidence must belong to the enrolled application")
  raise_if
      (any (λ (item : AlertSignalEvidence). item.notification_id == signal.notification_id)
        r.alert_signals)
      (value_error "alert signal evidence already exists and is append-only")
  ok (record r { alert_signals = r.alert_signals ++ signal ∷ [] })

unfoldable pub append_evidence_retrieval_failure :
    String → EvidenceRetrievalFailure → InvestigationRecord → Result InvestigationRecord
append_evidence_retrieval_failure incident_id failure r = do
  raise_if (not (failure.incident_id == incident_id))
      (value_error "evidence retrieval failure must belong to the requested incident")
  raise_if
      (any (λ (item : EvidenceRetrievalFailure). item.failure_id == failure.failure_id)
        r.evidence_retrieval_failures)
      (value_error "evidence retrieval failure already exists and is append-only")
  ok (record r { evidence_retrieval_failures = r.evidence_retrieval_failures ++ failure ∷ [] })

unfoldable pub append_evidence_query :
    String → EvidenceQuery → InvestigationRecord → Result InvestigationRecord
append_evidence_query incident_id query r = do
  raise_if (not (query.incident_id == incident_id))
      (value_error "evidence query must belong to the requested incident")
  raise_if (not (contains (enrolled_workloads r.application_profile) query.target))
      (value_error "evidence query target is outside the enrolled application profile")
  raise_if (any (λ (item : EvidenceQuery). item.query_id == query.query_id) r.evidence_queries)
      (value_error "evidence query already exists and is append-only")
  ok (record r { evidence_queries = r.evidence_queries ++ query ∷ [] })

unfoldable pub append_finding :
    String → SpecialistFinding → InvestigationRecord → Result InvestigationRecord
append_finding incident_id finding r = do
  raise_if (not (finding.incident_id == incident_id))
      (value_error "Specialist Finding must belong to the requested incident")
  raise_if (any (λ (item : SpecialistFinding). item.finding_id == finding.finding_id) r.findings)
      (value_error "Specialist Finding already exists and is append-only")
  raise_if (any (λ (item : SpecialistFinding). item.specialist == finding.specialist) r.findings)
      (value_error "a Specialist may record only one final finding")
  raise_if (any_uncited (evidence_ids r) finding.citations)
      (value_error "Specialist Finding must cite recorded evidence")
  all_entries_belong_to_the_incident (record r { findings = r.findings ++ finding ∷ [] })

unfoldable pub append_model_invocation :
    String → ModelInvocation → InvestigationRecord → Result InvestigationRecord
append_model_invocation incident_id invocation r = do
  raise_if (not (invocation.incident_id == incident_id))
      (value_error "model invocation must belong to the requested incident")
  raise_if
      (any (λ (item : ModelInvocation). item.invocation_id == invocation.invocation_id)
        r.model_invocations)
      (value_error "model invocation already exists and is append-only")
  all_entries_belong_to_the_incident
      (record r { model_invocations = r.model_invocations ++ invocation ∷ [] })

unfoldable pub append_audit_event :
    String → AuditEvent → InvestigationRecord → Result InvestigationRecord
append_audit_event incident_id event r = do
  raise_if (not (event.incident_id == incident_id))
      (value_error "audit event must belong to the requested incident")
  raise_if (has_event r event) (value_error "audit event already exists and is append-only")
  ok (record r { audit_events = with_event r event })

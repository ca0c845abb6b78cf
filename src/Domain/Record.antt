-- ===== src/Domain/Record.antt =====
-- Audit events and the investigation record with its validator
-- (`InvestigationRecord.all_entries_belong_to_the_incident`).
use kubecouncil.Base.{
  ℕ, ltb, String, Bool, true, false, not, ◌&&◌, ◌||◌, Option, none, some, List, [], ◌∷◌, map,
  Result, ok, ◌>>◌, value_error, raise_if, ◌==◌, string_eq, contains, any, is_empty, is_none,
  is_some, length,
}
use kubecouncil.Domain.Enums.{PolicyStatus, policy_status_eq}
use kubecouncil.Domain.Profile.{
  WorkloadReference, workload_reference_eq, ApplicationProfile, enrolled_workloads,
}
use kubecouncil.Domain.Evidence.{
  Instant, AlertSignalEvidence, EvidenceWindow, EvidenceObservation, EvidenceRetrievalFailure,
  EvidenceQuery,
}
use kubecouncil.Domain.Council.{
  EvidenceCitation, SpecialistFinding, ModelInvocation, RootCauseHypothesis,
}
use kubecouncil.Domain.Policy.{RemediationProposal, ManualGuidance, PolicyDecision, action_target}
use kubecouncil.Domain.Authority.{Approval, Intervention}
use kubecouncil.Domain.Recovery.{RecoveryAssessment}
use kubecouncil.Domain.Lifecycle.{Incident}

pub record AuditEvent : Type 0 where
  pub event_id : String
  pub incident_id : String
  pub event_type : String
  pub occurred_at : Instant
  pub actor : String
  pub details : List (String × String)
  pub cursor : ℕ

pub record InvestigationRecord : Type 0 where
  pub incident : Incident
  pub application_profile : ApplicationProfile
  pub evidence_window : EvidenceWindow
  pub alert_signals : List AlertSignalEvidence
  pub evidence : List EvidenceObservation
  pub evidence_retrieval_failures : List EvidenceRetrievalFailure
  pub evidence_queries : List EvidenceQuery
  pub findings : List SpecialistFinding
  pub model_invocations : List ModelInvocation
  pub hypotheses : List RootCauseHypothesis
  pub proposal : Option RemediationProposal
  pub manual_guidance : Option ManualGuidance
  pub policy_decision : Option PolicyDecision
  pub approvals : List Approval
  pub interventions : List Intervention
  pub recovery_assessments : List RecoveryAssessment
  pub audit_events : List AuditEvent

-- `any(x != i for x in xs)`: some entry does not carry the incident's id.
unfoldable pub any_stray {ℓ} : {A : Type ℓ} → (A → String) → String → List A → Bool
any_stray id_of incident_id = any (λ item. not (id_of item == incident_id))

-- `any(scope not in enrolled for scope in scoped_entries)`
unfoldable pub any_outside {ℓ} :
    {A : Type ℓ} → (A → WorkloadReference) → List WorkloadReference → List A → Bool
any_outside scope_of enrolled = any (λ item. not (contains enrolled (scope_of item)))

abbrev pub proposals : InvestigationRecord → List RemediationProposal
proposals r = elim r.proposal [ none ↦ [] | some p ↦ p ∷ [] ]

abbrev pub guidances : InvestigationRecord → List ManualGuidance
guidances r = elim r.manual_guidance [ none ↦ [] | some g ↦ g ∷ [] ]

-- The ids of the recorded evidence, queries, Approvals and Interventions.
abbrev pub evidence_ids : InvestigationRecord → List String
evidence_ids r = map (λ (e : EvidenceObservation). e.evidence_id) r.evidence

abbrev pub query_ids : InvestigationRecord → List String
query_ids r = map (λ (q : EvidenceQuery). q.query_id) r.evidence_queries

abbrev pub approval_ids : InvestigationRecord → List String
approval_ids r = map (λ (a : Approval). a.approval_id) r.approvals

abbrev pub intervention_ids : InvestigationRecord → List String
intervention_ids r = map (λ (v : Intervention). v.intervention_id) r.interventions

-- `citation.evidence_id not in evidence_ids` for some citation.
unfoldable pub any_uncited : List String → List EvidenceCitation → Bool
any_uncited ids = any (λ c. not (contains ids c.evidence_id))

-- Follow-up evidence whose query is not recorded.
abbrev pub lacks_query : List String → Option String → Bool
lacks_query ids none = false
lacks_query ids (some q) = not (contains ids q)

-- The test of the decision against the proposal and the incident.
unfoldable pub policy_fault :
    Option PolicyDecision → Option RemediationProposal → String → Result (Unit {0})
policy_fault none proposal incident_id = ok tt
policy_fault (some d) none incident_id =
    raise_if true (value_error "policy decisions require a remediation proposal")
policy_fault (some d) (some p) incident_id = do
  raise_if (not (d.incident_id == incident_id))
      (value_error "policy decision must belong to the same incident")
  raise_if (not (d.proposal_id == p.proposal_id))
      (value_error "policy decision must reference the record proposal")

-- `self.policy_decision is None or self.policy_decision.status is not PASSED`
abbrev pub lacks_passed_policy : Option PolicyDecision → Bool
lacks_passed_policy none = true
lacks_passed_policy (some d) = not (d.status == PolicyStatus.passed)

-- `self.proposal is not None and any(x.proposal_id != self.proposal.proposal_id for x in xs)`
unfoldable pub any_other_proposal {ℓ} :
    {A : Type ℓ} → (A → String) → Option RemediationProposal → List A → Bool
any_other_proposal proposal_of none items = false
any_other_proposal proposal_of (some p) items =
    any (λ item. not (proposal_of item == p.proposal_id)) items

-- Scopes outside the enrolled profile.
unfoldable pub scope_escapes : InvestigationRecord → Bool
scope_escapes r =
    let enrolled = enrolled_workloads r.application_profile in
    any_outside (λ (e : EvidenceObservation). e.scope) enrolled r.evidence
    || any_outside (λ (q : EvidenceQuery). q.target) enrolled r.evidence_queries
    || any_outside (λ (p : RemediationProposal). action_target p.action) enrolled (proposals r)
    || any_outside (λ (v : Intervention). v.target) enrolled r.interventions

-- Entries that carry another incident's id.
unfoldable pub entries_stray : InvestigationRecord → Bool
entries_stray r =
    let id = r.incident.incident_id in
    any_stray (λ (s : AlertSignalEvidence). s.incident_id) id r.alert_signals
    || any_stray (λ (e : EvidenceObservation). e.incident_id) id r.evidence
    || any_stray (λ (f : EvidenceRetrievalFailure). f.incident_id) id r.evidence_retrieval_failures
    || any_stray (λ (q : EvidenceQuery). q.incident_id) id r.evidence_queries
    || any_stray (λ (f : SpecialistFinding). f.incident_id) id r.findings
    || any_stray (λ (m : ModelInvocation). m.incident_id) id r.model_invocations
    || any_stray (λ (h : RootCauseHypothesis). h.incident_id) id r.hypotheses
    || any_stray (λ (a : Approval). a.incident_id) id r.approvals
    || any_stray (λ (v : Intervention). v.incident_id) id r.interventions
    || any_stray (λ (a : RecoveryAssessment). a.incident_id) id r.recovery_assessments
    || any_stray (λ (e : AuditEvent). e.incident_id) id r.audit_events
    || any_stray (λ (p : RemediationProposal). p.incident_id) id (proposals r)
    || any_stray (λ (g : ManualGuidance). g.incident_id) id (guidances r)

-- Citations of evidence that is not recorded.
unfoldable pub citations_dangle : InvestigationRecord → Bool
citations_dangle r =
    any (λ (f : SpecialistFinding). any_uncited (evidence_ids r) f.citations) r.findings
    || any (λ (h : RootCauseHypothesis). any_uncited (evidence_ids r) h.citations) r.hypotheses

unfoldable pub all_entries_belong_to_the_incident : InvestigationRecord → Result InvestigationRecord
all_entries_belong_to_the_incident r = do
  raise_if (not (r.incident.application_id == r.application_profile.application_id))
      (value_error "incident must reference the record application profile")
  raise_if (not (r.evidence_window.incident_id == r.incident.incident_id))
      (value_error "evidence window must belong to the same incident")
  raise_if (scope_escapes r)
      (value_error "investigation record scope is outside the enrolled application profile")
  raise_if (entries_stray r)
      (value_error "investigation record entries must belong to the same incident")
  raise_if
      (any (λ (e : EvidenceObservation). lacks_query (query_ids r) e.evidence_query_id) r.evidence)
      (value_error "follow-up evidence must reference a query in the investigation record")
  raise_if (citations_dangle r)
      (value_error "findings and hypotheses must cite evidence in the investigation record")
  raise_if (is_some r.proposal && is_some r.manual_guidance)
      (value_error "an investigation record cannot contain proposal and manual guidance together")
  policy_fault r.policy_decision r.proposal r.incident.incident_id
  raise_if (any_other_proposal (λ (a : Approval). a.proposal_id) r.proposal r.approvals)
      (value_error "approvals must reference the record proposal")
  raise_if (not (is_empty r.approvals) && lacks_passed_policy r.policy_decision)
      (value_error "Approval cannot override a missing or rejected policy decision")
  raise_if (ltb 1 (length r.approvals))
      (value_error "a proposal may have only one immutable Approval decision")
  raise_if (is_none r.proposal && not (is_empty r.interventions))
      (value_error "interventions require a remediation proposal")
  raise_if
      (any (λ (v : Intervention). not (contains (approval_ids r) v.approval_id)) r.interventions)
      (value_error "interventions must reference an approval in the investigation record")
  raise_if (any_other_proposal (λ (v : Intervention). v.proposal_id) r.proposal r.interventions)
      (value_error "interventions must reference the record proposal")
  raise_if
      (any (λ (a : RecoveryAssessment). not (contains (intervention_ids r) a.intervention_id))
        r.recovery_assessments)
      (value_error "recovery assessments must reference a record intervention")
  ok r

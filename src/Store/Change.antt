-- ===== src/Store/Change.antt =====
-- Every mutation of the store as a value, so that a law can speak of all of them.
use kubecouncil.Base.{ℕ, String, Result}
use kubecouncil.Domain.Evidence.{
  Instant, AlertSignalEvidence, EvidenceObservation, EvidenceRetrievalFailure, EvidenceQuery,
}
use kubecouncil.Domain.Council.{SpecialistFinding, ModelInvocation}
use kubecouncil.Domain.Policy.{CoordinatorOutput, PolicyDecision}
use kubecouncil.Domain.Authority.{Approval, Intervention}
use kubecouncil.Domain.Recovery.{RecoveryAssessment}
use kubecouncil.Domain.Lifecycle.{Incident}
use kubecouncil.Domain.Record.{AuditEvent, InvestigationRecord}
use kubecouncil.Binding.{Digest}
use kubecouncil.Store.Access.{Store, amend}
use kubecouncil.Store.Append.{
  append_evidence, append_alert_signal, append_evidence_retrieval_failure, append_evidence_query,
  append_finding, append_model_invocation, append_audit_event,
}
use kubecouncil.Store.Decide.{
  complete_investigation, record_policy_decision, record_approval_decision, compare_and_set,
}
use kubecouncil.Store.Intervene.{record_intervention, update_intervention}
use kubecouncil.Store.Recover.{record_recovery_assessment}

pub data Change : Type 0 where
  evidence : EvidenceObservation → Change
  alert_signal : AlertSignalEvidence → Change
  retrieval_failure : EvidenceRetrievalFailure → Change
  evidence_query : EvidenceQuery → Change
  finding : SpecialistFinding → Change
  model_invocation : ModelInvocation → Change
  audit_event : AuditEvent → Change
  investigation : CoordinatorOutput → Change
  policy : PolicyDecision → Change
  approval : Instant → ℕ → Approval → AuditEvent → Change
  intervention : ℕ → Intervention → AuditEvent → Change
  intervention_update : Intervention → AuditEvent → Change
  assessment : ℕ → RecoveryAssessment → AuditEvent → Change
  replacement : ℕ → Incident → Change

module _ (digest : Digest) where
  unfoldable pub apply_change : Change → String → InvestigationRecord → Result InvestigationRecord
  apply_change (evidence e) id = append_evidence id e
  apply_change (alert_signal s) id = append_alert_signal id s
  apply_change (retrieval_failure f) id = append_evidence_retrieval_failure id f
  apply_change (evidence_query q) id = append_evidence_query id q
  apply_change (finding f) id = append_finding id f
  apply_change (model_invocation m) id = append_model_invocation id m
  apply_change (audit_event e) id = append_audit_event id e
  apply_change (investigation o) id = complete_investigation id o
  apply_change (policy d) id = record_policy_decision id d
  apply_change (approval now v a e) id = record_approval_decision digest now id v a e
  apply_change (intervention v i e) id = record_intervention id v i e
  apply_change (intervention_update i e) id = update_intervention id i e
  apply_change (assessment v a e) id = record_recovery_assessment id v a e
  apply_change (replacement v i) id = compare_and_set id v i

  -- A call of the method that the change names.
  unfoldable pub execute : Change → String → Store → Result (Store × InvestigationRecord)
  execute change id store = amend (apply_change change id) store id

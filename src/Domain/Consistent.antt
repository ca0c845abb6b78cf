-- ===== src/Domain/Consistent.antt =====
-- What the validator of the investigation record checks, as facts.
use kubecouncil.Base.{
  true, false, not, ◌&&◌, ok, ◌≡◌, ◌∙◌, ap, arith, ◌==◌, string_eq, contains, any, is_empty,
  is_none, is_some, length, ltb,
}
use kubecouncil.Domain.Evidence.{EvidenceObservation}
use kubecouncil.Domain.Authority.{Approval, Intervention}
use kubecouncil.Domain.Recovery.{RecoveryAssessment}
use kubecouncil.Domain.Record.{
  InvestigationRecord, all_entries_belong_to_the_incident, scope_escapes, entries_stray,
  lacks_query, query_ids, citations_dangle, policy_fault, any_other_proposal, lacks_passed_policy,
  approval_ids, intervention_ids,
}

-- The validator accepts the record.
abbrev pub IsValid : InvestigationRecord → Type 0
IsValid r = all_entries_belong_to_the_incident r ≡ ok r

pub record IsConsistent (r : InvestigationRecord) : Type 0 where
  pub application : (r.incident.application_id == r.application_profile.application_id) ≡ true
  pub window : (r.evidence_window.incident_id == r.incident.incident_id) ≡ true
  pub scoped : scope_escapes r ≡ false
  pub owned : entries_stray r ≡ false
  pub queried :
      any (λ (e : EvidenceObservation). lacks_query (query_ids r) e.evidence_query_id) r.evidence
      ≡ false
  pub cited : citations_dangle r ≡ false
  pub one_outcome : (is_some r.proposal && is_some r.manual_guidance) ≡ false
  pub decided : policy_fault r.policy_decision r.proposal r.incident.incident_id ≡ ok tt
  pub approvals_match :
      any_other_proposal (λ (a : Approval). a.proposal_id) r.proposal r.approvals ≡ false
  pub approvals_passed :
      (not (is_empty r.approvals) && lacks_passed_policy r.policy_decision) ≡ false
  pub approved_once : ltb 1 (length r.approvals) ≡ false
  pub proposed : (is_none r.proposal && not (is_empty r.interventions)) ≡ false
  pub approved :
      any (λ (v : Intervention). not (contains (approval_ids r) v.approval_id)) r.interventions
      ≡ false
  pub interventions_match :
      any_other_proposal (λ (v : Intervention). v.proposal_id) r.proposal r.interventions ≡ false
  pub assessed :
      any
        (λ (a : RecoveryAssessment). not (contains (intervention_ids r) a.intervention_id))
        r.recovery_assessments
      ≡ false

pub validated : (r s : InvestigationRecord) → all_entries_belong_to_the_incident r ≡ ok s → s ≡ r
unfolding all_entries_belong_to_the_incident
validated r s h = ground arith

pub IsValid-IsConsistent : (r : InvestigationRecord) → IsValid r → IsConsistent r
unfolding all_entries_belong_to_the_incident
IsValid-IsConsistent r h = ground arith

pub IsConsistent-IsValid : (r : InvestigationRecord) → IsConsistent r → IsValid r
unfolding all_entries_belong_to_the_incident
IsConsistent-IsValid r c = ground arith

-- What the validator returns is the record itself, and it is valid.
pub accepted :
    (r s : InvestigationRecord) → all_entries_belong_to_the_incident r ≡ ok s → (s ≡ r) × IsValid s
accepted r s h = let e = validated r s h in (e, rw e (h ∙ ap ok e))

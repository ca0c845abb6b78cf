-- ===== src/Store/Concluded.antt =====
-- Every mutation against the conclusions of an investigation.
use kubecouncil.Base.{String, ok, ◌≡◌, ◌≢◌, refl, ==_eq}
use kubecouncil.Domain.Enums.{InvestigationOutcome, investigation_outcome_eq}
use kubecouncil.Domain.Record.{InvestigationRecord}
use kubecouncil.Binding.{Digest}
use kubecouncil.Store.Change.{
  Change, evidence, alert_signal, retrieval_failure, evidence_query, finding, model_invocation,
  audit_event, investigation, policy, approval, intervention, intervention_update, assessment,
  replacement, apply_change,
}
use kubecouncil.Store.Valid
use kubecouncil.Store.Returns
use kubecouncil.Store.Invariant.{IsSound}

-- The hypotheses, the proposal and the guidance of the investigation are the same.
pub record SameConclusions (r r' : InvestigationRecord) : Type 0 where
  pub hypotheses : r'.hypotheses ≡ r.hypotheses
  pub proposal : r'.proposal ≡ r.proposal
  pub manual_guidance : r'.manual_guidance ≡ r.manual_guidance

module _ (digest : Digest) (id : String) (r r' : InvestigationRecord) where
  -- A mutation that returns on a sound record of an Incident whose investigation outcome is not
  -- `not_started` leaves the hypotheses, the proposal and the guidance as they are.
  pub apply_change-SameConclusions :
      (c : Change)
      → IsSound id r
      → r.incident.investigation_outcome ≢ InvestigationOutcome.not_started
      → apply_change digest c id r ≡ ok r'
      → SameConclusions r r'
  unfolding apply_change
  apply_change-SameConclusions (evidence e) s concluded h =
      let facts = Valid.append_evidence-returns id r s.keyed e r' h in
      rw facts.3 (record { hypotheses = refl; proposal = refl; manual_guidance = refl })
  apply_change-SameConclusions (alert_signal x) s concluded h =
      let facts = Valid.append_alert_signal-returns id r s.keyed x r' h in
      rw facts.1 (record { hypotheses = refl; proposal = refl; manual_guidance = refl })
  apply_change-SameConclusions (retrieval_failure f) s concluded h =
      let facts = Valid.append_evidence_retrieval_failure-returns id r s.keyed f r' h in
      rw facts.1 (record { hypotheses = refl; proposal = refl; manual_guidance = refl })
  apply_change-SameConclusions (evidence_query q) s concluded h =
      let facts = Valid.append_evidence_query-returns id r s.keyed q r' h in
      rw facts.2 (record { hypotheses = refl; proposal = refl; manual_guidance = refl })
  apply_change-SameConclusions (finding f) s concluded h =
      let facts = Returns.append_finding-returns id r r' f h in
      rw facts.0 (record { hypotheses = refl; proposal = refl; manual_guidance = refl })
  apply_change-SameConclusions (model_invocation m) s concluded h =
      let facts = Returns.append_model_invocation-returns id r r' m h in
      rw facts.0 (record { hypotheses = refl; proposal = refl; manual_guidance = refl })
  apply_change-SameConclusions (audit_event e) s concluded h =
      let facts = Valid.append_audit_event-returns id r s.keyed e r' h in
      rw facts.1 (record { hypotheses = refl; proposal = refl; manual_guidance = refl })
  apply_change-SameConclusions (investigation o) s concluded h =
      let facts = Returns.complete_investigation-returns id r r' o h in
      absurd (
        concluded (==_eq r.incident.investigation_outcome InvestigationOutcome.not_started facts.0))
  apply_change-SameConclusions (policy d) s concluded h =
      let facts = Returns.record_policy_decision-returns id r r' d h in
      rw facts.4 (record { hypotheses = refl; proposal = refl; manual_guidance = refl })
  apply_change-SameConclusions (approval now n a e) s concluded h =
      let facts = Returns.record_approval_decision-returns id r r' digest now n a e h in
      rw facts.4 (record { hypotheses = refl; proposal = refl; manual_guidance = refl })
  apply_change-SameConclusions (intervention n v e) s concluded h =
      let facts = Returns.record_intervention-returns id r r' n v e h in
      rw facts.8 (record { hypotheses = refl; proposal = refl; manual_guidance = refl })
  apply_change-SameConclusions (intervention_update v e) s concluded h =
      let facts = Returns.update_intervention-returns id r r' v e h in
      rw facts.9 (record { hypotheses = refl; proposal = refl; manual_guidance = refl })
  apply_change-SameConclusions (assessment n a e) s concluded h =
      let facts = Returns.record_recovery_assessment-returns id r r' n a e h in
      rw facts.4 (record { hypotheses = refl; proposal = refl; manual_guidance = refl })
  apply_change-SameConclusions (replacement n i) s concluded h =
      let facts = Returns.compare_and_set-returns id r r' n i h in
      rw facts.4 (record { hypotheses = refl; proposal = refl; manual_guidance = refl })

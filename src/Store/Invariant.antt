-- ===== src/Store/Invariant.antt =====
-- Every mutation against the invariant of stored records.
use kubecouncil.Base.{
  ◌≤◌, String, Option, none, some, ok, ◌≡◌, ◌∙◌, arith, Result-cases, inl, inr, string_eq,
}
use native.Mathlib.Nat.{le_trans}
use kubecouncil.Domain.Enums.{IncidentLifecycle, InvestigationOutcome, InterventionOutcome}
use kubecouncil.Domain.Policy.{PolicyDecision}
use kubecouncil.Domain.Recovery.{RecoveryAssessment}
use kubecouncil.Domain.Lifecycle.{Incident, transition_incident}
use kubecouncil.Domain.Lifecycle.Sound.{transition_incident-Transition}
use kubecouncil.Domain.Record.{InvestigationRecord}
use kubecouncil.Domain.Consistent.{IsValid, IsValid-IsConsistent, IsConsistent-IsValid}
use kubecouncil.Binding.{Digest}
use kubecouncil.Store.Decide.{incident_after_policy}
use kubecouncil.Store.Recover.{incident_after_assessment}
use kubecouncil.Store.Change.{
  Change, evidence, alert_signal, retrieval_failure, evidence_query, finding, model_invocation,
  audit_event, investigation, policy, approval, intervention, intervention_update, assessment,
  replacement, apply_change,
}
use kubecouncil.Store.Valid
use kubecouncil.Store.Returns
use kubecouncil.Store.Cursors.{IsNumbered, with_event-IsNumbered}
use kubecouncil.Store.Running.{running_count, running_count-claim, running_count-put}

pub record IsSound (id : String) (r : InvestigationRecord) : Type 0 where
  pub keyed : r.incident.incident_id ≡ id
  pub valid : IsValid r
  pub numbered : IsNumbered 0 r.audit_events
  pub one_running : running_count r.interventions ≤ 1

same_id :
    (i j : Incident) (l : Option IncidentLifecycle) (o : Option InvestigationOutcome)
    (v : Option InterventionOutcome)
    → transition_incident i l o v ≡ ok j
    → j.incident_id ≡ i.incident_id
same_id i j l o v h = rw (transition_incident-Transition i l o v j h).0

after_policy_id :
    (r : InvestigationRecord) (d : PolicyDecision) (j : Incident)
    → incident_after_policy r d ≡ ok j
    → j.incident_id ≡ r.incident.incident_id
unfolding incident_after_policy
after_policy_id r d j h =
    elim (Result-cases
      (transition_incident r.incident (some IncidentLifecycle.awaiting_approval) none none)) [
        | inl (k, e) ↦ ground (arith, same_id r.incident k _ _ _ e)
        | inr (x, e) ↦ ground arith
      ]

after_assessment_id :
    (r : InvestigationRecord) (a : RecoveryAssessment) (j : Incident)
    → incident_after_assessment r a ≡ ok j
    → j.incident_id ≡ r.incident.incident_id
unfolding incident_after_assessment
after_assessment_id r a j h = ground (
  arith,
  same_id r.incident j (some IncidentLifecycle.resolved) none (some InterventionOutcome.succeeded),
)

module _ (digest : Digest) (id : String) (r r' : InvestigationRecord) where
  pub apply_change-IsSound :
      (c : Change) → IsSound id r → apply_change digest c id r ≡ ok r' → IsSound id r'
  unfolding apply_change
  apply_change-IsSound (evidence e) s h =
      let facts = Valid.append_evidence-returns id r s.keyed e r' h in
      record {
        keyed = rw facts.3 s.keyed;
        valid = IsConsistent-IsValid r' (
            Valid.append_evidence-IsConsistent id r s.keyed e r' h
              (IsValid-IsConsistent r s.valid));
        numbered = rw facts.3 s.numbered;
        one_running = rw facts.3 s.one_running;
      }
  apply_change-IsSound (alert_signal x) s h =
      let facts = Valid.append_alert_signal-returns id r s.keyed x r' h in
      record {
        keyed = rw facts.1 s.keyed;
        valid = IsConsistent-IsValid r' (
            Valid.append_alert_signal-IsConsistent id r s.keyed x r' h
              (IsValid-IsConsistent r s.valid));
        numbered = rw facts.1 s.numbered;
        one_running = rw facts.1 s.one_running;
      }
  apply_change-IsSound (retrieval_failure f) s h =
      let facts = Valid.append_evidence_retrieval_failure-returns id r s.keyed f r' h in
      record {
        keyed = rw facts.1 s.keyed;
        valid = IsConsistent-IsValid r' (
            Valid.append_evidence_retrieval_failure-IsConsistent id r s.keyed f r' h
              (IsValid-IsConsistent r s.valid));
        numbered = rw facts.1 s.numbered;
        one_running = rw facts.1 s.one_running;
      }
  apply_change-IsSound (evidence_query q) s h =
      let facts = Valid.append_evidence_query-returns id r s.keyed q r' h in
      record {
        keyed = rw facts.2 s.keyed;
        valid = IsConsistent-IsValid r' (
            Valid.append_evidence_query-IsConsistent id r s.keyed q r' h
              (IsValid-IsConsistent r s.valid));
        numbered = rw facts.2 s.numbered;
        one_running = rw facts.2 s.one_running;
      }
  apply_change-IsSound (finding f) s h =
      let facts = Returns.append_finding-returns id r r' f h in
      record {
        keyed = rw facts.0 s.keyed;
        valid = facts.1;
        numbered = rw facts.0 s.numbered;
        one_running = rw facts.0 s.one_running;
      }
  apply_change-IsSound (model_invocation f) s h =
      let facts = Returns.append_model_invocation-returns id r r' f h in
      record {
        keyed = rw facts.0 s.keyed;
        valid = facts.1;
        numbered = rw facts.0 s.numbered;
        one_running = rw facts.0 s.one_running;
      }
  apply_change-IsSound (audit_event e) s h =
      let facts = Valid.append_audit_event-returns id r s.keyed e r' h in
      record {
        keyed = rw facts.1 s.keyed;
        valid = IsConsistent-IsValid r' (
            Valid.append_audit_event-IsConsistent id r s.keyed e r' h
              (IsValid-IsConsistent r s.valid));
        numbered = rw facts.1 (with_event-IsNumbered r e s.numbered);
        one_running = rw facts.1 s.one_running;
      }
  apply_change-IsSound (investigation o) s h =
      let facts = Returns.complete_investigation-returns id r r' o h in
      record {
        keyed = rw facts.4 (same_id r.incident facts.2 _ _ _ facts.3 ∙ s.keyed);
        valid = facts.1;
        numbered = rw facts.4 s.numbered;
        one_running = rw facts.4 s.one_running;
      }
  apply_change-IsSound (policy d) s h =
      let facts = Returns.record_policy_decision-returns id r r' d h in
      record {
        keyed = rw facts.4 (after_policy_id r d facts.2 facts.3 ∙ s.keyed);
        valid = facts.1;
        numbered = rw facts.4 s.numbered;
        one_running = rw facts.4 s.one_running;
      }
  apply_change-IsSound (approval now n a e) s h =
      let facts = Returns.record_approval_decision-returns id r r' digest now n a e h in
      record {
        keyed = rw facts.4 s.keyed;
        valid = facts.5;
        numbered = rw facts.4 (with_event-IsNumbered r e s.numbered);
        one_running = rw facts.4 s.one_running;
      }
  apply_change-IsSound (intervention n v e) s h =
      let facts = Returns.record_intervention-returns id r r' n v e h in
      record {
        keyed = rw facts.8 (same_id r.incident facts.6 _ _ _ facts.7 ∙ s.keyed);
        valid = facts.5;
        numbered = rw facts.8 (with_event-IsNumbered r e s.numbered);
        one_running = rw facts.8 (running_count-claim r.interventions v facts.3);
      }
  apply_change-IsSound (intervention_update v e) s h =
      let facts = Returns.update_intervention-returns id r r' v e h in
      record {
        keyed = rw facts.9 (same_id r.incident facts.7 _ _ _ facts.8 ∙ s.keyed);
        valid = facts.2;
        numbered = rw facts.9 (with_event-IsNumbered r e s.numbered);
        one_running =
            rw facts.9 (le_trans (running_count-put v r.interventions facts.1) s.one_running);
      }
  apply_change-IsSound (assessment n a e) s h =
      let facts = Returns.record_recovery_assessment-returns id r r' n a e h in
      record {
        keyed = rw facts.4 (after_assessment_id r a facts.2 facts.3 ∙ s.keyed);
        valid = facts.1;
        numbered = rw facts.4 (with_event-IsNumbered r e s.numbered);
        one_running = rw facts.4 s.one_running;
      }
  apply_change-IsSound (replacement n i) s h =
      let facts = Returns.compare_and_set-returns id r r' n i h in
      record {
        keyed = rw facts.4 facts.1;
        valid = facts.5;
        numbered = rw facts.4 s.numbered;
        one_running = rw facts.4 s.one_running;
      }

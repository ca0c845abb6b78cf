-- ===== src/Store/History.antt =====
-- Every mutation against the later states of a record (Store/Extends).
use kubecouncil.Base.{String, [], ◌∷◌, ok, ◌≡◌, ◌∙◌, sym, refl, arith, string_eq}
use mathlib.Core.List.{append-nil, map-append}
use kubecouncil.Domain.Record.{InvestigationRecord, intervention_ids}
use kubecouncil.Binding.{Digest}
use kubecouncil.Store.Change.{
  Change, evidence, alert_signal, retrieval_failure, evidence_query, finding, model_invocation,
  audit_event, investigation, policy, approval, intervention, intervention_update, assessment,
  replacement, apply_change,
}
use kubecouncil.Store.Valid
use kubecouncil.Store.Returns
use kubecouncil.Store.Extends.{Extends, same, event_added, put_ids, after_policy_version}
use kubecouncil.Store.Invariant.{IsSound}

module _ (digest : Digest) (id : String) (r r' : InvestigationRecord) where
  -- A mutation that returns on a sound record only appends to the alert signals, the evidence, the
  -- retrieval failures, the queries, the findings, the model invocations, the assessments, the
  -- events and the ids of the Interventions; it keeps the profile, the evidence window, a policy
  -- decision and human decisions that are recorded, and does not lower the version.
  pub apply_change-Extends :
      (c : Change) → IsSound id r → apply_change digest c id r ≡ ok r' → Extends r r'
  unfolding apply_change
  apply_change-Extends (evidence e) s h =
      let facts = Valid.append_evidence-returns id r s.keyed e r' h in
      rw facts.3 (record {
        profile = refl;
        window = refl;
        alert_signals = same r.alert_signals;
        evidence = (e ∷ [], refl);
        evidence_retrieval_failures = same r.evidence_retrieval_failures;
        evidence_queries = same r.evidence_queries;
        findings = same r.findings;
        model_invocations = same r.model_invocations;
        recovery_assessments = same r.recovery_assessments;
        audit_events = same r.audit_events;
        interventions = same (intervention_ids r);
        policy_kept = λ x p. p;
        approvals_kept = λ n. refl;
        version = omega arith;
      })
  apply_change-Extends (alert_signal x) s h =
      let facts = Valid.append_alert_signal-returns id r s.keyed x r' h in
      rw facts.1 (record {
        profile = refl;
        window = refl;
        alert_signals = (x ∷ [], refl);
        evidence = same r.evidence;
        evidence_retrieval_failures = same r.evidence_retrieval_failures;
        evidence_queries = same r.evidence_queries;
        findings = same r.findings;
        model_invocations = same r.model_invocations;
        recovery_assessments = same r.recovery_assessments;
        audit_events = same r.audit_events;
        interventions = same (intervention_ids r);
        policy_kept = λ x p. p;
        approvals_kept = λ n. refl;
        version = omega arith;
      })
  apply_change-Extends (retrieval_failure f) s h =
      let facts = Valid.append_evidence_retrieval_failure-returns id r s.keyed f r' h in
      rw facts.1 (record {
        profile = refl;
        window = refl;
        alert_signals = same r.alert_signals;
        evidence = same r.evidence;
        evidence_retrieval_failures = (f ∷ [], refl);
        evidence_queries = same r.evidence_queries;
        findings = same r.findings;
        model_invocations = same r.model_invocations;
        recovery_assessments = same r.recovery_assessments;
        audit_events = same r.audit_events;
        interventions = same (intervention_ids r);
        policy_kept = λ x p. p;
        approvals_kept = λ n. refl;
        version = omega arith;
      })
  apply_change-Extends (evidence_query q) s h =
      let facts = Valid.append_evidence_query-returns id r s.keyed q r' h in
      rw facts.2 (record {
        profile = refl;
        window = refl;
        alert_signals = same r.alert_signals;
        evidence = same r.evidence;
        evidence_retrieval_failures = same r.evidence_retrieval_failures;
        evidence_queries = (q ∷ [], refl);
        findings = same r.findings;
        model_invocations = same r.model_invocations;
        recovery_assessments = same r.recovery_assessments;
        audit_events = same r.audit_events;
        interventions = same (intervention_ids r);
        policy_kept = λ x p. p;
        approvals_kept = λ n. refl;
        version = omega arith;
      })
  apply_change-Extends (finding f) s h =
      let facts = Returns.append_finding-returns id r r' f h in
      rw facts.0 (record {
        profile = refl;
        window = refl;
        alert_signals = same r.alert_signals;
        evidence = same r.evidence;
        evidence_retrieval_failures = same r.evidence_retrieval_failures;
        evidence_queries = same r.evidence_queries;
        findings = (f ∷ [], refl);
        model_invocations = same r.model_invocations;
        recovery_assessments = same r.recovery_assessments;
        audit_events = same r.audit_events;
        interventions = same (intervention_ids r);
        policy_kept = λ x p. p;
        approvals_kept = λ n. refl;
        version = omega arith;
      })
  apply_change-Extends (model_invocation m) s h =
      let facts = Returns.append_model_invocation-returns id r r' m h in
      rw facts.0 (record {
        profile = refl;
        window = refl;
        alert_signals = same r.alert_signals;
        evidence = same r.evidence;
        evidence_retrieval_failures = same r.evidence_retrieval_failures;
        evidence_queries = same r.evidence_queries;
        findings = same r.findings;
        model_invocations = (m ∷ [], refl);
        recovery_assessments = same r.recovery_assessments;
        audit_events = same r.audit_events;
        interventions = same (intervention_ids r);
        policy_kept = λ x p. p;
        approvals_kept = λ n. refl;
        version = omega arith;
      })
  apply_change-Extends (audit_event e) s h =
      let facts = Valid.append_audit_event-returns id r s.keyed e r' h in
      rw facts.1 (record {
        profile = refl;
        window = refl;
        alert_signals = same r.alert_signals;
        evidence = same r.evidence;
        evidence_retrieval_failures = same r.evidence_retrieval_failures;
        evidence_queries = same r.evidence_queries;
        findings = same r.findings;
        model_invocations = same r.model_invocations;
        recovery_assessments = same r.recovery_assessments;
        audit_events = event_added r e;
        interventions = same (intervention_ids r);
        policy_kept = λ x p. p;
        approvals_kept = λ n. refl;
        version = omega arith;
      })
  apply_change-Extends (investigation o) s h =
      let facts = Returns.complete_investigation-returns id r r' o h in
      rw facts.4 (record {
        profile = refl;
        window = refl;
        alert_signals = same r.alert_signals;
        evidence = same r.evidence;
        evidence_retrieval_failures = same r.evidence_retrieval_failures;
        evidence_queries = same r.evidence_queries;
        findings = same r.findings;
        model_invocations = same r.model_invocations;
        recovery_assessments = same r.recovery_assessments;
        audit_events = same r.audit_events;
        interventions = same (intervention_ids r);
        policy_kept = λ x p. p;
        approvals_kept = λ n. refl;
        version = omega arith;
      })
  apply_change-Extends (policy d) s h =
      let facts = Returns.record_policy_decision-returns id r r' d h in
      rw facts.4 (record {
        profile = refl;
        window = refl;
        alert_signals = same r.alert_signals;
        evidence = same r.evidence;
        evidence_retrieval_failures = same r.evidence_retrieval_failures;
        evidence_queries = same r.evidence_queries;
        findings = same r.findings;
        model_invocations = same r.model_invocations;
        recovery_assessments = same r.recovery_assessments;
        audit_events = same r.audit_events;
        interventions = same (intervention_ids r);
        policy_kept = λ x p. cc facts.0;
        approvals_kept = λ n. refl;
        version = after_policy_version r d facts.2 facts.3;
      })
  apply_change-Extends (approval now n a e) s h =
      let facts = Returns.record_approval_decision-returns id r r' digest now n a e h in
      rw facts.4 (record {
        profile = refl;
        window = refl;
        alert_signals = same r.alert_signals;
        evidence = same r.evidence;
        evidence_retrieval_failures = same r.evidence_retrieval_failures;
        evidence_queries = same r.evidence_queries;
        findings = same r.findings;
        model_invocations = same r.model_invocations;
        recovery_assessments = same r.recovery_assessments;
        audit_events = event_added r e;
        interventions = same (intervention_ids r);
        policy_kept = λ x p. p;
        approvals_kept = λ n. absurd (n facts.1);
        version = omega arith;
      })
  apply_change-Extends (intervention n v e) s h =
      let facts = Returns.record_intervention-returns id r r' n v e h in
      rw facts.8 (record {
        profile = refl;
        window = refl;
        alert_signals = same r.alert_signals;
        evidence = same r.evidence;
        evidence_retrieval_failures = same r.evidence_retrieval_failures;
        evidence_queries = same r.evidence_queries;
        findings = same r.findings;
        model_invocations = same r.model_invocations;
        recovery_assessments = same r.recovery_assessments;
        audit_events = event_added r e;
        interventions = (v.intervention_id ∷ [], map-append _ _ _);
        policy_kept = λ x p. p;
        approvals_kept = λ n. refl;
        version = omega arith;
      })
  apply_change-Extends (intervention_update v e) s h =
      let facts = Returns.update_intervention-returns id r r' v e h in
      rw facts.9 (record {
        profile = refl;
        window = refl;
        alert_signals = same r.alert_signals;
        evidence = same r.evidence;
        evidence_retrieval_failures = same r.evidence_retrieval_failures;
        evidence_queries = same r.evidence_queries;
        findings = same r.findings;
        model_invocations = same r.model_invocations;
        recovery_assessments = same r.recovery_assessments;
        audit_events = event_added r e;
        interventions = ([], put_ids v r.interventions ∙ sym (append-nil _));
        policy_kept = λ x p. p;
        approvals_kept = λ n. refl;
        version = omega arith;
      })
  apply_change-Extends (assessment n a e) s h =
      let facts = Returns.record_recovery_assessment-returns id r r' n a e h in
      rw facts.4 (record {
        profile = refl;
        window = refl;
        alert_signals = same r.alert_signals;
        evidence = same r.evidence;
        evidence_retrieval_failures = same r.evidence_retrieval_failures;
        evidence_queries = same r.evidence_queries;
        findings = same r.findings;
        model_invocations = same r.model_invocations;
        recovery_assessments = (a ∷ [], refl);
        audit_events = event_added r e;
        interventions = same (intervention_ids r);
        policy_kept = λ x p. p;
        approvals_kept = λ n. refl;
        version = omega arith;
      })
  apply_change-Extends (replacement n i) s h =
      let facts = Returns.compare_and_set-returns id r r' n i h in
      rw facts.4 (record {
        profile = refl;
        window = refl;
        alert_signals = same r.alert_signals;
        evidence = same r.evidence;
        evidence_retrieval_failures = same r.evidence_retrieval_failures;
        evidence_queries = same r.evidence_queries;
        findings = same r.findings;
        model_invocations = same r.model_invocations;
        recovery_assessments = same r.recovery_assessments;
        audit_events = same r.audit_events;
        interventions = same (intervention_ids r);
        policy_kept = λ x p. p;
        approvals_kept = λ n. refl;
        version = omega (arith, facts.0);
      })

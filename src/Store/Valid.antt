-- ===== src/Store/Valid.antt =====
-- The appends that write a record back without validating it, against the validator.
use kubecouncil.Base.{
  String, true, false, List, [], ◌∷◌, ◌++◌, ok, ◌≡◌, ◌∙◌, arith, string_eq, ==_eq, ==_refl,
  contains,
}
use mathlib.Core.List.{map-append}
use kubecouncil.Domain.Profile.{WorkloadReference, enrolled_workloads, workload_reference_eq}
use kubecouncil.Domain.Evidence.{
  AlertSignalEvidence, EvidenceObservation, EvidenceRetrievalFailure, EvidenceQuery,
}
use kubecouncil.Domain.Council.{EvidenceCitation, SpecialistFinding, RootCauseHypothesis}
use kubecouncil.Domain.Record.{
  AuditEvent, InvestigationRecord, any_stray, any_outside, any_uncited, lacks_query, query_ids,
  evidence_ids, scope_escapes, entries_stray, citations_dangle,
}
use kubecouncil.Domain.Consistent.{IsConsistent}
use kubecouncil.Domain.Grow.{any_snoc, any_weaken, lacks_query_grow, any_uncited_grow}
use kubecouncil.Store.Access.{with_event, next_cursor}
use kubecouncil.Store.Append.{
  append_evidence, append_alert_signal, append_evidence_retrieval_failure, append_evidence_query,
  append_audit_event,
}

stray_snoc :
    {A : Type 0} (id_of : A → String) (id : String) (xs : List A) (a : A)
    → id_of a ≡ id
    → any_stray id_of id xs ≡ false
    → any_stray id_of id (xs ++ a ∷ []) ≡ false
unfolding any_stray
stray_snoc id_of id xs a e h = any_snoc _ xs a ∙ ground (arith, ==_refl id)

outside_snoc :
    {A : Type 0} (scope_of : A → WorkloadReference) (enrolled : List WorkloadReference)
    (xs : List A) (a : A)
    → contains enrolled (scope_of a) ≡ true
    → any_outside scope_of enrolled xs ≡ false
    → any_outside scope_of enrolled (xs ++ a ∷ []) ≡ false
unfolding any_outside
outside_snoc scope_of enrolled xs a e h = any_snoc _ xs a ∙ ground arith

dangle_grow :
    (r : InvestigationRecord) (e : EvidenceObservation)
    → citations_dangle r ≡ false
    → citations_dangle (record r { evidence = r.evidence ++ e ∷ [] }) ≡ false
unfolding citations_dangle
dangle_grow r e h =
    let ids = evidence_ids r in
    let new : List String = e.evidence_id ∷ [] in
    let grow = λ (cs : List EvidenceCitation). any_uncited_grow ids new cs in
    rw map-append (
      ground (
        arith,
        any_weaken (λ (f : SpecialistFinding). any_uncited ids f.citations)
            (λ (f : SpecialistFinding). any_uncited (ids ++ new) f.citations) r.findings
            (λ f. grow f.citations),
        any_weaken (λ (x : RootCauseHypothesis). any_uncited ids x.citations)
            (λ (x : RootCauseHypothesis). any_uncited (ids ++ new) x.citations) r.hypotheses
            (λ x. grow x.citations),
      ))

module _ (id : String) (r : InvestigationRecord) (mine : r.incident.incident_id ≡ id) where
  pub append_alert_signal-returns :
      (s : AlertSignalEvidence) (r' : InvestigationRecord)
      → append_alert_signal id s r ≡ ok r'
      → (s.incident_id ≡ r.incident.incident_id)
        × (r' ≡ record r { alert_signals = r.alert_signals ++ s ∷ [] })
  unfolding append_alert_signal
  append_alert_signal-returns s r' h = ground (arith, ==_eq s.incident_id id)

  pub append_alert_signal-IsConsistent :
      (s : AlertSignalEvidence) (r' : InvestigationRecord)
      → append_alert_signal id s r ≡ ok r'
      → IsConsistent r
      → IsConsistent r'
  unfolding scope_escapes entries_stray citations_dangle
  append_alert_signal-IsConsistent s r' h c =
      let facts = append_alert_signal-returns s r' h in
      rw facts.1 (record {
        application = c.application;
        window = c.window;
        scoped = c.scoped;
        owned = ground (
          arith,
          stray_snoc (λ (x : AlertSignalEvidence). x.incident_id) r.incident.incident_id
              r.alert_signals s facts.0,
        );
        queried = c.queried;
        cited = c.cited;
        one_outcome = c.one_outcome;
        decided = c.decided;
        approvals_match = c.approvals_match;
        approvals_passed = c.approvals_passed;
        approved_once = c.approved_once;
        proposed = c.proposed;
        approved = c.approved;
        interventions_match = c.interventions_match;
        assessed = c.assessed;
      })

  pub append_evidence_retrieval_failure-returns :
      (f : EvidenceRetrievalFailure) (r' : InvestigationRecord)
      → append_evidence_retrieval_failure id f r ≡ ok r'
      → (f.incident_id ≡ r.incident.incident_id)
        × (r' ≡ record r { evidence_retrieval_failures = r.evidence_retrieval_failures ++ f ∷ [] })
  unfolding append_evidence_retrieval_failure
  append_evidence_retrieval_failure-returns f r' h = ground (arith, ==_eq f.incident_id id)

  pub append_evidence_retrieval_failure-IsConsistent :
      (f : EvidenceRetrievalFailure) (r' : InvestigationRecord)
      → append_evidence_retrieval_failure id f r ≡ ok r'
      → IsConsistent r
      → IsConsistent r'
  unfolding scope_escapes entries_stray citations_dangle
  append_evidence_retrieval_failure-IsConsistent f r' h c =
      let facts = append_evidence_retrieval_failure-returns f r' h in
      rw facts.1 (record {
        application = c.application;
        window = c.window;
        scoped = c.scoped;
        owned = ground (
          arith,
          stray_snoc (λ (x : EvidenceRetrievalFailure). x.incident_id) r.incident.incident_id
              r.evidence_retrieval_failures f facts.0,
        );
        queried = c.queried;
        cited = c.cited;
        one_outcome = c.one_outcome;
        decided = c.decided;
        approvals_match = c.approvals_match;
        approvals_passed = c.approvals_passed;
        approved_once = c.approved_once;
        proposed = c.proposed;
        approved = c.approved;
        interventions_match = c.interventions_match;
        assessed = c.assessed;
      })

  pub append_evidence_query-returns :
      (q : EvidenceQuery) (r' : InvestigationRecord)
      → append_evidence_query id q r ≡ ok r'
      → (q.incident_id ≡ r.incident.incident_id)
        × (contains (enrolled_workloads r.application_profile) q.target ≡ true)
        × (r' ≡ record r { evidence_queries = r.evidence_queries ++ q ∷ [] })
  unfolding append_evidence_query
  append_evidence_query-returns q r' h = ground (arith, ==_eq q.incident_id id)

  pub append_evidence_query-IsConsistent :
      (q : EvidenceQuery) (r' : InvestigationRecord)
      → append_evidence_query id q r ≡ ok r'
      → IsConsistent r
      → IsConsistent r'
  unfolding scope_escapes entries_stray citations_dangle
  append_evidence_query-IsConsistent q r' h c =
      let facts = append_evidence_query-returns q r' h in
      rw facts.2 (record {
        application = c.application;
        window = c.window;
        scoped = ground (
          arith,
          outside_snoc (λ (x : EvidenceQuery). x.target) (enrolled_workloads r.application_profile)
              r.evidence_queries q facts.1,
        );
        owned = ground (
          arith,
          stray_snoc (λ (x : EvidenceQuery). x.incident_id) r.incident.incident_id
              r.evidence_queries q facts.0,
        );
        queried =
            any_weaken _ _ r.evidence
              (λ e n.
                rw map-append
                  (lacks_query_grow (query_ids r) (q.query_id ∷ []) e.evidence_query_id n))
              c.queried;
        cited = c.cited;
        one_outcome = c.one_outcome;
        decided = c.decided;
        approvals_match = c.approvals_match;
        approvals_passed = c.approvals_passed;
        approved_once = c.approved_once;
        proposed = c.proposed;
        approved = c.approved;
        interventions_match = c.interventions_match;
        assessed = c.assessed;
      })

  pub append_evidence-returns :
      (e : EvidenceObservation) (r' : InvestigationRecord)
      → append_evidence id e r ≡ ok r'
      → (e.incident_id ≡ r.incident.incident_id)
        × (contains (enrolled_workloads r.application_profile) e.scope ≡ true)
        × (lacks_query (query_ids r) e.evidence_query_id ≡ false)
        × (r' ≡ record r { evidence = r.evidence ++ e ∷ [] })
  unfolding append_evidence
  append_evidence-returns e r' h = ground (arith, ==_eq e.incident_id id)

  pub append_evidence-IsConsistent :
      (e : EvidenceObservation) (r' : InvestigationRecord)
      → append_evidence id e r ≡ ok r'
      → IsConsistent r
      → IsConsistent r'
  unfolding scope_escapes entries_stray citations_dangle
  append_evidence-IsConsistent e r' h c =
      let facts = append_evidence-returns e r' h in
      rw facts.3 (record {
        application = c.application;
        window = c.window;
        scoped = ground (
          arith,
          outside_snoc (λ (x : EvidenceObservation). x.scope)
              (enrolled_workloads r.application_profile) r.evidence e facts.1,
        );
        owned = ground (
          arith,
          stray_snoc (λ (x : EvidenceObservation). x.incident_id) r.incident.incident_id r.evidence
              e facts.0,
        );
        queried = any_snoc _ r.evidence e ∙ ground arith;
        cited = dangle_grow r e c.cited;
        one_outcome = c.one_outcome;
        decided = c.decided;
        approvals_match = c.approvals_match;
        approvals_passed = c.approvals_passed;
        approved_once = c.approved_once;
        proposed = c.proposed;
        approved = c.approved;
        interventions_match = c.interventions_match;
        assessed = c.assessed;
      })

  pub append_audit_event-returns :
      (e : AuditEvent) (r' : InvestigationRecord)
      → append_audit_event id e r ≡ ok r'
      → (e.incident_id ≡ r.incident.incident_id) × (r' ≡ record r { audit_events = with_event r e })
  unfolding append_audit_event
  append_audit_event-returns e r' h = ground (arith, ==_eq e.incident_id id)

  pub append_audit_event-IsConsistent :
      (e : AuditEvent) (r' : InvestigationRecord)
      → append_audit_event id e r ≡ ok r'
      → IsConsistent r
      → IsConsistent r'
  unfolding scope_escapes entries_stray citations_dangle with_event
  append_audit_event-IsConsistent e r' h c =
      let facts = append_audit_event-returns e r' h in
      rw facts.1 (record {
        application = c.application;
        window = c.window;
        scoped = c.scoped;
        owned = ground (
          arith,
          stray_snoc (λ (x : AuditEvent). x.incident_id) r.incident.incident_id r.audit_events
              (record e { cursor = next_cursor r }) facts.0,
        );
        queried = c.queried;
        cited = c.cited;
        one_outcome = c.one_outcome;
        decided = c.decided;
        approvals_match = c.approvals_match;
        approvals_passed = c.approvals_passed;
        approved_once = c.approved_once;
        proposed = c.proposed;
        approved = c.approved;
        interventions_match = c.interventions_match;
        assessed = c.assessed;
      })

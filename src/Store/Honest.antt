-- ===== src/Store/Honest.antt =====
-- The stabilization counts of the records that calls can build.
use kubecouncil.Base.{ℕ, String, some, Bool-cases, inl, inr, ok, ◌≡◌, subst, arith, ◌==◌, string_eq}
use kubecouncil.Base.Dict.{lookup, insert, lookup-insert}
use kubecouncil.Domain.Enums.{IncidentLifecycle}
use kubecouncil.Domain.Recovery.{RecoveryAssessment}
use kubecouncil.Domain.Evidence.{AlertSignal, EvidenceWindow}
use kubecouncil.Domain.Profile.{ApplicationProfile}
use kubecouncil.Domain.Record.{AuditEvent, InvestigationRecord, all_entries_belong_to_the_incident}
use kubecouncil.Domain.Consistent.{accepted}
use kubecouncil.Binding.{Digest}
use kubecouncil.Store.Access.{Store, get}
use kubecouncil.Store.Create.{opened}
use kubecouncil.Store.Change.{
  Change, evidence, alert_signal, retrieval_failure, evidence_query, finding, model_invocation,
  audit_event, investigation, policy, approval, intervention, intervention_update, assessment,
  replacement, apply_change, execute,
}
use kubecouncil.Store.Valid
use kubecouncil.Store.Returns
use kubecouncil.Store.Invariant.{IsSound}
use kubecouncil.Store.Reachable.{
  IsReachable, empty, created, mutated, amend-returns, create-returns, IsReachable-IsWellFormed,
}
use kubecouncil.Store.Recover.{record_recovery_assessment}
use kubecouncil.Store.Stable.{
  IsHonest, IsStableRun, newest, windows_newest, record_recovery_assessment-IsHonest,
  resolved-IsStableRun,
}

-- The counts of every Intervention of the record are honest.
abbrev pub CountsWell : InvestigationRecord → Type 0
CountsWell r = (v : String) → IsHonest (windows_newest v r)

module _ (digest : Digest) (id : String) (r r' : InvestigationRecord) where
  apply_change-CountsWell :
      (c : Change)
      → IsSound id r
      → apply_change digest c id r ≡ ok r'
      → CountsWell r
      → CountsWell r'
  unfolding apply_change
  apply_change-CountsWell (evidence e) s h w =
      rw (Valid.append_evidence-returns id r s.keyed e r' h).3 w
  apply_change-CountsWell (alert_signal x) s h w =
      rw (Valid.append_alert_signal-returns id r s.keyed x r' h).1 w
  apply_change-CountsWell (retrieval_failure f) s h w =
      rw (Valid.append_evidence_retrieval_failure-returns id r s.keyed f r' h).1 w
  apply_change-CountsWell (evidence_query q) s h w =
      rw (Valid.append_evidence_query-returns id r s.keyed q r' h).2 w
  apply_change-CountsWell (finding f) s h w = rw (Returns.append_finding-returns id r r' f h).0 w
  apply_change-CountsWell (model_invocation m) s h w =
      rw (Returns.append_model_invocation-returns id r r' m h).0 w
  apply_change-CountsWell (audit_event e) s h w =
      rw (Valid.append_audit_event-returns id r s.keyed e r' h).1 w
  apply_change-CountsWell (investigation o) s h w =
      rw (Returns.complete_investigation-returns id r r' o h).4 w
  apply_change-CountsWell (policy d) s h w =
      rw (Returns.record_policy_decision-returns id r r' d h).4 w
  apply_change-CountsWell (approval now n a e) s h w =
      rw (Returns.record_approval_decision-returns id r r' digest now n a e h).4 w
  apply_change-CountsWell (intervention n v e) s h w =
      rw (Returns.record_intervention-returns id r r' n v e h).8 w
  apply_change-CountsWell (intervention_update v e) s h w =
      rw (Returns.update_intervention-returns id r r' v e h).9 w
  apply_change-CountsWell (assessment n a e) s h w =
      λ v. record_recovery_assessment-IsHonest id n a e r r' v h (w v)
  apply_change-CountsWell (replacement n i) s h w =
      rw (Returns.compare_and_set-returns id r r' n i h).4 w

-- Every record of the store has honest counts.
abbrev AllCountWell : Store → Type 0
AllCountWell store = (id : String) (r : InvestigationRecord) → get store id ≡ some r → CountsWell r

insert-AllCountWell :
    (store : Store) (id : String) (r : InvestigationRecord)
    → AllCountWell store
    → CountsWell r
    → AllCountWell (insert id r store)
unfolding get
insert-AllCountWell store id r w s j t found = elim (Bool-cases (id == j)) [
  | inl same ↦ let p : r ≡ t = ground (arith, lookup-insert id j r store) in subst CountsWell p s
  | inr other ↦ w j t (ground (arith, lookup-insert id j r store))
]

opened-CountsWell :
    (p : ApplicationProfile) (s : AlertSignal) (id : String) (w : EvidenceWindow)
    (r : InvestigationRecord)
    → all_entries_belong_to_the_incident (opened p s id w) ≡ ok r
    → CountsWell r
unfolding opened newest
opened-CountsWell p s id w r h = rw (accepted (opened p s id w) r h).0 (λ v. tt)

IsReachable-AllCountWell :
    (digest : Digest) (store : Store) → IsReachable digest store → AllCountWell store
unfolding get lookup execute
IsReachable-AllCountWell digest store (empty) = λ id r found. cc
IsReachable-AllCountWell digest store
      (created {store = old} {store' = new} {r} p s id window_id before e) =
    let (sound, blank, written) = create-returns old new p s id window_id r e in
    rw written (
      insert-AllCountWell old id r (IsReachable-AllCountWell digest old before)
        (opened-CountsWell p s id blank.0 r blank.1))
IsReachable-AllCountWell digest store (mutated {store = old} {store' = new} {r} c id before e) =
    let (t, found, changed, written) = amend-returns (apply_change digest c id) old id new r e in
    rw written (
      insert-AllCountWell old r.incident.incident_id r (IsReachable-AllCountWell digest old before)
        (apply_change-CountsWell digest id t r c
          (IsReachable-IsWellFormed digest old before id t found) changed
          (IsReachable-AllCountWell digest old before id t found)))

-- In a store that calls built from the empty one: when recording an assessment resolves the
-- incident, the newest windows of the assessed Intervention, as many as the profile requires, are
-- all satisfied, and each begins where the one before it ended.
pub resolved_when_stable :
    (digest : Digest) (store : Store) (id : String) (n : ℕ) (a : RecoveryAssessment)
    (e : AuditEvent) (r r' : InvestigationRecord)
    → IsReachable digest store
    → get store id ≡ some r
    → record_recovery_assessment id n a e r ≡ ok r'
    → r'.incident.lifecycle ≡ IncidentLifecycle.resolved
    → IsStableRun r.application_profile.recovery_criteria.required_stable_windows
        (windows_newest a.intervention_id r')
resolved_when_stable digest store id n a e r r' reach found h =
    resolved-IsStableRun id n a e r r' h
      (IsReachable-AllCountWell digest store reach id r found a.intervention_id)

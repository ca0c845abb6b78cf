-- ===== src/Store/Versions.antt =====
-- Optimistic concurrency: the mutations that name the version that they expect.
use kubecouncil.Base.{ℕ, ◌+◌, String, Option, none, some, [], ◌∷◌, ok, ◌≡◌, ◌∙◌, ap, arith}
use kubecouncil.Domain.Authority.{Approval}
use kubecouncil.Domain.Evidence.{Instant}
use kubecouncil.Domain.Recovery.{RecoveryAssessment}
use kubecouncil.Domain.Record.{AuditEvent, InvestigationRecord}
use kubecouncil.Binding.{Digest}
use kubecouncil.Store.Decide.{record_approval_decision}
use kubecouncil.Store.Recover.{check_assessment}
use kubecouncil.Store.Change.{Change, approval, intervention, assessment, replacement, apply_change}
use kubecouncil.Store.Returns
use kubecouncil.Store.Extends.{Extends}

-- The version that a mutation expects, for those that take one.
abbrev pub expected_version : Change → Option ℕ
expected_version (approval _ n _ _) = some n
expected_version (intervention n _ _) = some n
expected_version (assessment n _ _) = some n
expected_version (replacement n _) = some n
expected_version _ = none

assessment_version :
    (id : String) (n : ℕ) (a : RecoveryAssessment) (e : AuditEvent) (r : InvestigationRecord)
    → check_assessment id n a e r ≡ ok tt
    → r.incident.version ≡ n
unfolding check_assessment
assessment_version id n a e r h = ground arith

module _ (digest : Digest) (id : String) (r r' : InvestigationRecord) where
  -- A versioned mutation that returns found the version that it expected, and raised it by one.
  pub reads_version :
      (c : Change) (n : ℕ)
      → expected_version c ≡ some n
      → apply_change digest c id r ≡ ok r'
      → (r.incident.version ≡ n) × (r'.incident.version ≡ n + 1)
  unfolding apply_change
  reads_version (approval now m a e) n p h =
      let facts = Returns.record_approval_decision-returns id r r' digest now m a e h in
      let q : m ≡ n = cc p in
      (
        facts.0 ∙ q,
        ap (λ (x : InvestigationRecord). x.incident.version) facts.4 ∙ omega (arith, facts.0, q),
      )
  reads_version (intervention m v e) n p h =
      let facts = Returns.record_intervention-returns id r r' m v e h in
      let q : m ≡ n = cc p in
      (
        facts.0 ∙ q,
        ap (λ (x : InvestigationRecord). x.incident.version) facts.8 ∙ omega (arith, facts.0, q),
      )
  reads_version (assessment m a e) n p h =
      let facts = Returns.record_recovery_assessment-returns id r r' m a e h in
      let q : m ≡ n = cc p in
      (
        assessment_version id m a e r facts.0 ∙ q,
        ap (λ (x : InvestigationRecord). x.incident.version) facts.4
            ∙ omega (arith, assessment_version id m a e r facts.0, q),
      )
  reads_version (replacement m i) n p h =
      let facts = Returns.compare_and_set-returns id r r' m i h in
      let q : m ≡ n = cc p in
      (
        facts.0 ∙ q,
        ap (λ (x : InvestigationRecord). x.incident.version) facts.4 ∙ omega (arith, facts.0, q),
      )
  reads_version _ n p h = cc p

module _ (digest : Digest) (id : String) (r r' s s' : InvestigationRecord) where
  -- Two mutations that expect the same version never both return: when one has, the other does
  -- not return on any record that extends the result of the first.
  pub stale_version_refused :
      (c d : Change) (n : ℕ)
      → expected_version c ≡ some n
      → expected_version d ≡ some n
      → apply_change digest c id r ≡ ok r'
      → Extends r' s
      → ¬ (apply_change digest d id s ≡ ok s')
  stale_version_refused c d n p q first later second = absurd (
      omega (
        arith,
        reads_version digest id r r' c n p first,
        reads_version digest id s s' d n q second,
        later.version,
      ))

  -- A proposal is decided once: after a decision was recorded, no decision is recorded on any
  -- record that extends the result, whatever version it names.
  pub decided_once :
      (now later : Instant) (m n : ℕ) (a b : Approval) (e f : AuditEvent)
      → record_approval_decision digest now id m a e r ≡ ok r'
      → Extends r' s
      → ¬ (record_approval_decision digest later id n b f s ≡ ok s')
  decided_once now later m n a b e f first after second =
      let one = Returns.record_approval_decision-returns id r r' digest now m a e first in
      let two = Returns.record_approval_decision-returns id s s' digest later n b f second in
      let kept : r'.approvals ≡ a ∷ [] = ap (λ (x : InvestigationRecord). x.approvals) one.4 in
      cc (kept, after.approvals_kept (λ none_yet. cc (kept, none_yet)), two.1)

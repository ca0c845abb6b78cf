-- ===== src/Policy/Record.antt =====
-- `DeterministicProposalPolicy.evaluate_and_record`, on the store and what is outside it.
use Prim.Native.String.{◌++◌ as ◌<>◌}
use kubecouncil.Base.{
  String, not, Option, none, some, List, [], ◌∷◌, map, filter, err, ok, policy_error, ◌==◌,
  if◌then◌else◌,
}
use kubecouncil.Base.Effects.{Effect, lift, read, attempt, ◌>>=◌, ◌>>◌, zoom}
use kubecouncil.Domain.Enums.{PolicyStatus, PolicyCheckCode, policy_status_eq}
use kubecouncil.Domain.Evidence.{Instant}
use kubecouncil.Domain.Policy.{PolicyCheck, PolicyDecision, RemediationProposal}
use kubecouncil.Domain.Record.{AuditEvent, InvestigationRecord}
use kubecouncil.Binding.{Digest}
use kubecouncil.Store.Access.{Store, get}
use kubecouncil.Store.Change.{Change, policy, audit_event, execute}
use kubecouncil.Policy.Outside.{PolicyKubernetes}
use kubecouncil.Policy.Evaluate.{evaluate}

pub record World (E : Type 0) : Type 0 where
  pub store : Store
  pub outside : E

abbrev pub code_value : PolicyCheckCode → String
code_value PolicyCheckCode.proposal_scoped = "proposal_scoped"
code_value PolicyCheckCode.evidence_current = "evidence_current"
code_value PolicyCheckCode.enrollment_ready = "enrollment_ready"
code_value PolicyCheckCode.target_enrolled = "target_enrolled"
code_value PolicyCheckCode.target_executable = "target_executable"
code_value PolicyCheckCode.action_allowed = "action_allowed"
code_value PolicyCheckCode.live_state_available = "live_state_available"
code_value PolicyCheckCode.no_active_intervention = "no_active_intervention"
code_value PolicyCheckCode.revision_available = "revision_available"
code_value PolicyCheckCode.restoration_safe = "restoration_safe"
code_value PolicyCheckCode.replica_bounds = "replica_bounds"
code_value PolicyCheckCode.replica_quota = "replica_quota"
code_value PolicyCheckCode.patch_shape = "patch_shape"
code_value PolicyCheckCode.server_dry_run = "server_dry_run"

abbrev pub status_value : PolicyStatus → String
status_value PolicyStatus.passed = "passed"
status_value PolicyStatus.rejected = "rejected"
status_value PolicyStatus.dry_run_failed = "dry_run_failed"

-- `",".join(…)`
unfoldable pub join_commas : List String → String
join_commas [] = ""
join_commas (a ∷ []) = a
join_commas (a ∷ b ∷ bs) = a <> ("," <> join_commas (b ∷ bs))

unfoldable pub failed_codes : PolicyDecision → List String
failed_codes d =
    map (λ (c : PolicyCheck). code_value c.code)
      (filter (λ (c : PolicyCheck). not c.passed) d.checks)

unfoldable pub decision_event : String → String → Instant → PolicyDecision → AuditEvent
decision_event incident_id token now d = record {
  event_id = "audit-" <> token;
  incident_id = incident_id;
  event_type =
      if d.status == PolicyStatus.passed
      then "proposal_policy_passed"
      else "proposal_policy_rejected";
  occurred_at = now;
  actor = "deterministic-policy-engine";
  details =
      ("proposal_id", d.proposal_id)
      ∷ ("status", status_value d.status)
      ∷ ("failed_checks", join_commas (failed_codes d))
      ∷ [];
  cursor = 0;
}

module _ {E : Type 0} where
  unfoldable pub call_outside : {A : Type 0} → Effect E A → Effect (World E) A
  call_outside = zoom (λ w. w.outside) (λ outside w. record w { outside = outside })

  unfoldable pub call_store : Digest → Change → String → Effect (World E) InvestigationRecord
  call_store digest change incident_id =
      zoom (λ w. w.store) (λ store w. record w { store = store })
        (attempt (execute digest change incident_id))

module _ {E : Type 0} (digest : Digest) (outside : PolicyKubernetes E) where
  -- After the tests of the record.
  unfoldable pub record_decision :
      String → InvestigationRecord → RemediationProposal → Effect (World E) InvestigationRecord
  record_decision incident_id r p = do
    d ← call_outside (evaluate digest outside r p)
    call_store digest (policy d) incident_id
    token ← call_outside outside.uuid4_hex
    now ← call_outside outside.utc_now
    call_store digest (audit_event (decision_event incident_id token now d)) incident_id

  abbrev pub record_proposal :
      String
      → InvestigationRecord
      → Option RemediationProposal
      → Effect (World E) InvestigationRecord
  record_proposal incident_id r none = lift (ok r)
  record_proposal incident_id r (some p) = record_decision incident_id r p

  abbrev pub record_found :
      String → Option InvestigationRecord → Effect (World E) InvestigationRecord
  record_found incident_id none = lift (err (policy_error "incident does not exist"))
  record_found incident_id (some r) = record_proposal incident_id r r.proposal

  unfoldable pub evaluate_and_record : String → Effect (World E) InvestigationRecord
  evaluate_and_record incident_id = do
    found ← read (λ (w : World E). get w.store incident_id)
    record_found incident_id found

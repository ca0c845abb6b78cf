-- ===== src/Store/Extends.antt =====
-- What a later state of a record keeps of an earlier one.
use kubecouncil.Base.{
  ◌≤◌, none, some, List, [], ◌∷◌, ◌++◌, map, ok, ◌≡◌, ◌≢◌, ◌∙◌, sym, ap, refl, arith, Bool-cases,
  Result-cases, inl, inr, ◌==◌, string_eq, ==_eq,
}
use mathlib.Core.List.{append-nil, append_assoc}
use kubecouncil.Domain.Authority.{Intervention}
use kubecouncil.Domain.Policy.{PolicyDecision}
use kubecouncil.Domain.Enums.{IncidentLifecycle}
use kubecouncil.Domain.Lifecycle.{Incident, transition_incident}
use kubecouncil.Domain.Record.{AuditEvent, InvestigationRecord, intervention_ids}
use kubecouncil.Store.Access.{next_cursor, with_event}
use kubecouncil.Store.Decide.{incident_after_policy}
use kubecouncil.Store.Intervene.{put_intervention}

-- The second list goes on where the first ends.
abbrev pub IsPrefix {ℓ} : {A : Type ℓ} → List A → List A → Type ℓ
IsPrefix {A} xs ys = (rest : List A) × (ys ≡ xs ++ rest)

pub same {ℓ} : {A : Type ℓ} (xs : List A) → IsPrefix xs xs
same xs = ([], sym (append-nil xs))

pub IsPrefix-trans {ℓ} :
    {A : Type ℓ} (xs ys zs : List A) → IsPrefix xs ys → IsPrefix ys zs → IsPrefix xs zs
IsPrefix-trans xs ys zs (p, e) (q, f) = (p ++ q, f ∙ ap (λ t. t ++ q) e ∙ append_assoc xs p q)

-- The record r' is a later state of r. Nothing is said of the hypotheses, the proposal and the
-- guidance, which a new investigation may replace, or of the state of an Intervention.
pub record Extends (r r' : InvestigationRecord) : Type 0 where
  pub profile : r'.application_profile ≡ r.application_profile
  pub window : r'.evidence_window ≡ r.evidence_window
  pub alert_signals : IsPrefix r.alert_signals r'.alert_signals
  pub evidence : IsPrefix r.evidence r'.evidence
  pub evidence_retrieval_failures :
      IsPrefix r.evidence_retrieval_failures r'.evidence_retrieval_failures
  pub evidence_queries : IsPrefix r.evidence_queries r'.evidence_queries
  pub findings : IsPrefix r.findings r'.findings
  pub model_invocations : IsPrefix r.model_invocations r'.model_invocations
  pub recovery_assessments : IsPrefix r.recovery_assessments r'.recovery_assessments
  pub audit_events : IsPrefix r.audit_events r'.audit_events
  pub interventions : IsPrefix (intervention_ids r) (intervention_ids r')
  pub policy_kept : (d : PolicyDecision) → r.policy_decision ≡ some d → r'.policy_decision ≡ some d
  pub approvals_kept : r.approvals ≢ [] → r'.approvals ≡ r.approvals
  pub version : r.incident.version ≤ r'.incident.version

pub event_added :
    (r : InvestigationRecord) (e : AuditEvent) → IsPrefix r.audit_events (with_event r e)
unfolding with_event
event_added r e = ((record e { cursor = next_cursor r }) ∷ [], refl)

-- Ending an Intervention replaces it under the same id.
pub put_ids :
    (v : Intervention) (vs : List Intervention)
    → map (λ (x : Intervention). x.intervention_id) (put_intervention v vs)
      ≡ map (λ (x : Intervention). x.intervention_id) vs
unfolding put_intervention
put_ids v [] = refl
put_ids v (x ∷ vs) = elim (Bool-cases (x.intervention_id == v.intervention_id)) [
  | inl e ↦ ground (arith, put_ids v vs, ==_eq x.intervention_id v.intervention_id e)
  | inr e ↦ ground (arith, put_ids v vs)
]

pub after_policy_version :
    (r : InvestigationRecord) (d : PolicyDecision) (j : Incident)
    → incident_after_policy r d ≡ ok j
    → r.incident.version ≤ j.version
unfolding incident_after_policy
after_policy_version r d j h =
    elim (Result-cases
      (transition_incident r.incident (some IncidentLifecycle.awaiting_approval) none none)) [
        | inl (k, e) ↦ ground arith
        | inr (x, e) ↦ ground arith
      ]

-- ===== src/Store/Create.antt =====
-- `create` and `list`.
use kubecouncil.Base.{
  ℕ, ltb, leb, ◌+◌, ◌-◌, String, none, some, List, [], ◌∷◌, map, not, Result, ok, err, ◌>>=◌, ◌>>◌,
  value_error, other_error, raise_if, ◌==◌, string_eq, contains, if◌then◌else◌,
}
use kubecouncil.Base.Dict.{insert}
use kubecouncil.Domain.Enums.{IncidentLifecycle, InvestigationOutcome, InterventionOutcome}
use kubecouncil.Domain.Profile.{
  ApplicationProfile, deployment, enrolled_workloads, workload_reference_eq,
}
use kubecouncil.Domain.Evidence.{Instant, AlertSignal, EvidenceWindow, minutes, is_time_ordered}
use kubecouncil.Domain.Record.{InvestigationRecord, all_entries_belong_to_the_incident}
use kubecouncil.Store.Access.{Store}

-- `t - timedelta(…)`: a datetime before `datetime.min` raises `OverflowError`.
unfoldable pub earlier : Instant → ℕ → Result Instant
earlier t d =
    if ltb t d then err (other_error "OverflowError" "date value out of range") else ok (t - d)

unfoldable pub window_start_of : ApplicationProfile → AlertSignal → Result Instant
window_start_of profile signal = elim signal.window_start [
  | some started_at ↦ ok started_at
  | none ↦ earlier signal.observed_at (minutes profile.evidence_budget.maximum_window_minutes)
]

abbrev pub window_end_of : AlertSignal → Instant
window_end_of signal = elim signal.window_end [ some t ↦ t | none ↦ signal.observed_at ]

-- The record of a new incident.
unfoldable pub opened :
    ApplicationProfile → AlertSignal → String → EvidenceWindow → InvestigationRecord
opened profile signal incident_id window = record {
  incident = record {
    incident_id = incident_id;
    application_id = profile.application_id;
    profile_version = profile.version;
    opened_at = signal.observed_at;
    lifecycle = IncidentLifecycle.open_;
    investigation_outcome = InvestigationOutcome.not_started;
    intervention_outcome = InterventionOutcome.not_started;
    version = 0;
    summary = signal.summary;
  };
  application_profile = profile;
  evidence_window = window;
  alert_signals = [];
  evidence = [];
  evidence_retrieval_failures = [];
  evidence_queries = [];
  findings = [];
  model_invocations = [];
  hypotheses = [];
  proposal = none;
  manual_guidance = none;
  policy_decision = none;
  approvals = [];
  interventions = [];
  recovery_assessments = [];
  audit_events = [];
}

-- `incident_id` and `window_id` carry the two fresh UUIDs.
unfoldable pub create :
    Store
    → ApplicationProfile
    → AlertSignal
    → String
    → String
    → Result (Store × InvestigationRecord)
create store profile signal incident_id window_id = do
  raise_if (not (signal.application_id == profile.application_id))
      (value_error "alert signal application is not enrolled by the supplied profile")
  raise_if (not (contains profile.namespaces signal.namespace))
      (value_error "alert signal namespace is not enrolled by the supplied profile")
  raise_if
      (not (
        contains (enrolled_workloads profile) (record {
          namespace = signal.namespace;
          name = signal.workload_name;
          kind = deployment;
        })))
      (value_error "alert signal workload is not enrolled by the supplied profile")
  started_at ← window_start_of profile signal
  raise_if
      (ltb (started_at + minutes profile.evidence_budget.maximum_window_minutes)
        (window_end_of signal))
      (value_error "alert window exceeds the application profile evidence budget")
  window ← is_time_ordered (record {
    window_id = window_id;
    incident_id = incident_id;
    started_at = started_at;
    ended_at = window_end_of signal;
    captured_at = signal.observed_at;
  })
  r ← all_entries_belong_to_the_incident (opened profile signal incident_id window)
  ok (insert incident_id r store, r)

-- `sorted(…, key=opened_at, reverse=True)`, which keeps the order of equals.
unfoldable pub insert_newest :
    InvestigationRecord → List InvestigationRecord → List InvestigationRecord
insert_newest r [] = r ∷ []
insert_newest r (s ∷ rest) =
    let later = s ∷ insert_newest r rest in
    if leb s.incident.opened_at r.incident.opened_at then r ∷ s ∷ rest else later

unfoldable pub newest_first : List InvestigationRecord → List InvestigationRecord
newest_first [] = []
newest_first (r ∷ rest) = insert_newest r (newest_first rest)

-- The method `list`.
unfoldable pub list : Store → List InvestigationRecord
unfolding newest_first insert_newest
list store = newest_first (map (λ entry. entry.1) store)

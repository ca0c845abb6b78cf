-- ===== src/Tests/Data.antt =====
-- The Online Boutique profile of the repository's fakes, cut to one workload, and an incident.
use kubecouncil.Base.{String, true, false, none, some, [], ◌∷◌}
use kubecouncil.Base.Json.{null}
use kubecouncil.Domain.Enums.{
  important, IncidentLifecycle, InvestigationOutcome, InterventionOutcome, PolicyStatus,
  PolicyCheckCode, ApprovalDecision,
}
use kubecouncil.Domain.Profile.{
  ApplicationProfile, WorkloadReference, deployment, scale_deployment, RecoveryCriteria,
}
use kubecouncil.Domain.Evidence.{AlertSignal, EvidenceWindow}
use kubecouncil.Domain.Policy.{
  RemediationProposal, PolicyDecision, DeploymentPatch, DeploymentPolicyState, scale,
}
use kubecouncil.Domain.Authority.{Approval}
use kubecouncil.Domain.Lifecycle.{Incident}
use kubecouncil.Domain.Record.{AuditEvent, InvestigationRecord}
use kubecouncil.Binding.{Digest}

abbrev pub target : WorkloadReference
target = record { namespace = "online-boutique"; name = "recommendationservice"; kind = deployment }

abbrev pub criteria : RecoveryCriteria
criteria = record {
  critical_journey_name = "checkout";
  required_stable_windows = 2;
  stabilization_window_seconds = 60;
  allow_synthetic_availability_fallback = false;
}

abbrev pub profile : ApplicationProfile
profile = record {
  application_id = "online-boutique";
  display_name = "Online Boutique";
  version = "v1";
  namespace = "online-boutique";
  namespaces = "online-boutique" ∷ [];
  investigator_identity = "serviceaccount:kubecouncil:investigator";
  investigator_role = "investigator-read";
  executor_identity = "serviceaccount:kubecouncil:executor";
  executor_role = "executor-write";
  workloads =
      record {
        reference = target;
        criticality = important;
        replica_bounds = record { minimum = 1; maximum = 5 };
        executable = true;
        protected_dependency = false;
        allowed_actions = scale_deployment ∷ [];
        dependencies = [];
      }
      ∷ [];
  critical_journeys =
      record {
        name = "checkout";
        success_rate_minimum = 99;
        p95_latency_ms_maximum = 1500;
        minimum_request_count = 100;
        synthetic_probe = none;
      }
      ∷ [];
  alert_mappings = [];
  evidence_mappings = [];
  observability_links = [];
  evidence_budget = record {
    maximum_queries_per_specialist = 2;
    maximum_log_lines = 100;
    maximum_metric_series = 20;
    maximum_window_minutes = 30;
  };
  recovery_criteria = criteria;
}

abbrev pub signal : AlertSignal
signal = record {
  signal_id = "signal-1";
  application_id = "online-boutique";
  namespace = "online-boutique";
  workload_name = "recommendationservice";
  workload_namespace = "online-boutique";
  summary = "checkout fails";
  observed_at = 9000000000;
  window_start = none;
  window_end = none;
  provider_incident_id = none;
}

abbrev pub incident : Incident
incident = record {
  incident_id = "inc-1";
  application_id = "online-boutique";
  profile_version = "v1";
  opened_at = 9000000000;
  lifecycle = IncidentLifecycle.open_;
  investigation_outcome = InvestigationOutcome.not_started;
  intervention_outcome = InterventionOutcome.not_started;
  version = 0;
  summary = "checkout fails";
}

abbrev pub window : EvidenceWindow
window = record {
  window_id = "window-1";
  incident_id = "inc-1";
  started_at = 7200000000;
  ended_at = 9000000000;
  captured_at = 9000000000;
}

-- The record of the incident when it is created.
abbrev pub first_record : InvestigationRecord
first_record = record {
  incident = incident;
  application_profile = profile;
  evidence_window = window;
  alert_signals = [];
  evidence = [];
  evidence_retrieval_failures = [];
  evidence_queries = [];
  findings = [];
  model_invocations = [];
  hypotheses = [];
  proposal = none;
  manual_guidance = none;
  policy_decision = none;
  approvals = [];
  interventions = [];
  recovery_assessments = [];
  audit_events = [];
}

abbrev pub event : String → String → AuditEvent
event event_id event_type = record {
  event_id = event_id;
  incident_id = "inc-1";
  event_type = event_type;
  occurred_at = 9000000000;
  actor = "local-operator";
  details = [];
  cursor = 0;
}

abbrev pub proposal : RemediationProposal
proposal = record {
  proposal_id = "proposal-1";
  incident_id = "inc-1";
  action = scale (record { target = target; replicas = 3 });
  expected_impact = "more capacity";
  recovery_criteria = criteria;
  rollback_strategy = "scale back";
  evidence_hash = "evidence-hash";
  known_risks = [];
}

abbrev pub patch : DeploymentPatch
patch = record {
  action_type = scale_deployment;
  target = target;
  resource_version = "42";
  body = null;
}

abbrev pub decision : PolicyDecision
decision = record {
  incident_id = "inc-1";
  proposal_id = "proposal-1";
  status = PolicyStatus.passed;
  checks =
      record {
        code = PolicyCheckCode.proposal_scoped;
        passed = true;
        message = "Proposal belongs to this Incident.";
      }
      ∷ [];
  evaluated_at = 9100000000;
  workload_resource_version = some "42";
  workload_generation = some 8;
  workload_revision = some 8;
  patch = some patch;
  dry_run_diff = some "replicas 2 -> 3";
  rejection_reason = none;
}

abbrev pub state : DeploymentPolicyState
state = record {
  target = target;
  resource_version = "42";
  generation = 8;
  replicas = 2;
  current_revision = 8;
  available_revisions = [];
  active_intervention = false;
  replica_quota_headroom = 3;
}

-- The record whose proposal passed policy and awaits a human.
abbrev pub reviewed_record : InvestigationRecord
reviewed_record = record first_record {
  incident = record incident {
    lifecycle = IncidentLifecycle.awaiting_approval;
    investigation_outcome = InvestigationOutcome.proposal_ready;
    version = 2;
  };
  proposal = some proposal;
  policy_decision = some decision;
}

-- A digest that tells nothing apart: the runs need no more.
abbrev pub digest : Digest
digest = record { dumps = λ m. "material"; hexdigest = λ s. "00000000000000000000000000000000" }

abbrev pub approval : Approval
approval = record {
  approval_id = "approval-1";
  incident_id = "inc-1";
  proposal_id = "proposal-1";
  responder_principal = "responder";
  decision = ApprovalDecision.approved;
  decided_at = 9200000000;
  expires_at = 9500000000;
  proposal_hash = "00000000000000000000000000000000";
  evidence_hash = "00000000000000000000000000000000";
  workload_resource_version = "42";
  workload_generation = 8;
  workload_revision = 8;
  policy_hash = "00000000000000000000000000000000";
  dry_run_hash = "00000000000000000000000000000000";
  recovery_criteria_hash = "00000000000000000000000000000000";
  failure_strategy_hash = "00000000000000000000000000000000";
}

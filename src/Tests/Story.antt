-- ===== src/Tests/Story.antt =====
-- One incident from its first alert to its recovery: the record after each call.
use kubecouncil.Base.{ℕ, String, true, false, none, some, [], ◌∷◌}
use kubecouncil.Domain.Enums.{
  IncidentLifecycle, InvestigationOutcome, InterventionOutcome, InterventionState,
}
use kubecouncil.Domain.Policy.{CoordinatorOutput}
use kubecouncil.Domain.Authority.{Intervention}
use kubecouncil.Domain.Recovery.{RecoveryAssessment}
use kubecouncil.Domain.Record.{AuditEvent, InvestigationRecord}
use kubecouncil.Tests.Data.{target, first_record, event, proposal, reviewed_record, approval}

abbrev pub output : CoordinatorOutput
output = record {
  outcome = InvestigationOutcome.proposal_ready;
  hypotheses = [];
  proposal = some proposal;
  manual_guidance = none;
}

abbrev pub investigated_record : InvestigationRecord
investigated_record = record first_record {
  incident = record (first_record.incident) {
    lifecycle = IncidentLifecycle.investigating;
    investigation_outcome = InvestigationOutcome.proposal_ready;
    version = 1;
  };
  proposal = some proposal;
}

abbrev pub numbered : String → String → ℕ → AuditEvent
numbered id kind n = record (event id kind) { cursor = n }

abbrev pub approved_record : InvestigationRecord
approved_record = record reviewed_record {
  incident = record (reviewed_record.incident) { version = 3 };
  approvals = approval ∷ [];
  audit_events = numbered "event-1" "approval_recorded" 1 ∷ [];
}

abbrev pub claimed : Intervention
claimed = record {
  intervention_id = "intervention-1";
  incident_id = "inc-1";
  proposal_id = "proposal-1";
  approval_id = "approval-1";
  target = target;
  state = InterventionState.running;
  requested_at = 9300000000;
  idempotency_key = "key-1";
}

abbrev pub done : Intervention
done = record claimed { state = InterventionState.succeeded }

abbrev pub claimed_record : InvestigationRecord
claimed_record = record approved_record {
  incident = record (approved_record.incident) {
    lifecycle = IncidentLifecycle.mitigating;
    version = 4;
  };
  interventions = claimed ∷ [];
  audit_events =
      numbered "event-1" "approval_recorded" 1 ∷ numbered "event-2" "intervention_claimed" 2 ∷ [];
}

abbrev pub monitored_record : InvestigationRecord
monitored_record = record claimed_record {
  incident = record (claimed_record.incident) {
    lifecycle = IncidentLifecycle.monitoring;
    intervention_outcome = InterventionOutcome.monitoring;
    version = 5;
  };
  interventions = done ∷ [];
  audit_events =
      numbered "event-1" "approval_recorded" 1
      ∷ numbered "event-2" "intervention_claimed" 2
      ∷ numbered "event-3" "intervention_succeeded" 3
      ∷ [];
}

-- A satisfied window of one minute.
abbrev pub window_at : ℕ → ℕ → ℕ → RecoveryAssessment
window_at started_at ended_at stable_windows = record {
  incident_id = "inc-1";
  intervention_id = "intervention-1";
  window_started_at = started_at;
  window_ended_at = ended_at;
  observed_at = ended_at;
  generation = 9;
  observed_generation = 9;
  active_revision = 8;
  desired_replicas = 3;
  updated_replicas = 3;
  available_replicas = 3;
  unavailable_replicas = 0;
  oom_terminations = 0;
  restart_delta = 0;
  kubernetes_converged = true;
  symptoms_cleared = true;
  journey_name = "checkout";
  criteria_satisfied = true;
  request_count = 200;
  success_rate = some 100;
  p95_latency_ms = some 300;
  traffic_sufficient = true;
  availability_satisfied = true;
  latency_satisfied = true;
  synthetic_probe_used = false;
  synthetic_probe_successes = none;
  sufficient_evidence = true;
  stable_windows = stable_windows;
  required_stable_windows = 2;
  explanation = "all checks pass";
}

abbrev pub window_1 : RecoveryAssessment
window_1 = window_at 9400000000 9460000000 1

abbrev pub window_2 : RecoveryAssessment
window_2 = window_at 9460000000 9520000000 2

abbrev pub watched_record : InvestigationRecord
watched_record = record monitored_record {
  incident = record (monitored_record.incident) { version = 6 };
  recovery_assessments = window_1 ∷ [];
  audit_events =
      numbered "event-1" "approval_recorded" 1
      ∷ numbered "event-2" "intervention_claimed" 2
      ∷ numbered "event-3" "intervention_succeeded" 3
      ∷ numbered "event-4" "recovery_window_satisfied" 4
      ∷ [];
}

abbrev pub resolved_record : InvestigationRecord
resolved_record = record watched_record {
  incident = record (watched_record.incident) {
    lifecycle = IncidentLifecycle.resolved;
    intervention_outcome = InterventionOutcome.succeeded;
    version = 7;
  };
  recovery_assessments = window_1 ∷ window_2 ∷ [];
  audit_events =
      numbered "event-1" "approval_recorded" 1
      ∷ numbered "event-2" "intervention_claimed" 2
      ∷ numbered "event-3" "intervention_succeeded" 3
      ∷ numbered "event-4" "recovery_window_satisfied" 4
      ∷ numbered "event-5" "recovery_stabilized" 5
      ∷ [];
}

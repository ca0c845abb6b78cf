-- ===== src/Domain/Recovery.antt =====
-- Recovery observations and the assessment of one window.
use kubecouncil.Base.{
  ℕ, String, Bool, not, ◌&&◌, Option, Result, ok, ◌>>◌, value_error, raise_if, leb, ltb, eqb,
  is_some, is_none,
}
use kubecouncil.Domain.Evidence.{Instant}
use kubecouncil.Domain.Profile.{WorkloadReference, Rate}

pub record DeploymentRecoveryObservation : Type 0 where
  pub target : WorkloadReference
  pub generation : ℕ
  pub observed_generation : ℕ
  pub active_revision : ℕ
  pub desired_replicas : ℕ
  pub updated_replicas : ℕ
  pub available_replicas : ℕ
  pub unavailable_replicas : ℕ
  pub oom_terminations : ℕ
  pub restart_delta : ℕ

pub record CriticalJourneyObservation : Type 0 where
  pub journey_name : String
  pub request_count : ℕ
  pub success_rate : Option Rate
  pub p95_latency_ms : Option ℕ
  pub healthy_baseline_success_rate : Rate
  pub healthy_baseline_p95_latency_ms : ℕ

pub record RecoveryObservation : Type 0 where
  pub deployment : DeploymentRecoveryObservation
  pub journey : CriticalJourneyObservation

pub record SyntheticProbeObservation : Type 0 where
  pub probe_name : String
  pub attempts : ℕ
  pub successes : ℕ

pub record RecoveryAssessment : Type 0 where
  pub incident_id : String
  pub intervention_id : String
  pub window_started_at : Instant
  pub window_ended_at : Instant
  pub observed_at : Instant
  pub generation : ℕ
  pub observed_generation : ℕ
  pub active_revision : ℕ
  pub desired_replicas : ℕ
  pub updated_replicas : ℕ
  pub available_replicas : ℕ
  pub unavailable_replicas : ℕ
  pub oom_terminations : ℕ
  pub restart_delta : ℕ
  pub kubernetes_converged : Bool
  pub symptoms_cleared : Bool
  pub journey_name : String
  pub criteria_satisfied : Bool
  pub request_count : ℕ
  pub success_rate : Option Rate
  pub p95_latency_ms : Option ℕ
  pub traffic_sufficient : Bool
  pub availability_satisfied : Bool
  pub latency_satisfied : Bool
  pub synthetic_probe_used : Bool
  pub synthetic_probe_successes : Option ℕ
  pub sufficient_evidence : Bool
  pub stable_windows : ℕ
  pub required_stable_windows : ℕ
  pub explanation : String

-- The validator of `RecoveryAssessment`.
unfoldable pub is_a_consistent_window_assessment : RecoveryAssessment → Result RecoveryAssessment
is_a_consistent_window_assessment a = do
  raise_if (leb a.window_ended_at a.window_started_at)
      (value_error "recovery window end must follow its start")
  raise_if (ltb a.observed_at a.window_ended_at)
      (value_error "recovery assessment cannot precede its evidence window")
  raise_if (not a.criteria_satisfied && not (eqb a.stable_windows 0))
      (value_error "failed recovery criteria must reset stabilization progress")
  raise_if (a.criteria_satisfied && ltb a.stable_windows 1)
      (value_error "satisfied recovery criteria must advance stabilization")
  raise_if (a.criteria_satisfied && not a.sufficient_evidence)
      (value_error "recovery cannot pass with insufficient evidence")
  raise_if
      (a.criteria_satisfied
        && not (
            a.kubernetes_converged && a.symptoms_cleared && a.traffic_sufficient
            && a.availability_satisfied && a.latency_satisfied))
      (value_error "recovery cannot pass with a failed deterministic check")
  raise_if (a.synthetic_probe_used && is_none a.synthetic_probe_successes)
      (value_error "synthetic fallback must record its successful probe count")
  raise_if (not a.synthetic_probe_used && is_some a.synthetic_probe_successes)
      (value_error "probe results require synthetic fallback to be marked as used")
  ok a

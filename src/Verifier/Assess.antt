-- ===== src/Verifier/Assess.antt =====
-- The assessment of one window: its checks, its stabilization progress and its explanation.
use Prim.Native.String.{◌++◌ as ◌<>◌}
use kubecouncil.Base.{
  ℕ, eqb, leb, ltb, String, Bool, true, false, ◌&&◌, Option, none, some, List, [], ◌∷◌,
  if◌then◌else◌, is_some,
}
use kubecouncil.Domain.Evidence.{Instant}
use kubecouncil.Domain.Profile.{CriticalJourney}
use kubecouncil.Domain.Policy.{RemediationAction, rollback, scale, restart}
use kubecouncil.Domain.Authority.{Approval}
use kubecouncil.Domain.Recovery.{
  DeploymentRecoveryObservation, CriticalJourneyObservation, RecoveryObservation,
  SyntheticProbeObservation, RecoveryAssessment,
}
use kubecouncil.Domain.Record.{InvestigationRecord}
use kubecouncil.Store.Recover.{last_assessment, expected_stable_windows}
use kubecouncil.Verifier.Context.{Context}

unfoldable pub action_converged :
    RemediationAction → Approval → DeploymentRecoveryObservation → Bool
action_converged (rollback a) approval d = eqb d.active_revision a.revision
action_converged (scale a) approval d =
    eqb d.active_revision approval.workload_revision && eqb d.desired_replicas a.replicas
action_converged (restart a) approval d = ltb approval.workload_revision d.active_revision

unfoldable pub kubernetes_converged :
    RemediationAction → Approval → DeploymentRecoveryObservation → Bool
kubernetes_converged action approval d =
    ltb approval.workload_generation d.generation
    && eqb d.observed_generation d.generation
    && action_converged action approval d
    && eqb d.updated_replicas d.desired_replicas
    && eqb d.available_replicas d.desired_replicas
    && eqb d.unavailable_replicas 0

unfoldable pub symptoms_cleared : DeploymentRecoveryObservation → Bool
symptoms_cleared d = eqb d.oom_terminations 0 && eqb d.restart_delta 0

unfoldable pub traffic_sufficient : CriticalJourney → CriticalJourneyObservation → Bool
traffic_sufficient journey metrics = leb journey.minimum_request_count metrics.request_count

-- The locals that the two branches on the traffic set.
pub record JourneyEvidence : Type 0 where
  pub availability_satisfied : Bool
  pub latency_satisfied : Bool
  pub sufficient_evidence : Bool
  pub synthetic_probe_used : Bool
  pub synthetic_probe_successes : Option ℕ

unfoldable pub availability : CriticalJourney → CriticalJourneyObservation → Option ℕ → Bool
availability journey metrics none = false
availability journey metrics (some rate) =
    leb journey.success_rate_minimum rate && leb metrics.healthy_baseline_success_rate rate

unfoldable pub latency : CriticalJourney → CriticalJourneyObservation → Option ℕ → Bool
latency journey metrics none = false
latency journey metrics (some p95) =
    leb p95 journey.p95_latency_ms_maximum && leb p95 metrics.healthy_baseline_p95_latency_ms

unfoldable pub evidence_of_traffic : CriticalJourney → CriticalJourneyObservation → JourneyEvidence
evidence_of_traffic journey metrics = record {
  availability_satisfied = availability journey metrics metrics.success_rate;
  latency_satisfied = latency journey metrics metrics.p95_latency_ms;
  sufficient_evidence = is_some metrics.success_rate && is_some metrics.p95_latency_ms;
  synthetic_probe_used = false;
  synthetic_probe_successes = none;
}

abbrev pub no_evidence : JourneyEvidence
no_evidence = record {
  availability_satisfied = false;
  latency_satisfied = false;
  sufficient_evidence = false;
  synthetic_probe_used = false;
  synthetic_probe_successes = none;
}

unfoldable pub evidence_of_probe : SyntheticProbeObservation → JourneyEvidence
evidence_of_probe probe = record {
  availability_satisfied = eqb probe.successes probe.attempts;
  latency_satisfied = false;
  sufficient_evidence = false;
  synthetic_probe_used = true;
  synthetic_probe_successes = some probe.successes;
}

unfoldable pub failure_unless : Bool → String → List String → List String
failure_unless true failure rest = rest
failure_unless false failure rest = failure ∷ rest

-- `"; ".join(…)`
unfoldable pub join_failures : List String → String
join_failures [] = ""
join_failures (a ∷ []) = a
join_failures (a ∷ b ∷ bs) = a <> ("; " <> join_failures (b ∷ bs))

unfoldable pub explanation_of : Bool → List String → String
explanation_of probed [] =
    "Kubernetes, workload symptoms, and Critical Journey metrics satisfy recovery"
explanation_of probed (a ∷ as_) =
    join_failures (a ∷ as_)
    <> (if probed then "; synthetic probes established availability only" else "")

-- `_explain`
unfoldable pub explain : Bool → Bool → Bool → JourneyEvidence → String
explain converged cleared traffic e = explanation_of e.synthetic_probe_used (
    failure_unless converged "Kubernetes generation, revision, or replicas have not converged" (
      failure_unless cleared "OOM termination or restart growth is still present" (
        failure_unless traffic "application traffic is below the 100-request minimum" (
          failure_unless e.availability_satisfied
            "Critical Journey availability is below its recovery threshold"
            (failure_unless e.latency_satisfied
              "Critical Journey latency evidence is insufficient or regressed"
              (failure_unless e.sufficient_evidence
                "application-metric evidence is insufficient for recovery" []))))))

unfoldable pub criteria_satisfied : Bool → Bool → Bool → JourneyEvidence → Bool
criteria_satisfied converged cleared traffic e =
    converged && cleared && traffic && e.availability_satisfied && e.latency_satisfied
    && e.sufficient_evidence

unfoldable pub assessment_of :
    String
    → InvestigationRecord
    → Context
    → Instant
    → Instant
    → RecoveryObservation
    → JourneyEvidence
    → RecoveryAssessment
assessment_of incident_id r c started_at ended_at o e =
    let d = o.deployment in
    let converged = kubernetes_converged c.proposal.action c.approval d in
    let cleared = symptoms_cleared d in
    let traffic = traffic_sufficient c.journey o.journey in
    let satisfied = criteria_satisfied converged cleared traffic e in
    record {
      incident_id = incident_id;
      intervention_id = c.intervention.intervention_id;
      window_started_at = started_at;
      window_ended_at = ended_at;
      observed_at = ended_at;
      generation = d.generation;
      observed_generation = d.observed_generation;
      active_revision = d.active_revision;
      desired_replicas = d.desired_replicas;
      updated_replicas = d.updated_replicas;
      available_replicas = d.available_replicas;
      unavailable_replicas = d.unavailable_replicas;
      oom_terminations = d.oom_terminations;
      restart_delta = d.restart_delta;
      kubernetes_converged = converged;
      symptoms_cleared = cleared;
      journey_name = c.journey.name;
      criteria_satisfied = satisfied;
      request_count = o.journey.request_count;
      success_rate = o.journey.success_rate;
      p95_latency_ms = o.journey.p95_latency_ms;
      traffic_sufficient = traffic;
      availability_satisfied = e.availability_satisfied;
      latency_satisfied = e.latency_satisfied;
      synthetic_probe_used = e.synthetic_probe_used;
      synthetic_probe_successes = e.synthetic_probe_successes;
      sufficient_evidence = e.sufficient_evidence;
      stable_windows =
          expected_stable_windows (last_assessment r c.intervention.intervention_id) satisfied
            started_at;
      required_stable_windows = r.application_profile.recovery_criteria.required_stable_windows;
      explanation = explain converged cleared traffic e;
    }

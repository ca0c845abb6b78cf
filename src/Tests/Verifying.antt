-- ===== src/Tests/Verifying.antt =====
-- The verifier on the first window after the Intervention.
use kubecouncil.Base.{
  ℕ, ok, none, some, refl, ◌≡◌, find, find_last, decide, contains, unique, any, filter, get_last?,
  String-discrete, arith,
}
use kubecouncil.Base.Effects.{lift, ◌>>=◌}
use kubecouncil.Domain.Enums.{IncidentLifecycle-discrete, InterventionState-discrete}
use kubecouncil.Domain.Profile.{CriticalJourney, WorkloadReference-discrete}
use kubecouncil.Domain.Recovery.{
  RecoveryObservation, RecoveryAssessment, is_a_consistent_window_assessment,
}
use kubecouncil.Store.Intervene.{approval_for}
use kubecouncil.Store.Recover.{
  declared_journey, last_assessment, assessments_of, overlaps, check_assessment,
  expected_stable_windows, continues, expected_event_type,
}
use kubecouncil.Verifier.Context.{
  RecoveryProvider, Context, required, verified_intervention, context_of, window_start,
  require_scope,
}
use kubecouncil.Verifier.Assess.{
  JourneyEvidence, evidence_of_traffic, traffic_sufficient, availability, latency, assessment_of,
  criteria_satisfied, kubernetes_converged, action_converged, symptoms_cleared,
}
use kubecouncil.Verifier.Verify.{journey_evidence, event_of, assess}
use kubecouncil.Verifier.Consistent.{IsRecovered, assess-IsRecovered, assessment_of-consistent}
use kubecouncil.Verifier.Accepted.{assessment_of-accepted}
use kubecouncil.Tests.Data
use kubecouncil.Tests.Data.{target, digest, profile}
use kubecouncil.Tests.Story.{monitored_record, done}

abbrev journey : CriticalJourney
journey = record {
  name = "checkout";
  success_rate_minimum = 99;
  p95_latency_ms_maximum = 1500;
  minimum_request_count = 100;
  synthetic_probe = none;
}

abbrev context : Context
context = record {
  intervention = done;
  proposal = Data.proposal;
  approval = Data.approval;
  journey = journey;
}

abbrev pub observation : RecoveryObservation
observation = record {
  deployment = record {
    target = target;
    generation = 9;
    observed_generation = 9;
    active_revision = 8;
    desired_replicas = 3;
    updated_replicas = 3;
    available_replicas = 3;
    unavailable_replicas = 0;
    oom_terminations = 0;
    restart_delta = 0;
  };
  journey = record {
    journey_name = "checkout";
    request_count = 120;
    success_rate = some 100;
    p95_latency_ms = some 900;
    healthy_baseline_success_rate = 100;
    healthy_baseline_p95_latency_ms = 1000;
  };
}

-- It returns the same observation each time.
abbrev provider : RecoveryProvider ℕ
provider = record {
  observe = λ t j started_at ended_at n. (ok observation, n);
  run = λ probe n. (ok (record { probe_name = "checkout"; attempts = 3; successes = 3 }), n);
  clock = λ n. (ok 10000000000, n);
  uuid4_hex = λ n. (ok "1", n);
}

abbrev evidence : JourneyEvidence
evidence = evidence_of_traffic journey observation.journey

abbrev first_window : RecoveryAssessment
first_window =
    assessment_of "inc-1" monitored_record context 9940000000 10000000000 observation evidence

-- The definitions that an assessment computes.
unfoldable verifying : Unit {0}
unfolding find find_last decide contains unique any filter get_last? String-discrete lift ◌>>=◌
    IncidentLifecycle-discrete InterventionState-discrete WorkloadReference-discrete
    is_a_consistent_window_assessment approval_for declared_journey last_assessment assessments_of
    overlaps expected_stable_windows continues expected_event_type required verified_intervention
    context_of window_start require_scope evidence_of_traffic traffic_sufficient availability
    latency assessment_of criteria_satisfied kubernetes_converged action_converged symptoms_cleared
    journey_evidence event_of assess
verifying = tt

contexts : context_of monitored_record ≡ ok context
unfolding verifying
contexts = refl

starts : window_start monitored_record context 10000000000 ≡ ok 9940000000
unfolding verifying
starts = refl

assesses : (assess digest provider "inc-1" monitored_record context 0).0 ≡ ok first_window
unfolding verifying
assesses = refl

progress : first_window.stable_windows ≡ 1
unfolding verifying
progress = refl

assess-IsRecovered_example : IsRecovered provider context first_window
assess-IsRecovered_example =
    assess-IsRecovered digest provider monitored_record context "inc-1" 0 first_window assesses
      (unfold verifying in refl)

assessment_of-accepted_example :
    check_assessment "inc-1" monitored_record.incident.version first_window
      (event_of "inc-1" context "1" first_window)
      monitored_record
    ≡ ok tt
assessment_of-accepted_example =
    assessment_of-accepted "inc-1" monitored_record context 9940000000 10000000000 observation
      evidence "1" contexts starts (unfold verifying in refl) (unfold verifying in refl)

assessment_of-consistent_example : is_a_consistent_window_assessment first_window ≡ ok first_window
assessment_of-consistent_example =
    assessment_of-consistent "inc-1" monitored_record context 9940000000 10000000000 observation
      evidence (omega arith) (unfold verifying in refl)

-- ===== src/Verifier/Consistent.antt =====
-- What a window that satisfies the recovery criteria says, and the validator of its assessment.
use kubecouncil.Base.{
  ℕ, ◌<◌, ◌≤◌, String, Bool, true, false, Option, none, some, ok, ◌≡◌, arith, subst, Option-cases,
  inl, inr, ==_eq, string_eq, is_some,
}
use kubecouncil.Base.Effects.Keeps.{
  Returns, Returns-bind, Returns-bind-lift, Returns-bind-Observed, Returns-lift, Returns-if,
  Observed,
}
use kubecouncil.Domain.Evidence.{Instant}
use kubecouncil.Domain.Profile.{SyntheticProbe, workload_reference_eq}
use kubecouncil.Domain.Recovery.{
  RecoveryObservation, RecoveryAssessment, is_a_consistent_window_assessment,
}
use kubecouncil.Domain.Record.{InvestigationRecord}
use kubecouncil.Binding.{Digest}
use kubecouncil.Store.Recover.{expected_stable_windows}
use kubecouncil.Verifier.Context.{RecoveryProvider, Context, require_scope}
use kubecouncil.Verifier.Assess.{
  action_converged, kubernetes_converged, symptoms_cleared, traffic_sufficient, JourneyEvidence,
  availability, latency, evidence_of_traffic, evidence_of_probe, criteria_satisfied, assessment_of,
}
use kubecouncil.Verifier.Verify.{probed, fallback, journey_evidence, assess}

-- The window of the assessment showed that the workload recovered.
pub record IsRecovered {E : Type 0} (provider : RecoveryProvider E) (c : Context)
    (a : RecoveryAssessment) : Type 0 where
  pub seen : RecoveryObservation
  pub rate : ℕ
  pub p95 : ℕ
  pub observed :
      Observed
        (provider.observe c.intervention.target c.journey a.window_started_at a.window_ended_at)
        seen
  pub scoped : seen.deployment.target ≡ c.intervention.target
  pub named : seen.journey.journey_name ≡ c.journey.name
  pub rolled : c.approval.workload_generation < seen.deployment.generation
  pub settled : seen.deployment.observed_generation ≡ seen.deployment.generation
  pub converged : action_converged c.proposal.action c.approval seen.deployment ≡ true
  pub updated : seen.deployment.updated_replicas ≡ seen.deployment.desired_replicas
  pub available : seen.deployment.available_replicas ≡ seen.deployment.desired_replicas
  pub none_unavailable : seen.deployment.unavailable_replicas ≡ 0
  pub no_oom : seen.deployment.oom_terminations ≡ 0
  pub no_restart : seen.deployment.restart_delta ≡ 0
  pub traffic : c.journey.minimum_request_count ≤ seen.journey.request_count
  pub measured_rate : seen.journey.success_rate ≡ some rate
  pub rate_minimum : c.journey.success_rate_minimum ≤ rate
  pub rate_baseline : seen.journey.healthy_baseline_success_rate ≤ rate
  pub measured_p95 : seen.journey.p95_latency_ms ≡ some p95
  pub p95_maximum : p95 ≤ c.journey.p95_latency_ms_maximum
  pub p95_baseline : p95 ≤ seen.journey.healthy_baseline_p95_latency_ms

validated : (a b : RecoveryAssessment) → is_a_consistent_window_assessment a ≡ ok b → a ≡ b
unfolding is_a_consistent_window_assessment
validated a b h = ground arith

-- What `journey_evidence` returns: that of the traffic, if there is enough.
abbrev Evidenced : Context → RecoveryObservation → JourneyEvidence → Type 0
Evidenced c o e =
    (traffic_sufficient c.journey o.journey ≡ true → e ≡ evidence_of_traffic c.journey o.journey)
    × (e.synthetic_probe_used ≡ is_some e.synthetic_probe_successes)

assessment_of-IsRecovered :
    {E : Type 0} (provider : RecoveryProvider E) (incident_id : String) (r : InvestigationRecord)
    (c : Context) (started_at ended_at : Instant) (o : RecoveryObservation) (e : JourneyEvidence)
    → Observed (provider.observe c.intervention.target c.journey started_at ended_at) o
    → require_scope c o ≡ ok tt
    → Evidenced c o e
    → (assessment_of incident_id r c started_at ended_at o e).criteria_satisfied ≡ true
    → IsRecovered provider c (assessment_of incident_id r c started_at ended_at o e)
unfolding assessment_of require_scope traffic_sufficient criteria_satisfied kubernetes_converged
    symptoms_cleared availability latency evidence_of_traffic
assessment_of-IsRecovered provider incident_id r c started_at ended_at o e seen scope evidenced h =
    elim (Option-cases o.journey.success_rate) [
      | inl missing ↦ absurd (ground (arith, evidenced.0 (ground arith)))
      | inr (rate, has_rate) ↦ elim (Option-cases o.journey.p95_latency_ms) [
        | inl missing ↦ absurd (ground (arith, evidenced.0 (ground arith)))
        | inr (p95, has_p95) ↦ record {
          seen = o;
          rate = rate;
          p95 = p95;
          observed = seen;
          scoped = ==_eq o.deployment.target c.intervention.target (ground arith);
          named = ==_eq o.journey.journey_name c.journey.name (ground arith);
          rolled = ground arith;
          settled = ground arith;
          converged = ground arith;
          updated = ground arith;
          available = ground arith;
          none_unavailable = ground arith;
          no_oom = ground arith;
          no_restart = ground arith;
          traffic = ground arith;
          measured_rate = has_rate;
          rate_minimum = ground (arith, evidenced.0 (ground arith));
          rate_baseline = ground (arith, evidenced.0 (ground arith));
          measured_p95 = has_p95;
          p95_maximum = ground (arith, evidenced.0 (ground arith));
          p95_baseline = ground (arith, evidenced.0 (ground arith));
        }
      ]
    ]

module _ {E : Type 0} (digest : Digest) (provider : RecoveryProvider E) (r : InvestigationRecord)
    (c : Context) where
  fallback-Evidenced :
      (o : RecoveryObservation) (allowed : Bool) (probe : Option SyntheticProbe)
      → traffic_sufficient c.journey o.journey ≡ false
      → Returns (Evidenced c o) (fallback digest provider allowed probe)
  unfolding fallback probed evidence_of_probe
  fallback-Evidenced o true (some probe) few = Returns-bind _ _ λ result.
      Returns-bind-lift _ _ λ _ _. Returns-lift _ λ e h. (λ t. absurd (ground arith), ground arith)
  fallback-Evidenced o true none few =
      Returns-lift _ λ e h. (λ t. absurd (ground arith), ground arith)
  fallback-Evidenced o false none few =
      Returns-lift _ λ e h. (λ t. absurd (ground arith), ground arith)
  fallback-Evidenced o false (some probe) few =
      Returns-lift _ λ e h. (λ t. absurd (ground arith), ground arith)

  journey_evidence-Evidenced :
      (o : RecoveryObservation) → Returns (Evidenced c o) (journey_evidence digest provider r c o)
  unfolding journey_evidence evidence_of_traffic
  journey_evidence-Evidenced o =
      Returns-if (traffic_sufficient c.journey o.journey) _ _
        (λ enough. Returns-lift _ λ e h. (λ _. cc, ground arith))
        (λ few. fallback-Evidenced o _ _ few)

  -- When a window satisfies the recovery criteria, `verify_next_window` observed in it the approved
  -- workload and the declared Critical Journey: the Deployment is past the approved generation and
  -- its controller has observed it, the approved action shows in it, all desired replicas are
  -- updated and available, nothing was OOM-killed or restarted, and application traffic (a probe
  -- is not enough) of at least the journey's minimum met its thresholds and its healthy baseline,
  -- for the success rate and for the p95 latency.
  pub assess-IsRecovered :
      (incident_id : String) (s : E) (a : RecoveryAssessment)
      → (assess digest provider incident_id r c s).0 ≡ ok a
      → a.criteria_satisfied ≡ true
      → IsRecovered provider c a
  unfolding assess
  assess-IsRecovered incident_id s a h satisfied = (returns.at s a h) satisfied
    where
      returns :
          Returns
            (λ a. a.criteria_satisfied ≡ true → IsRecovered provider c a)
            (assess digest provider incident_id r c)
      returns = Returns-bind _ _ λ ended_at. Returns-bind-lift _ _ λ started_at _.
          Returns-bind-Observed _ _ λ o seen. Returns-bind-lift _ _ λ scoped scope.
            Returns-bind-Observed _ _ λ e evidence. Returns-lift _ λ b valid.
              subst (λ x. x.criteria_satisfied ≡ true → IsRecovered provider c x)
                (validated _ b valid)
                (assessment_of-IsRecovered provider incident_id r c started_at ended_at o e seen
                  scope ((journey_evidence-Evidenced o).at evidence.before e evidence.returned))

-- The assessment of a window that is not empty passes its validator.
pub assessment_of-consistent :
    (incident_id : String) (r : InvestigationRecord) (c : Context) (started_at ended_at : Instant)
    (o : RecoveryObservation) (e : JourneyEvidence)
    → started_at < ended_at
    → e.synthetic_probe_used ≡ is_some e.synthetic_probe_successes
    → is_a_consistent_window_assessment (assessment_of incident_id r c started_at ended_at o e)
      ≡ ok (assessment_of incident_id r c started_at ended_at o e)
unfolding is_a_consistent_window_assessment assessment_of criteria_satisfied expected_stable_windows
assessment_of-consistent incident_id r c started_at ended_at o e h he = ground arith

-- ===== src/Verifier/Verify.antt =====
-- `verify_next_window`.
use Prim.Native.String.{◌++◌ as ◌<>◌}
use kubecouncil.Base.{
  eqb, leb, String, Bool, true, false, not, ◌||◌, Option, some, [], ◌∷◌, Result, ok, err, Error,
  value_error, recovery_error, raise_if, ◌==◌, string_eq, if◌then◌else◌,
}
use kubecouncil.Base.Text.{str}
use kubecouncil.Base.Effects.{Effect, lift, read, recover, ◌>>=◌, ◌>>◌}
use kubecouncil.Domain.Profile.{SyntheticProbe}
use kubecouncil.Domain.Recovery.{
  RecoveryObservation, SyntheticProbeObservation, RecoveryAssessment,
  is_a_consistent_window_assessment,
}
use kubecouncil.Domain.Record.{AuditEvent, InvestigationRecord}
use kubecouncil.Binding.{Digest}
use kubecouncil.Store.Access.{get}
use kubecouncil.Store.Change.{assessment}
use kubecouncil.Store.Recover.{expected_event_type}
use kubecouncil.Policy.Record.{World, call_outside, call_store}
use kubecouncil.Verifier.Context.{
  RecoveryProvider, Context, required, context_of, window_start, require_scope,
}
use kubecouncil.Verifier.Assess.{
  JourneyEvidence, evidence_of_traffic, no_evidence, evidence_of_probe, traffic_sufficient,
  assessment_of,
}

-- `_validate_probe_result`
unfoldable pub validate_probe_result :
    SyntheticProbe → SyntheticProbeObservation → Result (Unit {0})
validate_probe_result probe result =
    raise_if (not (result.probe_name == probe.name) || not (eqb result.attempts probe.repetitions))
      (recovery_error "synthetic probe result changed the declared probe")

-- `str(b).lower()`
abbrev pub lower_bool : Bool → String
lower_bool true = "true"
lower_bool false = "false"

unfoldable pub event_of : String → Context → String → RecoveryAssessment → AuditEvent
event_of incident_id c token a = record {
  event_id = "audit-" <> token;
  incident_id = incident_id;
  event_type =
      expected_event_type a.criteria_satisfied (leb a.required_stable_windows a.stable_windows);
  occurred_at = a.window_ended_at;
  actor = "deterministic-recovery-verifier";
  details =
      ("intervention_id", c.intervention.intervention_id)
      ∷ ("stable_windows", str a.stable_windows)
      ∷ ("required_stable_windows", str a.required_stable_windows)
      ∷ ("traffic_sufficient", lower_bool a.traffic_sufficient)
      ∷ ("synthetic_probe_used", lower_bool a.synthetic_probe_used)
      ∷ ("kubernetes_converged", lower_bool a.kubernetes_converged)
      ∷ ("symptoms_cleared", lower_bool a.symptoms_cleared)
      ∷ [];
  cursor = 0;
}

-- `except ValueError as error`
unfoldable pub as_recovery_error {ℓ} : {S A : Type ℓ} → Error → Effect S A
as_recovery_error (value_error m) = lift (err (recovery_error m))
as_recovery_error e = lift (err e)

module _ {E : Type 0} (digest : Digest) (provider : RecoveryProvider E) where
  unfoldable pub probed : SyntheticProbe → Effect E JourneyEvidence
  probed probe = do
    result ← provider.run probe
    lift (validate_probe_result probe result)
    lift (ok (evidence_of_probe result))

  -- `if criteria.allow_synthetic_availability_fallback and journey.synthetic_probe`
  unfoldable pub fallback : Bool → Option SyntheticProbe → Effect E JourneyEvidence
  fallback true (some probe) = probed probe
  fallback _ _ = lift (ok no_evidence)

  unfoldable pub journey_evidence :
      InvestigationRecord → Context → RecoveryObservation → Effect E JourneyEvidence
  journey_evidence r c o =
      if traffic_sufficient c.journey o.journey
      then lift (ok (evidence_of_traffic c.journey o.journey))
      else fallback r.application_profile.recovery_criteria.allow_synthetic_availability_fallback
          c.journey.synthetic_probe

  -- The assessment that `verify_next_window` builds.
  unfoldable pub assess : String → InvestigationRecord → Context → Effect E RecoveryAssessment
  assess incident_id r c = do
    ended_at ← provider.clock
    started_at ← lift (window_start r c ended_at)
    o ← provider.observe c.intervention.target c.journey started_at ended_at
    lift (require_scope c o)
    e ← journey_evidence r c o
    lift (is_a_consistent_window_assessment (assessment_of incident_id r c started_at ended_at o e))

  -- The end of `verify_next_window`.
  unfoldable pub record_window :
      String
      → InvestigationRecord
      → Context
      → RecoveryAssessment
      → Effect (World E) RecoveryAssessment
  record_window incident_id r c a = do
    token ← call_outside provider.uuid4_hex
    recover
        (call_store digest (assessment r.incident.version a (event_of incident_id c token a))
          incident_id)
        as_recovery_error
    lift (ok a)

  unfoldable pub verify_next_window : String → Effect (World E) RecoveryAssessment
  verify_next_window incident_id = do
    found ← read (λ (w : World E). get w.store incident_id)
    r ← lift (required "recovery Incident does not exist" found)
    c ← lift (context_of r)
    a ← call_outside (assess incident_id r c)
    record_window incident_id r c a

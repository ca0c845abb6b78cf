-- ===== src/Domain/Evidence.antt =====
-- Alert signals, the evidence window, observations and queries.
use kubecouncil.Base.{
  ℕ, ◌*◌, String, Bool, not, Option, none, some, Result, ok, err, ◌>>◌, value_error, raise_if, ◌==◌,
  string_eq, ltb, leb, ◌+◌,
}
use kubecouncil.Domain.Enums.{EvidenceSource, EvidenceQueryKind, SpecialistRole}
use kubecouncil.Domain.Profile.{WorkloadReference}

-- A UTC datetime, in microseconds after `datetime.min`; a timedelta is in microseconds too.
abbrev pub Instant : Type 0
Instant = ℕ

abbrev pub seconds : ℕ → ℕ
seconds n = n * 1000000

abbrev pub minutes : ℕ → ℕ
minutes n = n * 60000000

pub record AlertSignal : Type 0 where
  pub signal_id : String
  pub application_id : String
  pub namespace : String
  pub workload_name : String
  pub workload_namespace : String
  pub summary : String
  pub observed_at : Instant
  pub window_start : Option Instant
  pub window_end : Option Instant
  pub provider_incident_id : Option String

check_alert_window : Option Instant → Option Instant → Result (Unit {0})
check_alert_window (some start) (some end) = do
  raise_if (leb end start) (value_error "alert window end must be after start")
  raise_if (ltb (start + minutes 120) end)
      (value_error "alert window cannot exceed the evidence budget maximum")
check_alert_window none none = ok tt
check_alert_window _ _ = err (value_error "alert windows require both start and end timestamps")

pub is_scoped_and_time_bounded : AlertSignal → Result AlertSignal
unfolding check_alert_window
is_scoped_and_time_bounded s = do
  raise_if (not (s.workload_namespace == s.namespace))
      (value_error "alert workload must use the same namespace as its application")
  check_alert_window s.window_start s.window_end
  ok s

pub data ProviderState : Type 0 where
  open_ closed : ProviderState

pub record AlertSignalEvidence : Type 0 where
  pub notification_id : String
  pub incident_id : String
  pub signal : AlertSignal
  pub provider_state : ProviderState
  pub received_at : Instant

pub record EvidenceWindow : Type 0 where
  pub window_id : String
  pub incident_id : String
  pub started_at : Instant
  pub ended_at : Instant
  pub captured_at : Instant

unfoldable pub is_time_ordered : EvidenceWindow → Result EvidenceWindow
is_time_ordered w = do
  raise_if (leb w.ended_at w.started_at) (value_error "evidence window end must be after start")
  raise_if (ltb w.captured_at w.ended_at)
      (value_error "evidence window must be captured after its end")
  ok w

pub record EvidenceObservation : Type 0 where
  pub evidence_id : String
  pub incident_id : String
  pub source : EvidenceSource
  pub query : EvidenceQueryKind
  pub query_reference : String
  pub evidence_query_id : Option String
  pub evidence_window_id : String
  pub observed_at : Instant
  pub scope : WorkloadReference
  pub redacted_excerpt : String
  pub content_hash : String
  pub truncated : Bool
  pub provider_reference : String

pub record EvidenceRetrievalFailure : Type 0 where
  pub failure_id : String
  pub incident_id : String
  pub source : Option EvidenceSource
  pub query : Option EvidenceQueryKind
  pub scope : Option WorkloadReference
  pub occurred_at : Instant
  pub message : String

pub record EvidenceQuery : Type 0 where
  pub query_id : String
  pub incident_id : String
  pub specialist : SpecialistRole
  pub kind : EvidenceQueryKind
  pub target : WorkloadReference
  pub requested_at : Instant
  pub query_round : ℕ

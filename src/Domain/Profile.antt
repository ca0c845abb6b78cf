-- ===== src/Domain/Profile.antt =====
-- Application Profiles: `WorkloadReference` to `ApplicationProfile`.
use kubecouncil.Base.{
  ℕ, String, Bool, not, ◌&&◌, Option, List, map, Result, ok, ◌>>◌, value_error, raise_if, Eq,
  eq_of_discrete, ◌==◌, unique, is_empty, is_none, ltb, String-discrete,
}
use kubecouncil.Domain.Enums.{
  WorkloadCriticality, EvidenceSource, EvidenceQueryKind, metrics, source_eq, kind_eq,
}

pub data WorkloadKind : Type 0 where
  deployment : WorkloadKind

pub record WorkloadReference : Type 0 where
  pub namespace : String
  pub name : String
  pub kind : WorkloadKind

unfoldable pub WorkloadReference-discrete : Discrete WorkloadReference
unfolding String-discrete
WorkloadReference-discrete = hlevel String-discrete

instance abbrev pub workload_reference_eq : Eq WorkloadReference
workload_reference_eq = eq_of_discrete WorkloadReference-discrete

-- The literal of `action_type` and of `allowed_actions`.
pub data ActionType : Type 0 where
  rollback_deployment scale_deployment restart_deployment : ActionType

unfoldable pub ActionType-discrete : Discrete ActionType
ActionType-discrete = hlevel

instance abbrev pub action_type_eq : Eq ActionType
action_type_eq = eq_of_discrete ActionType-discrete

pub record ReplicaBounds : Type 0 where
  pub minimum : ℕ
  pub maximum : ℕ

pub has_valid_range : ReplicaBounds → Result ReplicaBounds
has_valid_range b = do
  raise_if (ltb b.maximum b.minimum)
      (value_error "maximum replicas must be greater than or equal to minimum replicas")
  ok b

pub record ManagedWorkload : Type 0 where
  pub reference : WorkloadReference
  pub criticality : WorkloadCriticality
  pub replica_bounds : ReplicaBounds
  pub executable : Bool
  pub protected_dependency : Bool
  pub allowed_actions : List ActionType
  pub dependencies : List String

pub authority_is_explicit : ManagedWorkload → Result ManagedWorkload
authority_is_explicit w = do
  raise_if (w.protected_dependency && w.executable)
      (value_error "protected dependencies cannot be executable")
  raise_if (not w.executable && not w.protected_dependency)
      (value_error "non-executable workloads must be protected dependencies")
  raise_if (not w.executable && not (is_empty w.allowed_actions))
      (value_error "non-executable workloads cannot allow remediation actions")
  raise_if (w.executable && is_empty w.allowed_actions)
      (value_error "executable workloads must declare allowed remediation actions")
  raise_if (not (unique w.allowed_actions)) (value_error "workload allowed actions must be unique")
  ok w

pub record SyntheticProbe : Type 0 where
  pub name : String
  pub target : String
  pub repetitions : ℕ

-- A success rate is a double between 0 and 1: the number of its units of 2 ^ -1074, which every
-- such double is a multiple of. Rates are only compared.
abbrev pub Rate : Type 0
Rate = ℕ

pub record CriticalJourney : Type 0 where
  pub name : String
  pub success_rate_minimum : Rate
  pub p95_latency_ms_maximum : ℕ
  pub minimum_request_count : ℕ
  pub synthetic_probe : Option SyntheticProbe

pub record EvidenceBudget : Type 0 where
  pub maximum_queries_per_specialist : ℕ
  pub maximum_log_lines : ℕ
  pub maximum_metric_series : ℕ
  pub maximum_window_minutes : ℕ

pub record EvidenceMapping : Type 0 where
  pub source : EvidenceSource
  pub kind : EvidenceQueryKind
  pub scope : WorkloadReference
  pub identifier : String
  pub query_template : Option String

pub has_a_bounded_metric_query : EvidenceMapping → Result EvidenceMapping
has_a_bounded_metric_query m = do
  raise_if (m.kind == metrics && is_none m.query_template)
      (value_error "metric evidence mappings must declare a query template")
  ok m

pub data AlertProvider : Type 0 where
  cloud_monitoring : AlertProvider

pub record AlertMapping : Type 0 where
  pub provider : AlertProvider
  pub policy_name : String
  pub target : WorkloadReference

pub record ObservabilityLink : Type 0 where
  pub label : String
  pub source : EvidenceSource
  pub url : String

-- `latency_requires_application_traffic` can only be true, and has no field.
pub record RecoveryCriteria : Type 0 where
  pub critical_journey_name : String
  pub required_stable_windows : ℕ
  pub stabilization_window_seconds : ℕ
  pub allow_synthetic_availability_fallback : Bool

pub record ApplicationProfile : Type 0 where
  pub application_id : String
  pub display_name : String
  pub version : String
  pub namespace : String
  pub namespaces : List String
  pub investigator_identity : String
  pub investigator_role : String
  pub executor_identity : String
  pub executor_role : String
  pub workloads : List ManagedWorkload
  pub critical_journeys : List CriticalJourney
  pub alert_mappings : List AlertMapping
  pub evidence_mappings : List EvidenceMapping
  pub observability_links : List ObservabilityLink
  pub evidence_budget : EvidenceBudget
  pub recovery_criteria : RecoveryCriteria

-- `{workload.reference for workload in profile.workloads}`
unfoldable pub enrolled_workloads : ApplicationProfile → List WorkloadReference
enrolled_workloads p = map (λ w. w.reference) p.workloads

-- ===== src/Domain/Enums.antt =====
-- The enumerations of backend/app/domain/incidents.py, with the `==` and `is` of their members.
use kubecouncil.Base.{Eq, eq_of_discrete}

pub data WorkloadCriticality : Type 0 where
  critical important optional : WorkloadCriticality

pub data IncidentLifecycle : Type 0 where
  open_ investigating awaiting_approval mitigating monitoring resolved closed : IncidentLifecycle

pub data InvestigationOutcome : Type 0 where
  not_started proposal_ready needs_more_evidence no_safe_action inconclusive : InvestigationOutcome

pub data InterventionOutcome : Type 0 where
  not_started monitoring succeeded rolled_back failed safe_halted : InterventionOutcome

pub data EvidenceSource : Type 0 where
  kubernetes cloud_logging cloud_monitoring manual : EvidenceSource

pub data SpecialistRole : Type 0 where
  health logs metrics change : SpecialistRole

pub data EvidenceQueryKind : Type 0 where
  workload_state pod_events pod_logs metrics change_history alert_policy : EvidenceQueryKind

pub data PolicyStatus : Type 0 where
  passed rejected dry_run_failed : PolicyStatus

pub data PolicyCheckCode : Type 0 where
  proposal_scoped evidence_current enrollment_ready target_enrolled : PolicyCheckCode
  target_executable action_allowed live_state_available : PolicyCheckCode
  no_active_intervention revision_available restoration_safe : PolicyCheckCode
  replica_bounds replica_quota patch_shape server_dry_run : PolicyCheckCode

pub data ApprovalDecision : Type 0 where
  approved rejected : ApprovalDecision

pub data InterventionState : Type 0 where
  pending running succeeded rolled_back failed safe_halted : InterventionState

pub data ActionConvergenceStatus : Type 0 where
  succeeded failed ambiguous : ActionConvergenceStatus

unfoldable pub IncidentLifecycle-discrete : Discrete IncidentLifecycle
IncidentLifecycle-discrete = hlevel

unfoldable pub InvestigationOutcome-discrete : Discrete InvestigationOutcome
InvestigationOutcome-discrete = hlevel

unfoldable pub InterventionOutcome-discrete : Discrete InterventionOutcome
InterventionOutcome-discrete = hlevel

unfoldable pub EvidenceSource-discrete : Discrete EvidenceSource
EvidenceSource-discrete = hlevel

unfoldable pub EvidenceQueryKind-discrete : Discrete EvidenceQueryKind
EvidenceQueryKind-discrete = hlevel

unfoldable pub SpecialistRole-discrete : Discrete SpecialistRole
SpecialistRole-discrete = hlevel

unfoldable pub PolicyStatus-discrete : Discrete PolicyStatus
PolicyStatus-discrete = hlevel

unfoldable pub PolicyCheckCode-discrete : Discrete PolicyCheckCode
PolicyCheckCode-discrete = hlevel

unfoldable pub ApprovalDecision-discrete : Discrete ApprovalDecision
ApprovalDecision-discrete = hlevel

unfoldable pub InterventionState-discrete : Discrete InterventionState
InterventionState-discrete = hlevel

unfoldable pub ActionConvergenceStatus-discrete : Discrete ActionConvergenceStatus
ActionConvergenceStatus-discrete = hlevel

instance abbrev pub lifecycle_eq : Eq IncidentLifecycle
lifecycle_eq = eq_of_discrete IncidentLifecycle-discrete

instance abbrev pub investigation_outcome_eq : Eq InvestigationOutcome
investigation_outcome_eq = eq_of_discrete InvestigationOutcome-discrete

instance abbrev pub intervention_outcome_eq : Eq InterventionOutcome
intervention_outcome_eq = eq_of_discrete InterventionOutcome-discrete

instance abbrev pub source_eq : Eq EvidenceSource
source_eq = eq_of_discrete EvidenceSource-discrete

instance abbrev pub kind_eq : Eq EvidenceQueryKind
kind_eq = eq_of_discrete EvidenceQueryKind-discrete

instance abbrev pub role_eq : Eq SpecialistRole
role_eq = eq_of_discrete SpecialistRole-discrete

instance abbrev pub policy_status_eq : Eq PolicyStatus
policy_status_eq = eq_of_discrete PolicyStatus-discrete

instance abbrev pub approval_decision_eq : Eq ApprovalDecision
approval_decision_eq = eq_of_discrete ApprovalDecision-discrete

instance abbrev pub intervention_state_eq : Eq InterventionState
intervention_state_eq = eq_of_discrete InterventionState-discrete

instance abbrev pub convergence_status_eq : Eq ActionConvergenceStatus
convergence_status_eq = eq_of_discrete ActionConvergenceStatus-discrete

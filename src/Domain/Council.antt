-- ===== src/Domain/Council.antt =====
-- What Specialists and the Coordinator return: findings, invocations, hypotheses.
use kubecouncil.Base.{ℕ, String, Bool, Option, List}
use kubecouncil.Domain.Enums.{SpecialistRole}

pub record EvidenceCitation : Type 0 where
  pub evidence_id : String
  pub observation : String

pub record SpecialistFinding : Type 0 where
  pub finding_id : String
  pub incident_id : String
  pub specialist : SpecialistRole
  pub citations : List EvidenceCitation
  pub candidate_explanations : List String
  pub confidence : ℕ  -- a double between 0 and 1, as `Rate`
  pub contradictions : List String
  pub unknowns : List String

-- `SpecialistRole | Literal["coordinator"]`
pub data InvocationRole : Type 0 where
  specialist : SpecialistRole → InvocationRole
  coordinator : InvocationRole

pub data ThinkingLevel : Type 0 where
  minimal low medium high : ThinkingLevel

pub record ModelInvocation : Type 0 where
  pub invocation_id : String
  pub incident_id : String
  pub role : InvocationRole
  pub model_id : String
  pub prompt_version : String
  pub thinking_level : ThinkingLevel
  pub latency_ms : ℕ
  pub input_tokens : ℕ
  pub output_tokens : ℕ
  pub tool_count : ℕ
  pub output_valid : Bool
  pub failure_reason : Option String

pub record RootCauseHypothesis : Type 0 where
  pub hypothesis_id : String
  pub incident_id : String
  pub rank : ℕ
  pub statement : String
  pub falsification_test : String
  pub confidence : ℕ  -- a double between 0 and 1, as `Rate`
  pub citations : List EvidenceCitation

-- ===== src/Policy/Outside.antt =====
-- What the policy and the Executor call outside the store (`PolicyKubernetesProvider`,
-- `ExecutorKubernetesProvider` and `EnrollmentProvider` of backend/app/domain/incidents.py), and
-- the clocks and UUIDs that they read. E is the state of all of it; a call may change it and may
-- raise.
use kubecouncil.Base.{String, Option}
use kubecouncil.Base.Effects.{Effect}
use kubecouncil.Domain.Evidence.{Instant}
use kubecouncil.Domain.Profile.{ApplicationProfile, WorkloadReference}
use kubecouncil.Domain.Enrollment.{EnrollmentSnapshot}
use kubecouncil.Domain.Policy.{
  DeploymentPolicyState, DeploymentPatch, DryRunResult, DeploymentConvergenceResult,
}

pub record PolicyKubernetes (E : Type 0) : Type 0 where
  pub inspect_deployment : WorkloadReference → Effect E (Option DeploymentPolicyState)
  pub dry_run_deployment_patch : DeploymentPatch → Effect E DryRunResult
  pub inspect : ApplicationProfile → Effect E EnrollmentSnapshot
  -- `datetime.now(UTC)`
  pub utc_now : Effect E Instant
  -- `uuid4().hex`
  pub uuid4_hex : Effect E String

pub record ExecutorKubernetes (E : Type 0) : Type 0 where
  pub policy : PolicyKubernetes E
  pub apply_deployment_patch : DeploymentPatch → Effect E DeploymentPolicyState
  pub verify_deployment_convergence :
      DeploymentPatch → DeploymentPolicyState → Effect E DeploymentConvergenceResult
  -- the Executor's clock
  pub clock : Effect E Instant

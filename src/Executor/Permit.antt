-- ===== src/Executor/Permit.antt =====
-- The patches that the Executor may apply.
use kubecouncil.Base.{
  ◌<◌, true, Option, none, some, ok, ◌≡◌, refl, arith, Option-cases, inl, inr, ==_eq, string_eq,
  nat_eq,
}
use kubecouncil.Base.Effects.Keeps.{Seen}
use kubecouncil.Domain.Enums.{
  PolicyStatus, ApprovalDecision, ActionConvergenceStatus, approval_decision_eq, policy_status_eq,
}
use kubecouncil.Domain.Evidence.{Instant}
use kubecouncil.Domain.Profile.{workload_reference_eq}
use kubecouncil.Domain.Policy.{
  RemediationProposal, PolicyDecision, DeploymentPolicyState, DeploymentPatch,
  DeploymentConvergenceResult, action_target, policy_state_eq, patch_eq,
}
use kubecouncil.Domain.Authority.{Approval, Intervention, InterventionRequest}
use kubecouncil.Domain.Record.{InvestigationRecord}
use kubecouncil.Binding.{Digest, approval_matches_record, passed_review, is_value}
use kubecouncil.Queue.{intervention_request_hash}
use kubecouncil.Store.Intervene.{approval_for}
use kubecouncil.Policy.Outside.{ExecutorKubernetes}
use kubecouncil.Policy.Evaluate.{evaluate}
use kubecouncil.Executor.Machine.{Machine, on_outside, stored}
use kubecouncil.Policy.Sound.{IsAuthorised}
use kubecouncil.Executor.Authority.{
  require_fresh, require_reviewed, require_authority, require_unchanged, restoration_of,
  require_passed, is_scale, require_same,
}
use kubecouncil.Executor.Consume.{require_revalidated}

-- The recorded authority for a request at a time.
pub record IsGranted (digest : Digest) (q : InterventionRequest) (r : InvestigationRecord)
    (now : Instant) (a : Approval) (p : RemediationProposal) : Type 0 where
  pub decision : PolicyDecision
  pub intact : intervention_request_hash digest q ≡ q.payload_hash
  pub recorded : approval_for r q.approval_id ≡ some a
  pub approved : a.decision ≡ ApprovalDecision.approved
  pub unexpired : now < a.expires_at
  pub matches : approval_matches_record digest r a ≡ true
  pub reviewed : passed_review r ≡ some (p, decision)
  pub proposal : p.proposal_id ≡ q.proposal_id
  pub target : action_target p.action ≡ q.target
  pub patch : is_value decision.patch q.patch ≡ true

module _ (digest : Digest) (q : InterventionRequest) (r : InvestigationRecord) (now : Instant)
    (a : Approval) (p : RemediationProposal) where
  require_reviewed-IsGranted :
      (found : Option Approval) (review : Option (RemediationProposal × PolicyDecision))
      → approval_for r q.approval_id ≡ found
      → passed_review r ≡ review
      → intervention_request_hash digest q ≡ q.payload_hash
      → require_fresh digest r now found ≡ ok a
      → require_reviewed digest q review ≡ ok p
      → IsGranted digest q r now a p
  unfolding require_fresh require_reviewed
  require_reviewed-IsGranted none review e f i h k = cc
  require_reviewed-IsGranted (some b) none e f i h k = cc
  require_reviewed-IsGranted (some b) (some (x, d)) e f i h k = record {
    decision = d;
    intact = i;
    recorded = ground arith;
    approved = ==_eq a.decision ApprovalDecision.approved (ground arith);
    unexpired = ground arith;
    matches = ground arith;
    reviewed = ground arith;
    proposal = ==_eq p.proposal_id q.proposal_id (ground arith);
    target = ==_eq (action_target p.action) q.target (ground arith);
    patch = ground arith;
  }

  pub require_authority-IsGranted :
      require_authority digest q r now ≡ ok (a, p) → IsGranted digest q r now a p
  unfolding require_authority
  require_authority-IsGranted h =
      require_reviewed-IsGranted (approval_for r q.approval_id) (passed_review r) refl refl
        (==_eq (intervention_request_hash digest q) q.payload_hash (ground arith)) (ground arith)
        (ground arith)

-- What was seen in machines that satisfy S, as the Executor went through them.
module _ {E : Type 0} (digest : Digest) (outside : ExecutorKubernetes E) (q : InterventionRequest)
    (S : Machine E → Type 0) where
  -- The store held the record, the clock showed the time, and the two grant the request.
  pub record WasGranted (r : InvestigationRecord) (now : Instant) (a : Approval)
      (p : RemediationProposal) : Type 0 where
    pub held : Seen S (stored q.incident_id) (some r)
    pub time : Seen S (on_outside outside.clock) now
    pub grant : IsGranted digest q r now a p

  -- The inspected Deployment was in the state of the Approval.
  pub record WasUnchanged (a : Approval) (s : DeploymentPolicyState) : Type 0 where
    pub inspected : Seen S (on_outside (outside.policy.inspect_deployment q.target)) (some s)
    pub version : s.resource_version ≡ a.workload_resource_version
    pub generation : s.generation ≡ a.workload_generation
    pub revision : s.current_revision ≡ a.workload_revision

  -- The policy passed the proposal on the record, with the patch.
  pub record WasPassed (r : InvestigationRecord) (p : RemediationProposal) (patch : DeploymentPatch)
      : Type 0 where
    pub decision : PolicyDecision
    pub decided : Seen S (on_outside (evaluate digest outside.policy r p)) decision
    pub passed : decision.status ≡ PolicyStatus.passed
    pub carried : decision.patch ≡ some patch
    pub authorised : IsAuthorised digest outside.policy r p decision

  -- The action was seen to fail, and the Deployment was seen again in the state observed then.
  pub record HasFailed : Type 0 where
    pub applied : DeploymentPolicyState
    pub convergence : DeploymentConvergenceResult
    pub verified :
        Seen S (on_outside (outside.verify_deployment_convergence q.patch applied)) convergence
    pub failed : convergence.status ≡ ActionConvergenceStatus.failed
    pub current : DeploymentPolicyState
    pub observed : convergence.observed_state ≡ some current
    pub inspected : Seen S (on_outside (outside.policy.inspect_deployment q.target)) (some current)

  -- A patch that may be applied: the reviewed one of the request, which the policy passed again
  -- for the recorded proposal, on a Deployment still in the state of the Approval; or, for a
  -- scaling from that state that was seen to fail, the one that the policy passed for the inverse
  -- scaling.
  pub data Permit : DeploymentPatch → Type 0 where
    requested :
        (r : InvestigationRecord) (now : Instant) (a : Approval) (p : RemediationProposal)
        (s : DeploymentPolicyState)
        → WasGranted r now a p
        → WasUnchanged a s
        → WasPassed r p q.patch
        → Permit q.patch
    restoring :
        (r : InvestigationRecord) (now : Instant) (a : Approval) (p : RemediationProposal)
        (v : Intervention) (previous : DeploymentPolicyState) (patch : DeploymentPatch)
        → WasGranted r now a p
        → WasUnchanged a previous
        → is_scale p.action ≡ true
        → HasFailed
        → WasPassed r (restoration_of p v previous) patch
        → Permit patch

pub require_unchanged-returns :
    (a : Approval) (found : Option DeploymentPolicyState) (s : DeploymentPolicyState)
    → require_unchanged a found ≡ ok s
    → (found ≡ some s)
      × (s.resource_version ≡ a.workload_resource_version)
      × (s.generation ≡ a.workload_generation)
      × (s.current_revision ≡ a.workload_revision)
unfolding require_unchanged
require_unchanged-returns a none s h = cc
require_unchanged-returns a (some x) s h = (
  ground arith,
  ==_eq s.resource_version a.workload_resource_version (ground arith),
  ground arith,
  ground arith,
)

pub require_revalidated-returns :
    (q : InterventionRequest) (d : PolicyDecision)
    → require_revalidated q d ≡ ok tt
    → (d.status ≡ PolicyStatus.passed) × (d.patch ≡ some q.patch)
unfolding require_revalidated
require_revalidated-returns q d h = elim (Option-cases d.patch) [
  | inl missing ↦ absurd (ground arith)
  | inr (x, found) ↦
      (==_eq d.status PolicyStatus.passed (ground arith), ground (arith, ==_eq x q.patch))
]

pub require_passed-returns :
    (d : PolicyDecision) (patch : DeploymentPatch)
    → require_passed d ≡ ok patch
    → (d.status ≡ PolicyStatus.passed) × (d.patch ≡ some patch)
unfolding require_passed
require_passed-returns d patch h = elim (Option-cases d.patch) [
  | inl missing ↦ absurd (ground arith)
  | inr (x, found) ↦ (==_eq d.status PolicyStatus.passed (ground arith), ground arith)
]

pub require_same-returns :
    (found observed : Option DeploymentPolicyState) (s : DeploymentPolicyState)
    → require_same found observed ≡ ok s
    → (found ≡ some s) × (observed ≡ some s)
unfolding require_same
require_same-returns (some x) (some y) s h = (ground arith, ground (arith, ==_eq x y))
require_same-returns none none s h = cc
require_same-returns none (some y) s h = cc
require_same-returns (some x) none s h = cc

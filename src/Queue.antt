-- ===== src/Queue.antt =====
-- Intervention messages (backend/app/services/intervention_queue.py): `build_intervention_request`,
-- `intervention_request_hash` and `InMemoryInterventionQueue`.
pub mod Publish
pub mod Request
use kubecouncil.Base.{
  ℕ, leb, String, not, ◌||◌, Option, none, some, List, map, Result, ok, err, ◌>>=◌, ◌>>◌,
  publish_error, raise_if, ◌==◌, string_eq,
}
use Prim.Native.String.{◌++◌, slice}
use kubecouncil.Base.Dict.{Dict, lookup, insert}
use kubecouncil.Domain.Enums.{ApprovalDecision, approval_decision_eq}
use kubecouncil.Domain.Evidence.{Instant}
use kubecouncil.Domain.Policy.{RemediationProposal, PolicyDecision, DeploymentPatch, action_target}
use kubecouncil.Domain.Authority.{
  Approval, InterventionRequest, patch_targets_one_workload, intervention_request_eq,
}
use kubecouncil.Domain.Record.{InvestigationRecord}
use kubecouncil.Binding.{Digest, Material, canonical_hash, approval_matches_record, passed_review}

module _ (digest : Digest) where
  -- The hash of everything in the request but `payload_hash`.
  unfoldable pub intervention_request_hash : InterventionRequest → String
  intervention_request_hash q = canonical_hash digest (
      Material.payload q.request_id q.incident_id q.proposal_id q.approval_id q.target q.patch
        q.requested_at q.idempotency_key)

  unfoldable pub idempotency_key_of : InvestigationRecord → RemediationProposal → Approval → String
  idempotency_key_of r p a =
      canonical_hash digest
        (Material.key r.incident.incident_id p.proposal_id a.approval_id (action_target p.action))

  -- The request before its payload is hashed. The idempotency key is hexadecimal, so its first 24
  -- characters are its first 24 bytes.
  unfoldable pub draft_of :
      InvestigationRecord
      → RemediationProposal
      → Approval
      → DeploymentPatch
      → Instant
      → InterventionRequest
  draft_of r p a patch requested_at = record {
    request_id = "request-" ++ slice (idempotency_key_of r p a) 0 24;
    incident_id = r.incident.incident_id;
    proposal_id = p.proposal_id;
    approval_id = a.approval_id;
    target = action_target p.action;
    patch = patch;
    requested_at = requested_at;
    idempotency_key = idempotency_key_of r p a;
    payload_hash = "00000000";
  }

  unfoldable pub hashed : InterventionRequest → InterventionRequest
  hashed q = record q { payload_hash = intervention_request_hash q }

  -- The tests after `policy.status is PASSED`, on the recorded proposal and decision.
  unfoldable pub request_of :
      InvestigationRecord
      → RemediationProposal
      → PolicyDecision
      → Approval
      → Instant
      → Result InterventionRequest
  request_of r p d a requested_at = elim d.patch [
    | none ↦ err (publish_error "Intervention publishing requires the reviewed patch")
    | some patch ↦ do
      raise_if (not (a.proposal_id == p.proposal_id))
          (publish_error "Approval does not authorize the recorded proposal")
      raise_if (leb a.expires_at requested_at || not (approval_matches_record digest r a))
          (publish_error "Approval is stale and cannot publish an Intervention")
      draft ← patch_targets_one_workload (draft_of r p a patch requested_at)
      ok (hashed draft)
  ]

  unfoldable pub build_intervention_request :
      InvestigationRecord → Approval → Instant → Result InterventionRequest
  build_intervention_request r a requested_at = do
    raise_if (not (a.decision == ApprovalDecision.approved))
        (publish_error "only an approved proposal may publish an Intervention")
    elim (passed_review r) [
      | none ↦ err (publish_error "Intervention publishing requires passed policy")
      | some (p, d) ↦ request_of r p d a requested_at
    ]

-- The published requests by their idempotency keys.
abbrev pub Queue : Type 0
Queue = Dict InterventionRequest

unfoldable pub publish : Queue → InterventionRequest → Result Queue
publish requests q = elim (lookup q.idempotency_key requests) [
  | none ↦ ok (insert q.idempotency_key q requests)
  | some existing ↦ do
    raise_if (not (existing == q)) (publish_error "idempotency key was reused for another payload")
    ok (insert q.idempotency_key q requests)
]

unfoldable pub pending : Queue → List InterventionRequest
pending requests = map (λ entry. entry.1) requests

-- ===== src/Queue/Request.antt =====
-- `build_intervention_request` against what a request has to carry.
use kubecouncil.Base.{
  ◌<◌, true, some, ok, ◌≡◌, refl, arith, inl, inr, Option-cases, string_eq, ==_eq,
}
use kubecouncil.Domain.Enums.{
  ApprovalDecision, approval_decision_eq, PolicyStatus, policy_status_eq,
}
use kubecouncil.Domain.Evidence.{Instant}
use kubecouncil.Domain.Profile.{workload_reference_eq}
use kubecouncil.Domain.Policy.{RemediationProposal, PolicyDecision, DeploymentPatch, action_target}
use kubecouncil.Domain.Authority.{Approval, InterventionRequest, patch_targets_one_workload}
use kubecouncil.Domain.Record.{InvestigationRecord}
use kubecouncil.Binding.{Digest, approval_matches_record, passed_review, review_of}
use kubecouncil.Queue.{
  intervention_request_hash, draft_of, hashed, request_of, build_intervention_request,
}

-- What a request carries, and from where.
pub record Authorises (digest : Digest) (r : InvestigationRecord) (a : Approval) (now : Instant)
    (q : InterventionRequest) : Type 0 where
  pub approved : a.decision ≡ ApprovalDecision.approved
  pub unexpired : now < a.expires_at
  pub matching : approval_matches_record digest r a ≡ true
  pub verifies : q.payload_hash ≡ intervention_request_hash digest q
  pub incident : q.incident_id ≡ r.incident.incident_id
  pub approval : q.approval_id ≡ a.approval_id
  pub one_workload : q.patch.target ≡ q.target
  pub proposal : RemediationProposal
  pub policy : PolicyDecision
  pub proposed : r.proposal ≡ some proposal
  pub decided : r.policy_decision ≡ some policy
  pub passed : policy.status ≡ PolicyStatus.passed
  pub reviewed_patch : policy.patch ≡ some q.patch
  pub target : q.target ≡ action_target proposal.action

pub passed_review-returns :
    (r : InvestigationRecord) (p : RemediationProposal) (d : PolicyDecision)
    → passed_review r ≡ some (p, d)
    → (r.proposal ≡ some p) × (r.policy_decision ≡ some d) × (d.status ≡ PolicyStatus.passed)
unfolding passed_review review_of
passed_review-returns r p d h = elim (Option-cases r.proposal) [
  | inl e ↦ absurd (ground arith)
  | inr (p', e) ↦ elim (Option-cases r.policy_decision) [
    | inl f ↦ absurd (ground arith)
    | inr (d', f) ↦ ground (arith, ==_eq d'.status PolicyStatus.passed)
  ]
]

module _ (digest : Digest) (r : InvestigationRecord) (a : Approval) (now : Instant)
    (q : InterventionRequest) where
  request_of-returns :
      (p : RemediationProposal) (d : PolicyDecision)
      → request_of digest r p d a now ≡ ok q
      → (patch : DeploymentPatch) × (d.patch ≡ some patch)
        × (now < a.expires_at)
        × (approval_matches_record digest r a ≡ true)
        × (patch.target ≡ action_target p.action)
        × (q ≡ hashed digest (draft_of digest r p a patch now))
  unfolding request_of patch_targets_one_workload draft_of
  request_of-returns p d h = elim (Option-cases d.patch) [
    | inl e ↦ absurd (ground arith)
    | inr (patch, e) ↦
        let facts : (now < a.expires_at)
            × (approval_matches_record digest r a ≡ true)
            × (patch.target ≡ action_target p.action)
            × (q ≡ hashed digest (draft_of digest r p a patch now)) =
          ground (arith, ==_eq patch.target (action_target p.action)) in
        (patch, e, facts.0, facts.1, facts.2, facts.3)
  ]

  hashed_verifies :
      (draft : InterventionRequest)
      → (hashed digest draft).payload_hash ≡ intervention_request_hash digest (hashed digest draft)
  unfolding hashed intervention_request_hash
  hashed_verifies draft = refl

  authorises :
      (p : RemediationProposal) (d : PolicyDecision)
      → a.decision ≡ ApprovalDecision.approved
      → passed_review r ≡ some (p, d)
      → request_of digest r p d a now ≡ ok q
      → Authorises digest r a now q
  unfolding hashed draft_of
  authorises p d yes_decided reviewed h =
      let (patch, has_patch, fresh, matches, one, built) = request_of-returns p d h in
      let (proposed, decided, passed) = passed_review-returns r p d reviewed in
      rw built (record {
        approved = yes_decided;
        unexpired = fresh;
        matching = matches;
        verifies = hashed_verifies (draft_of digest r p a patch now);
        incident = refl;
        approval = refl;
        one_workload = one;
        proposal = p;
        policy = d;
        proposed = proposed;
        decided = decided;
        passed = passed;
        reviewed_patch = has_patch;
        target = refl;
      })

  -- A request that is built for a record and an Approval: the Approval approves, has not expired
  -- and matches the record; the record's policy decision passed; and the request verifies against
  -- its own hash, names the incident and the Approval, and carries the reviewed patch, whose
  -- target is the proposal's workload.
  pub build_intervention_request-Authorises :
      build_intervention_request digest r a now ≡ ok q → Authorises digest r a now q
  unfolding build_intervention_request
  build_intervention_request-Authorises h = elim (Option-cases (passed_review r)) [
    | inl e ↦ absurd (ground arith)
    | inr ((p, d), e) ↦ ground (arith, ==_eq a.decision ApprovalDecision.approved, authorises p d)
  ]

-- ===== src/Approvals/Review.antt =====
-- `ApprovalService.review` against the start of `decide`.
use kubecouncil.Base.{
  ◌<◌, String, some, ok, ◌≡◌, ◌∙◌, ap, arith, inl, inr, Option-cases, Result-cases, ==_refl,
  string_eq, nat_eq,
}
use kubecouncil.Domain.Enums.{ApprovalDecision, policy_status_eq}
use kubecouncil.Domain.Evidence.{Instant}
use kubecouncil.Domain.Policy.{
  RemediationProposal, PolicyDecision, DeploymentPolicyState, action_target,
}
use kubecouncil.Domain.Authority.{
  ApprovalBinding, ApprovalReview, approval_binding_eq, has_a_future_expiry,
}
use kubecouncil.Domain.Record.{InvestigationRecord}
use kubecouncil.Binding.{Digest, binding_of, build_approval_binding, passed_review}
use kubecouncil.Store.Access.{Store, get}
use kubecouncil.Approvals.{
  OperatorIdentity, operator_role_eq, Inspect, as_approval_error, require_responder,
  existing_record, existing_proposal, existing_state, approval_of, approval_to_record, review,
}
use kubecouncil.Approvals.Fresh.{as_approval_error-returns}

binding_of_expires :
    (digest : Digest) (r : InvestigationRecord) (p : RemediationProposal) (d : PolicyDecision)
    (state : DeploymentPolicyState) (t : Instant) (b : ApprovalBinding)
    → binding_of digest r p d state t ≡ ok b
    → b.expires_at ≡ t
unfolding binding_of
binding_of_expires digest r p d state t b h = elim (Option-cases d.dry_run_diff) [
  | inl e ↦ absurd (ground arith)
  | inr (diff, e) ↦ ground arith
]

build_expires :
    (digest : Digest) (r : InvestigationRecord) (state : DeploymentPolicyState) (t : Instant)
    (b : ApprovalBinding)
    → build_approval_binding digest r state t ≡ ok b
    → b.expires_at ≡ t
unfolding build_approval_binding
build_expires digest r state t b h = elim (Option-cases (passed_review r)) [
  | inl e ↦ absurd (ground arith)
  | inr ((p, d), e) ↦ ground (arith, binding_of_expires digest r p d state t b)
]

module _ (digest : Digest) (inspect : Inspect) (store : Store) (incident_id : String)
    (identity : OperatorIdentity) (expires_at : Instant) (rv : ApprovalReview) where
  -- The calls of a review that returned.
  looked_up :
      review digest inspect store incident_id identity expires_at ≡ ok rv
      → (r : InvestigationRecord) × (p : RemediationProposal) × (state : DeploymentPolicyState)
        × (get store incident_id ≡ some r)
        × (r.proposal ≡ some p)
        × (inspect (action_target p.action) ≡ ok (some state))
        × (as_approval_error (build_approval_binding digest r state expires_at) ≡ ok rv.binding)
        × (p.proposal_id ≡ rv.proposal_id)
  unfolding review existing_record existing_proposal existing_state
  looked_up h = elim (Option-cases (get store incident_id)) [
    | inl e ↦ absurd (ground arith)
    | inr (r, found) ↦ elim (Option-cases r.proposal) [
      | inl e ↦ absurd (ground arith)
      | inr (p, proposed) ↦ elim (Result-cases (inspect (action_target p.action))) [
        | inr (x, e) ↦ absurd (ground arith)
        | inl (o, looked) ↦ elim (Option-cases o) [
          | inl e ↦ absurd (ground arith)
          | inr (state, e) ↦
              elim (Result-cases
                (as_approval_error (build_approval_binding digest r state expires_at))) [
                  | inl (b, built) ↦
                      (r, p, state, found, proposed, looked ∙ ap ok e, ground arith, ground arith)
                  | inr (x, f) ↦ absurd (ground arith)
                ]
        ]
      ]
    ]
  ]

  decided :
      (decision : ApprovalDecision) (now : Instant) (approval_id : String) (r : InvestigationRecord)
      (p : RemediationProposal) (state : DeploymentPolicyState)
      → review digest inspect store incident_id identity expires_at ≡ ok rv
      → now < rv.binding.expires_at
      → get store incident_id ≡ some r
      → r.proposal ≡ some p
      → inspect (action_target p.action) ≡ ok (some state)
      → as_approval_error (build_approval_binding digest r state rv.binding.expires_at)
        ≡ ok rv.binding
      → approval_to_record digest inspect store incident_id identity decision rv.binding now
          approval_id
        ≡ ok (approval_of approval_id incident_id p identity decision now rv.binding)
  unfolding review approval_to_record existing_record existing_proposal existing_state
      require_responder has_a_future_expiry approval_of
  decided decision now approval_id r p state h fresh found proposed inspected built =
      ground (arith, ==_refl rv.binding)

  -- What a Responder reviewed can be decided before the review ends: when the store and the
  -- inspected Deployment are as they were, `decide` takes the reviewed binding and builds the
  -- Approval of the reviewed proposal.
  pub review-approval_to_record :
      (decision : ApprovalDecision) (now : Instant) (approval_id : String)
      → review digest inspect store incident_id identity expires_at ≡ ok rv
      → now < expires_at
      → (p : RemediationProposal) × (p.proposal_id ≡ rv.proposal_id)
        × (approval_to_record digest inspect store incident_id identity decision rv.binding now
              approval_id
            ≡ ok (approval_of approval_id incident_id p identity decision now rv.binding))
  review-approval_to_record decision now approval_id h fresh =
      let (r, p, state, found, proposed, inspected, built, named) = looked_up h in
      let ends =
        build_expires digest r state expires_at rv.binding
          (as_approval_error-returns _ rv.binding built) in
      (
        p,
        named,
        decided decision now approval_id r p state h (omega (arith, ends, fresh)) found proposed
            inspected
            (ap (λ t. as_approval_error (build_approval_binding digest r state t)) ends ∙ built),
      )

-- ===== src/Approvals/Fresh.antt =====
-- `ApprovalService.decide` up to the Approval that it builds, against what authorises a decision.
use kubecouncil.Base.{
  ◌<◌, String, some, List, [], ◌∷◌, Result, true, value_error, ok, err, ◌≡◌, ◌∙◌, ap, refl, arith,
  inl, inr, Option-cases, Result-cases, ==_eq, is_empty,
}
use kubecouncil.Domain.Enums.{ApprovalDecision}
use kubecouncil.Domain.Evidence.{Instant}
use kubecouncil.Domain.Policy.{RemediationProposal, DeploymentPolicyState, action_target}
use kubecouncil.Domain.Authority.{
  Approval, ApprovalBinding, approval_binding_eq, has_a_future_expiry,
}
use kubecouncil.Domain.Record.{InvestigationRecord}
use kubecouncil.Binding.{Digest, build_approval_binding}
use kubecouncil.Store.Access.{Store, get}
use kubecouncil.Approvals.{
  OperatorRole, OperatorIdentity, operator_role_eq, Inspect, as_approval_error, require_responder,
  existing_record, existing_proposal, existing_state, approval_of, approval_to_record,
}

pub as_approval_error-returns :
    {A : Type 0} (m : Result A) (a : A) → as_approval_error m ≡ ok a → m ≡ ok a
unfolding as_approval_error
as_approval_error-returns (ok b) a h = h
as_approval_error-returns (err (value_error _)) a h = cc
as_approval_error-returns (err _) a h = cc

none_of_empty : {A : Type 0} (xs : List A) → is_empty xs ≡ true → xs ≡ []
none_of_empty [] h = refl
none_of_empty (x ∷ xs) h = cc

module _ (digest : Digest) (inspect : Inspect) (store : Store) (incident_id : String)
    (identity : OperatorIdentity) (decision : ApprovalDecision) (reviewed : ApprovalBinding)
    (now : Instant) (approval_id : String) where
  -- What makes a decision authorised: a Responder decides within the time of the review, the
  -- proposal is undecided, and a binding to the Deployment as it is now equals the reviewed one.
  pub record Authorised (a : Approval) : Type 0 where
    pub responds : identity.role ≡ OperatorRole.responder
    pub unexpired : now < reviewed.expires_at
    pub r : InvestigationRecord
    pub found : get store incident_id ≡ some r
    pub undecided : r.approvals ≡ []
    pub p : RemediationProposal
    pub proposed : r.proposal ≡ some p
    pub state : DeploymentPolicyState
    pub inspected : inspect (action_target p.action) ≡ ok (some state)
    pub fresh : build_approval_binding digest r state reviewed.expires_at ≡ ok reviewed
    pub built : a ≡ approval_of approval_id incident_id p identity decision now reviewed

  -- The tests before and after the Deployment was inspected.
  checked :
      (a : Approval) (r : InvestigationRecord) (p : RemediationProposal)
      (state : DeploymentPolicyState) (b : ApprovalBinding)
      → approval_to_record digest inspect store incident_id identity decision reviewed now
          approval_id
        ≡ ok a
      → get store incident_id ≡ some r
      → r.proposal ≡ some p
      → inspect (action_target p.action) ≡ ok (some state)
      → as_approval_error (build_approval_binding digest r state reviewed.expires_at) ≡ ok b
      → (identity.role ≡ OperatorRole.responder)
        × (now < reviewed.expires_at)
        × (is_empty r.approvals ≡ true)
        × (b ≡ reviewed)
        × (a ≡ approval_of approval_id incident_id p identity decision now b)
  unfolding approval_to_record existing_record existing_proposal existing_state require_responder
      has_a_future_expiry approval_of
  checked a r p state b h found proposed inspected built =
      ground (arith, ==_eq identity.role OperatorRole.responder, ==_eq b reviewed)

  -- The calls that returned on the way.
  looked_up :
      (a : Approval)
      → approval_to_record digest inspect store incident_id identity decision reviewed now
          approval_id
        ≡ ok a
      → (r : InvestigationRecord) × (p : RemediationProposal) × (state : DeploymentPolicyState)
        × (b : ApprovalBinding) × (get store incident_id ≡ some r)
        × (r.proposal ≡ some p)
        × (inspect (action_target p.action) ≡ ok (some state))
        × (as_approval_error (build_approval_binding digest r state reviewed.expires_at) ≡ ok b)
  unfolding approval_to_record existing_record existing_proposal existing_state
  looked_up a h = elim (Option-cases (get store incident_id)) [
    | inl e ↦ absurd (ground arith)
    | inr (r, found) ↦ elim (Option-cases r.proposal) [
      | inl e ↦ absurd (ground arith)
      | inr (p, proposed) ↦ elim (Result-cases (inspect (action_target p.action))) [
        | inr (x, e) ↦ absurd (ground arith)
        | inl (o, looked) ↦ elim (Option-cases o) [
          | inl e ↦ absurd (ground arith)
          | inr (state, e) ↦
              elim (Result-cases
                (as_approval_error (build_approval_binding digest r state reviewed.expires_at))) [
                  | inl (b, built) ↦ (r, p, state, b, found, proposed, looked ∙ ap ok e, built)
                  | inr (x, f) ↦ absurd (ground arith)
                ]
        ]
      ]
    ]
  ]

  -- `decide` goes on to record an Approval only when a Responder decides within the time of the
  -- review, the proposal is undecided, and the binding to the record and to the Deployment as it
  -- is now is the reviewed one; the Approval carries that binding.
  pub approval_to_record-Authorised :
      (a : Approval)
      → approval_to_record digest inspect store incident_id identity decision reviewed now
          approval_id
        ≡ ok a
      → Authorised a
  approval_to_record-Authorised a h =
      let (r, p, state, b, found, proposed, inspected, current) = looked_up a h in
      let (responds, unexpired, undecided, same, built) =
        checked a r p state b h found proposed inspected current in
      record {
        responds = responds;
        unexpired = unexpired;
        r = r;
        found = found;
        undecided = none_of_empty r.approvals undecided;
        p = p;
        proposed = proposed;
        state = state;
        inspected = inspected;
        fresh = as_approval_error-returns _ b current ∙ ap ok same;
        built = built ∙ ap (approval_of approval_id incident_id p identity decision now) same;
      }

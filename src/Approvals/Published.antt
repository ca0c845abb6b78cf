-- ===== src/Approvals/Published.antt =====
-- `ApprovalService.decide` after the decision was recorded: the request and the queue.
use kubecouncil.Base.{
  ℕ, ◌<◌, String, none, some, true, ok, ◌≡◌, ◌∙◌, ap, arith, inl, inr, ==_eq, eq_==, string_eq,
  Option-cases, Result-cases,
}
use kubecouncil.Domain.Enums.{ApprovalDecision, approval_decision_eq, policy_status_eq}
use kubecouncil.Domain.Evidence.{Instant}
use kubecouncil.Domain.Profile.{workload_reference_eq}
use kubecouncil.Domain.Policy.{RemediationProposal, PolicyDecision, DeploymentPatch, action_target}
use kubecouncil.Domain.Authority.{
  Approval, ApprovalBinding, InterventionRequest, patch_targets_one_workload,
}
use kubecouncil.Domain.Record.{AuditEvent, InvestigationRecord}
use kubecouncil.Binding.{Digest, approval_matches_record, approval_matches, passed_review}
use kubecouncil.Store.Decide.{record_approval_decision}
use kubecouncil.Store.Returns
use kubecouncil.Base.Dict.{lookup, insert}
use kubecouncil.Store.Access.{Store, get, amend, required_record, replace}
use kubecouncil.Approvals.Fresh.{approval_to_record-Authorised}
use kubecouncil.Store.Change.{execute, audit_event, approval, apply_change}
use kubecouncil.Queue.{Queue, draft_of, hashed, request_of, build_intervention_request, publish}
use kubecouncil.Approvals.{
  State, Inspect, OperatorIdentity, announce, publish_approved, after_recording, decide,
  approval_to_record, as_approval_error, approval_of, decision_event, request_event,
}
use kubecouncil.Queue.Request.{passed_review-returns}

module _ (digest : Digest) (r : InvestigationRecord) (a : Approval) (now : Instant) where
  -- A matching Approval shows a passed review and names the proposal.
  matching_review :
      approval_matches_record digest r a ≡ true
      → (p : RemediationProposal) × (d : PolicyDecision) × (passed_review r ≡ some (p, d))
        × (a.proposal_id ≡ p.proposal_id)
  unfolding approval_matches_record approval_matches
  matching_review h = elim (Option-cases (passed_review r)) [
    | inl e ↦ absurd (ground arith)
    | inr ((p, d), e) ↦ elim (Option-cases d.dry_run_diff) [
      | inl f ↦ absurd (ground arith)
      | inr (diff, f) ↦ (p, d, e, ground (arith, ==_eq a.proposal_id p.proposal_id))
    ]
  ]

  request_built :
      (p : RemediationProposal) (d : PolicyDecision) (patch : DeploymentPatch)
      → a.decision ≡ ApprovalDecision.approved
      → now < a.expires_at
      → approval_matches_record digest r a ≡ true
      → passed_review r ≡ some (p, d)
      → a.proposal_id ≡ p.proposal_id
      → d.patch ≡ some patch
      → patch.target ≡ action_target p.action
      → build_intervention_request digest r a now
        ≡ ok (hashed digest (draft_of digest r p a patch now))
  unfolding build_intervention_request request_of patch_targets_one_workload draft_of
  request_built p d patch yes_decided fresh matches review named has_patch one = ground (
    arith,
    eq_== a.decision ApprovalDecision.approved yes_decided,
    eq_== a.proposal_id p.proposal_id named,
    eq_== patch.target (action_target p.action) one,
  )

-- The decision that was recorded keeps the proposal, the policy decision and the evidence, so its
-- request is built.
recorded_request :
    (digest : Digest) (id : String) (v : ℕ) (store_now now : Instant) (a : Approval)
    (e : AuditEvent) (r r' : InvestigationRecord) (p : RemediationProposal) (d : PolicyDecision)
    (patch : DeploymentPatch)
    → record_approval_decision digest store_now id v a e r ≡ ok r'
    → a.decision ≡ ApprovalDecision.approved
    → now < a.expires_at
    → r.proposal ≡ some p
    → r.policy_decision ≡ some d
    → d.patch ≡ some patch
    → patch.target ≡ action_target p.action
    → build_intervention_request digest r' a now
      ≡ ok (hashed digest (draft_of digest r' p a patch now))
unfolding approval_matches_record passed_review approval_matches
recorded_request digest id v store_now now a e r r' p d patch h yes_decided fresh proposed decided
      has_patch one =
    let facts = Returns.record_approval_decision-returns id r r' digest store_now v a e h in
    let matches : approval_matches_record digest r' a ≡ true = rw facts.4 facts.3 in
    let (p', d', review, named) = matching_review digest r' a now matches in
    let found = passed_review-returns r' p' d' review in
    let same_p : p' ≡ p =
      cc (found.0, ap (λ (x : InvestigationRecord). x.proposal) facts.4, proposed) in
    let same_d : d' ≡ d =
      cc (found.1, ap (λ (x : InvestigationRecord). x.policy_decision) facts.4, decided) in
    request_built digest r' a now p d patch yes_decided fresh matches
      (review ∙ ap some (cc (same_p, same_d)))
      (named ∙ ap (λ (x : RemediationProposal). x.proposal_id) same_p) has_patch one

announce_publisher :
    (digest : Digest) (store : Store) (requests : Queue) (id : String) (e : AuditEvent)
    → (announce digest store requests id e).0.publisher ≡ some requests
unfolding announce
announce_publisher digest store requests id e =
    elim (Result-cases (execute digest (audit_event e) id store)) [
      | inl (x, h) ↦ ground arith
      | inr (x, h) ↦ ground arith
    ]

publish_new :
    (requests : Queue) (q : InterventionRequest)
    → lookup q.idempotency_key requests ≡ none
    → publish requests q ≡ ok (insert q.idempotency_key q requests)
unfolding publish
publish_new requests q h = ground arith

publish_approved_publisher :
    (digest : Digest) (store : Store) (requests : Queue) (id : String) (r : InvestigationRecord)
    (a : Approval) (now : Instant) (event_id : String) (q : InterventionRequest)
    → build_intervention_request digest r a now ≡ ok q
    → lookup q.idempotency_key requests ≡ none
    → (publish_approved digest store requests id r a now event_id).0.publisher
      ≡ some (insert q.idempotency_key q requests)
unfolding publish_approved
publish_approved_publisher digest store requests id r a now event_id q built new = ground (
  arith,
  publish_new requests q new,
  announce_publisher digest store (insert q.idempotency_key q requests) id
      (request_event event_id id now q),
)

recorded_approval :
    (digest : Digest) (store_now : Instant) (v : ℕ) (a : Approval) (e : AuditEvent) (id : String)
    (store : Store) (r r' : InvestigationRecord)
    → get store id ≡ some r
    → record_approval_decision digest store_now id v a e r ≡ ok r'
    → execute digest (approval store_now v a e) id store
      ≡ ok (insert r'.incident.incident_id r' store, r')
unfolding execute apply_change amend required_record replace
recorded_approval digest store_now v a e id store r r' found h = ground arith

module _ (digest : Digest) (inspect : Inspect) (s : State) (id : String)
    (identity : OperatorIdentity) (reviewed : ApprovalBinding) (now store_now : Instant)
    (approval_id event_id request_event_id : String) (a : Approval) (r r' : InvestigationRecord)
    (p : RemediationProposal) (d : PolicyDecision) (patch : DeploymentPatch)
    (requests : Queue) where
  -- The request of the recorded decision.
  abbrev pub the_request : InterventionRequest
  the_request = hashed digest (draft_of digest r' p a patch now)

  -- An approved decision that the store records is published: when the service has a publisher,
  -- the policy decision has a patch for the proposal's workload, and no request has the new one's
  -- key, then `decide` leaves the request in the queue.
  pub decide_publishes :
      s.publisher ≡ some requests
      → get s.store id ≡ some r
      → approval_to_record digest inspect s.store id identity ApprovalDecision.approved reviewed now
          approval_id
        ≡ ok a
      → record_approval_decision digest store_now id reviewed.incident_version a
          (decision_event event_id a identity)
          r
        ≡ ok r'
      → r.proposal ≡ some p
      → r.policy_decision ≡ some d
      → d.patch ≡ some patch
      → patch.target ≡ action_target p.action
      → lookup the_request.idempotency_key requests ≡ none
      → (decide digest inspect s id identity ApprovalDecision.approved reviewed now store_now
          approval_id event_id request_event_id).0.publisher
        ≡ some (insert the_request.idempotency_key the_request requests)
  unfolding decide after_recording as_approval_error approval_of
  decide_publishes published found ready h proposed decided has_patch one new =
      let v = reviewed.incident_version in
      let e = decision_event event_id a identity in
      let sure =
        approval_to_record-Authorised digest inspect s.store id identity ApprovalDecision.approved
          reviewed now approval_id a ready in
      let yes_decided : a.decision ≡ ApprovalDecision.approved =
        ap (λ (x : Approval). x.decision) sure.built in
      let expires : a.expires_at ≡ reviewed.expires_at =
        ap (λ (x : Approval). x.expires_at) sure.built in
      let built =
        recorded_request digest id v store_now now a e r r' p d patch h yes_decided
          (omega (arith, expires, sure.unexpired)) proposed decided has_patch one in
      let recorded = recorded_approval digest store_now v a e id s.store r r' found h in
      ground (
        arith,
        recorded,
        eq_== a.decision ApprovalDecision.approved yes_decided,
        publish_approved_publisher digest (insert r'.incident.incident_id r' s.store) requests id r'
            a now request_event_id the_request built new,
      )

-- ===== src/Tests/Approving.antt =====
-- A Responder approves the reviewed proposal, and its request is published.
use kubecouncil.Base.{some, [], ◌∷◌, ok, ◌≡◌, refl}
use kubecouncil.Base.Dict.{lookup, insert}
use kubecouncil.Domain.Enums.{ApprovalDecision}
use kubecouncil.Domain.Authority.{
  ApprovalBinding-discrete, InterventionRequest, InterventionRequest-discrete,
  patch_targets_one_workload, has_a_future_expiry,
}
use kubecouncil.Base.{arith}
use kubecouncil.Approvals.Review.{review-approval_to_record}
use kubecouncil.Domain.Policy.{RemediationProposal}
use kubecouncil.Domain.Record.{AuditEvent, InvestigationRecord}
use kubecouncil.Binding.{build_approval_binding, binding_of}
use kubecouncil.Store.Access.{get}
use kubecouncil.Store.Decide.{record_approval_decision}
use kubecouncil.Queue.{
  Queue, build_intervention_request, request_of, hashed, draft_of, idempotency_key_of,
  intervention_request_hash, publish,
}
use kubecouncil.Queue.Request.{Authorises, build_intervention_request-Authorises}
use kubecouncil.Queue.Publish.{publish_idempotent, publish_keeps}
use kubecouncil.Approvals
use kubecouncil.Approvals.{
  OperatorRole, OperatorIdentity, Inspect, State, as_approval_error, require_responder,
  existing_record, existing_proposal, existing_state, approval_of, approval_to_record,
  decision_event, event_type_of, OperatorRole-discrete,
}
use kubecouncil.Approvals.Fresh.{Authorised, approval_to_record-Authorised}
use kubecouncil.Approvals.Published.{the_request, decide_publishes}
use kubecouncil.Tests.Data.{
  target, patch, proposal, decision, state, digest, approval, reviewed_record,
}
use kubecouncil.Tests.Story.{approved_record}
use kubecouncil.Tests.Bindings.{binding}
use kubecouncil.Tests.Stores.{program, both}

abbrev identity : OperatorIdentity
identity = record { principal = "responder"; subject = "subject"; role = OperatorRole.responder }

abbrev inspect : Inspect
inspect _ = ok (some state)

abbrev service : State
service = record { store = both reviewed_record; publisher = some [] }

approving : Unit {0}
unfolding program build_approval_binding binding_of ApprovalBinding-discrete OperatorRole-discrete
    build_intervention_request request_of hashed draft_of idempotency_key_of
    intervention_request_hash patch_targets_one_workload has_a_future_expiry as_approval_error
    require_responder existing_record existing_proposal existing_state approval_of
    approval_to_record decision_event event_type_of publish InterventionRequest-discrete
approving = tt

abbrev request : InterventionRequest
request = record {
  request_id = "request-000000000000000000000000";
  incident_id = "inc-1";
  proposal_id = "proposal-1";
  approval_id = "approval-1";
  target = target;
  patch = patch;
  requested_at = 9200000000;
  idempotency_key = "00000000000000000000000000000000";
  payload_hash = "00000000000000000000000000000000";
}

abbrev queue : Queue
queue = (request.idempotency_key, request) ∷ []

abbrev other_request : InterventionRequest
other_request = record request { idempotency_key = "key-2" }

builds : build_intervention_request digest approved_record approval 9200000000 ≡ ok request
unfolding approving
builds = refl

publishes : publish [] request ≡ ok queue
unfolding approving
publishes = refl

publishes_other : publish queue other_request ≡ ok (insert "key-2" other_request queue)
unfolding approving
publishes_other = refl

stored : lookup request.idempotency_key queue ≡ some request
unfolding approving
stored = refl

prepares :
    approval_to_record digest inspect service.store "inc-1" identity ApprovalDecision.approved
      binding 9200000000 "approval-1"
    ≡ ok approval
unfolding approving
prepares = refl

abbrev event : AuditEvent
event = decision_event "event-1" approval identity

abbrev recorded : InvestigationRecord
recorded = record approved_record { audit_events = (record event { cursor = 1 }) ∷ [] }

records :
    record_approval_decision digest 9200000000 "inc-1" 2 approval event reviewed_record
    ≡ ok recorded
unfolding approving
records = refl

reviewed_stored : get service.store "inc-1" ≡ some reviewed_record
unfolding approving
reviewed_stored = refl

build_intervention_request-Authorises_example :
    Authorises digest approved_record approval 9200000000 request
build_intervention_request-Authorises_example =
    build_intervention_request-Authorises digest approved_record approval 9200000000 request builds

publish_idempotent_example :
    (lookup "00000000000000000000000000000000" queue ≡ some request)
    × (publish queue request ≡ ok queue)
publish_idempotent_example = publish_idempotent [] queue request publishes

publish_keeps_example :
    lookup "00000000000000000000000000000000" (insert "key-2" other_request queue) ≡ some request
publish_keeps_example =
    publish_keeps queue (insert "key-2" other_request queue) request other_request stored
      publishes_other

approval_to_record-Authorised_example :
    Authorised digest inspect service.store "inc-1" identity ApprovalDecision.approved binding
      9200000000 "approval-1" approval
approval_to_record-Authorised_example =
    approval_to_record-Authorised digest inspect service.store "inc-1" identity
      ApprovalDecision.approved binding 9200000000 "approval-1" approval prepares

decide_publishes_example :
    (Approvals.decide digest inspect service "inc-1" identity ApprovalDecision.approved binding
      9200000000 9200000000 "approval-1" "event-1" "event-2").0.publisher
    ≡ some (
        insert
          (the_request digest inspect service "inc-1" identity binding 9200000000 9200000000
            "approval-1" "event-1" "event-2" approval reviewed_record recorded proposal decision
            patch []).idempotency_key
          (the_request digest inspect service "inc-1" identity binding 9200000000 9200000000
            "approval-1" "event-1" "event-2" approval reviewed_record recorded proposal decision
            patch [])
          [])
decide_publishes_example =
    decide_publishes digest inspect service "inc-1" identity binding 9200000000 9200000000
      "approval-1" "event-1" "event-2" approval reviewed_record recorded proposal decision patch []
      refl reviewed_stored prepares records refl refl refl refl (unfold lookup in refl)

reviews :
    Approvals.review digest inspect service.store "inc-1" identity 9500000000
    ≡ ok (record {
      incident_id = "inc-1";
      proposal_id = "proposal-1";
      responder_principal = "responder";
      binding = binding;
    })
unfolding approving Approvals.review
reviews = refl

review-approval_to_record_example :
    (p : RemediationProposal) × (p.proposal_id ≡ "proposal-1")
    × (approval_to_record digest inspect service.store "inc-1" identity ApprovalDecision.rejected
          binding 9300000000 "approval-1"
        ≡ ok (
            approval_of "approval-1" "inc-1" p identity ApprovalDecision.rejected 9300000000
              binding))
review-approval_to_record_example =
    review-approval_to_record digest inspect service.store "inc-1" identity 9500000000
      (record {
        incident_id = "inc-1";
        proposal_id = "proposal-1";
        responder_principal = "responder";
        binding = binding;
      })
      ApprovalDecision.rejected 9300000000 "approval-1" reviews (omega arith)

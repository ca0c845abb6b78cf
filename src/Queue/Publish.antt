-- ===== src/Queue/Publish.antt =====
-- `InMemoryInterventionQueue.publish`, called more than once.
use kubecouncil.Base.{
  String, some, [], ◌∷◌, ok, ◌≡◌, ◌∙◌, ap, arith, inl, inr, Bool-cases, ◌==◌, string_eq, ==_eq,
  ==_refl,
}
use kubecouncil.Base.Dict.{lookup, insert, lookup-insert, lookup-insert_self}
use kubecouncil.Domain.Authority.{InterventionRequest, intervention_request_eq}
use kubecouncil.Queue.{Queue, publish}

-- Writing the value that is stored already changes nothing.
insert_stored :
    (k : String) (q : InterventionRequest) (requests : Queue)
    → lookup k requests ≡ some q
    → insert k q requests ≡ requests
unfolding insert lookup
insert_stored k q [] h = cc
insert_stored k q ((j, p) ∷ rest) h = ground (arith, insert_stored k q rest)

pub publish-returns :
    (requests requests' : Queue) (q : InterventionRequest)
    → publish requests q ≡ ok requests'
    → requests' ≡ insert q.idempotency_key q requests
unfolding publish
publish-returns requests requests' q h = ground arith

publish_stored :
    (requests : Queue) (q : InterventionRequest)
    → lookup q.idempotency_key requests ≡ some q
    → publish requests q ≡ ok requests
unfolding publish
publish_stored requests q h =
    ground (arith, ==_refl q, insert_stored q.idempotency_key q requests h)

-- A request that was published is stored under its key, and publishing it again returns and
-- changes nothing.
pub publish_idempotent :
    (requests requests' : Queue) (q : InterventionRequest)
    → publish requests q ≡ ok requests'
    → (lookup q.idempotency_key requests' ≡ some q) × (publish requests' q ≡ ok requests')
publish_idempotent requests requests' q h =
    let written = publish-returns requests requests' q h in
    let stored =
      ap (lookup q.idempotency_key) written ∙ lookup-insert_self q.idempotency_key q requests in
    (stored, publish_stored requests' q stored)

-- When a request is stored under its key and another publication returns, the request is still
-- stored as it was.
pub publish_keeps :
    (requests requests' : Queue) (p q : InterventionRequest)
    → lookup p.idempotency_key requests ≡ some p
    → publish requests q ≡ ok requests'
    → lookup p.idempotency_key requests' ≡ some p
unfolding publish
publish_keeps requests requests' p q h e =
    let written = publish-returns requests requests' q e in
    elim (Bool-cases (q.idempotency_key == p.idempotency_key)) [
      | inl same ↦
          let found =
            ap (λ k. lookup k requests) (==_eq q.idempotency_key p.idempotency_key same) ∙ h in
          elim (Bool-cases (p == q)) [
            | inl equal ↦ ground (
              arith,
              ==_eq p q equal,
              lookup-insert q.idempotency_key p.idempotency_key q requests,
            )
            | inr other ↦ absurd (ground arith)
          ]
      | inr other ↦ ground (arith, lookup-insert q.idempotency_key p.idempotency_key q requests)
    ]

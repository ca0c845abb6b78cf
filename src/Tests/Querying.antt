-- ===== src/Tests/Querying.antt =====
-- Requests of a Specialist under a budget of two queries.
use kubecouncil.Base.{
  true, none, [], ◌∷◌, ok, err, other_error, ◌≡◌, refl, arith, decide, contains, any, find, filter,
  String-discrete,
}
use kubecouncil.Domain.Enums.{
  SpecialistRole, SpecialistRole-discrete, EvidenceSource, EvidenceQueryKind,
}
use kubecouncil.Domain.Profile.{EvidenceMapping, WorkloadReference-discrete, enrolled_workloads}
use kubecouncil.Domain.Evidence.{EvidenceQuery}
use kubecouncil.Domain.Record.{InvestigationRecord}
use kubecouncil.Store.Append.{append_evidence_query}
use kubecouncil.Gateway.{
  resolve_mapping, by_specialist, latest_round, validate_budget, request_evidence,
}
use kubecouncil.Gateway.Budget.{IsWithinBudget, request_evidence-IsWithinBudget}
use kubecouncil.Tests.Data.{profile, target, first_record}

abbrev mapping : EvidenceMapping
mapping = record {
  source = EvidenceSource.kubernetes;
  kind = EvidenceQueryKind.pod_events;
  scope = target;
  identifier = "events";
  query_template = none;
}

abbrev before : InvestigationRecord
before = record first_record {
  application_profile = record profile { evidence_mappings = mapping ∷ [] };
}

abbrev query : EvidenceQuery
query = record {
  query_id = "query-1";
  incident_id = "inc-1";
  specialist = SpecialistRole.health;
  kind = EvidenceQueryKind.pod_events;
  target = target;
  requested_at = 9000000001;
  query_round = 2;
}

abbrev after : InvestigationRecord
after = record before { evidence_queries = query ∷ [] }

unfoldable program : Unit {0}
unfolding request_evidence resolve_mapping validate_budget by_specialist latest_round find filter
    append_evidence_query contains any enrolled_workloads decide WorkloadReference-discrete
    SpecialistRole-discrete String-discrete
program = tt

requests :
    request_evidence
      (λ _. true)
      "query-1"
      9000000001
      "inc-1"
      SpecialistRole.health
      "events"
      2
      before
    ≡ ok after
unfolding program
requests = refl

-- A third round is past the budget, and the first is before the second.
refuses_third :
    request_evidence (λ _. true) "query-2" 9000000002 "inc-1" SpecialistRole.health "events" 3 after
    ≡ err (other_error "EvidenceGatewayError" "specialist evidence query budget is exhausted")
unfolding program
refuses_third = refl

refuses_backwards :
    request_evidence (λ _. true) "query-2" 9000000002 "inc-1" SpecialistRole.health "events" 1 after
    ≡ err (
        other_error "EvidenceGatewayError" "specialist evidence query rounds cannot move backwards")
unfolding program
refuses_backwards = refl

before-IsWithinBudget : IsWithinBudget before
unfolding by_specialist filter latest_round
before-IsWithinBudget = record { counted = λ s. omega arith; rounds = λ s. omega arith }

request_evidence-IsWithinBudget_example :
    IsWithinBudget after
    × (latest_round (by_specialist SpecialistRole.health after.evidence_queries) ≡ 2)
request_evidence-IsWithinBudget_example =
    request_evidence-IsWithinBudget (λ _. true) "query-1" 9000000001 "inc-1" SpecialistRole.health
      "events" 2 before after requests before-IsWithinBudget

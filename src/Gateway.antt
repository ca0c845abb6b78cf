-- ===== src/Gateway.antt =====
-- The evidence gateway's authority over a query (backend/app/services/evidence_gateway.py):
-- `_resolve_mapping`, `_validate_budget` and the
-- first part of `execute`, up to the query in the record. The query of the provider is not here.
pub mod Budget
use kubecouncil.Base.{
  String, ℕ, zero, Bool, true, false, not, ◌&&◌, ◌||◌, Option, none, some, List, [], ◌∷◌, Result,
  ok, err, ◌>>=◌, ◌>>◌, other_error, raise_if, ◌==◌, string_eq, leb, ltb, if◌then◌else◌, filter,
  find, length, is_empty, Error,
}
use kubecouncil.Domain.Enums.{SpecialistRole, role_eq, EvidenceSource}
use kubecouncil.Domain.Profile.{EvidenceMapping}
use kubecouncil.Domain.Evidence.{Instant, EvidenceQuery}
use kubecouncil.Domain.Record.{InvestigationRecord}
use kubecouncil.Store.Append.{append_evidence_query}

abbrev gateway_error : String → Error
gateway_error = other_error "EvidenceGatewayError"

unfoldable pub resolve_mapping : InvestigationRecord → String → Result EvidenceMapping
resolve_mapping r mapping_identifier =
    elim (find (λ (item : EvidenceMapping). item.identifier == mapping_identifier)
      r.application_profile.evidence_mappings) [
        | none ↦
            err (
              gateway_error "evidence query is not allowlisted by the Incident Application Profile")
        | some mapping ↦ ok mapping
      ]

abbrev pub maximum_queries : InvestigationRecord → ℕ
maximum_queries r = r.application_profile.evidence_budget.maximum_queries_per_specialist

unfoldable pub by_specialist : SpecialistRole → List EvidenceQuery → List EvidenceQuery
by_specialist specialist queries =
    filter (λ (q : EvidenceQuery). q.specialist == specialist) queries

-- `max(query.query_round for query in prior)`, and 0 of none, which no round is below.
unfoldable pub latest_round : List EvidenceQuery → ℕ
latest_round [] = 0
latest_round (q ∷ prior) =
    let rest = latest_round prior in if leb rest q.query_round then q.query_round else rest

unfoldable pub validate_budget : InvestigationRecord → SpecialistRole → ℕ → Result (Unit {0})
validate_budget r specialist query_round =
    let maximum = maximum_queries r in
    let prior = by_specialist specialist r.evidence_queries in
    do
      raise_if (ltb query_round 1 || ltb maximum query_round || leb maximum (length prior))
          (gateway_error "specialist evidence query budget is exhausted")
      raise_if (not (is_empty prior) && ltb query_round (latest_round prior))
          (gateway_error "specialist evidence query rounds cannot move backwards")

-- `execute` up to the query in the record: `available` tells the sources with an adapter.
unfoldable pub request_evidence :
    (EvidenceSource → Bool)
    → String
    → Instant
    → String
    → SpecialistRole
    → String
    → ℕ
    → InvestigationRecord
    → Result InvestigationRecord
request_evidence available query_id now incident_id specialist mapping_identifier query_round r = do
  mapping ← resolve_mapping r mapping_identifier
  validate_budget r specialist query_round
  raise_if (not (available mapping.source))
      (gateway_error "allowlisted evidence provider is unavailable")
  append_evidence_query incident_id
      (record {
        query_id = query_id;
        incident_id = incident_id;
        specialist = specialist;
        kind = mapping.kind;
        target = mapping.scope;
        requested_at = now;
        query_round = query_round;
      })
      r

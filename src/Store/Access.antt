-- ===== src/Store/Access.antt =====
-- `get`, `_required_record`, `_replace`, `timeline`, and what every mutation shares.
use kubecouncil.Base.{
  ℕ, ltb, ◌+◌, String, Option, none, some, List, [], ◌∷◌, ◌++◌, filter, get_last?, Result, ok, err,
  ◌>>=◌, value_error, any, ◌==◌, string_eq, Bool,
}
use kubecouncil.Base.Dict.{Dict, lookup, insert}
use kubecouncil.Domain.Record.{AuditEvent, InvestigationRecord}

abbrev pub Store : Type 0
Store = Dict InvestigationRecord

unfoldable pub get : Store → String → Option InvestigationRecord
get store incident_id = lookup incident_id store

unfoldable pub required_record : Store → String → Result InvestigationRecord
required_record store incident_id = elim (get store incident_id) [
  | none ↦ err (value_error "incident does not exist")
  | some r ↦ ok r
]

unfoldable pub replace : Store → InvestigationRecord → Store × InvestigationRecord
replace store r = (insert r.incident.incident_id r store, r)

-- A mutation reads the record, changes it or raises, and writes it back.
unfoldable pub amend :
    (InvestigationRecord → Result InvestigationRecord)
    → Store
    → String
    → Result (Store × InvestigationRecord)
amend change store incident_id = do
  r ← required_record store incident_id
  changed ← change r
  ok (replace store changed)

-- `record.audit_events[-1].cursor + 1 if record.audit_events else 1`
unfoldable pub next_cursor : InvestigationRecord → ℕ
next_cursor r = elim (get_last? r.audit_events) [ none ↦ 1 | some e ↦ e.cursor + 1 ]

-- `(*record.audit_events, event.model_copy(update={"cursor": next_cursor}))`
unfoldable pub with_event : InvestigationRecord → AuditEvent → List AuditEvent
with_event r event = r.audit_events ++ (record event { cursor = next_cursor r }) ∷ []

-- `any(item.event_id == event.event_id for item in record.audit_events)`
abbrev pub has_event : InvestigationRecord → AuditEvent → Bool
has_event r event = any (λ (item : AuditEvent). item.event_id == event.event_id) r.audit_events

unfoldable pub timeline : Store → String → ℕ → Result (List AuditEvent)
timeline store incident_id after = do
  r ← required_record store incident_id
  ok (filter (λ (e : AuditEvent). ltb after e.cursor) r.audit_events)

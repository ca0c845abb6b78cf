-- ===== src/Durable.antt =====
-- `FirestoreIncidentStore` and `InMemoryDocumentDatabase` (backend/app/services/incident_store.py):
-- incidents as JSON documents, each mutated in one transaction.
pub mod Refine
pub mod Reads
use kubecouncil.Base.{
  ℕ, ltb, String, Bool, true, false, Option, none, some, List, [], ◌∷◌, filter, Result, ok, err,
  ◌>>=◌, ◌>>◌, value_error, raise_if, is_some,
}
use kubecouncil.Base.Dict.{Dict, lookup, insert}
use kubecouncil.Domain.Profile.{ApplicationProfile}
use kubecouncil.Domain.Evidence.{AlertSignal}
use kubecouncil.Domain.Record.{AuditEvent, InvestigationRecord}
use kubecouncil.Binding.{Digest}
use kubecouncil.Store.Access.{Store}
use kubecouncil.Store.Create.{create, newest_first}
use kubecouncil.Store.Change.{Change, execute}

-- pydantic's `model_dump(mode="json")` and `model_validate` of a record, which raises on a
-- document that is no valid record.
pub record Codec (Document : Type 0) : Type 0 where
  pub model_dump : InvestigationRecord → Document
  pub model_validate : Document → Result InvestigationRecord

module _ (digest : Digest) {Document : Type 0} (codec : Codec Document) where
  -- `InMemoryDocumentDatabase.create`
  unfoldable pub create_document : Dict Document → String → Document → Result (Dict Document)
  create_document documents id value = do
    raise_if (is_some (lookup id documents)) (value_error "incident already exists")
    ok (insert id value documents)

  -- `InMemoryDocumentDatabase.transaction`, with the value that the update computed on the way.
  unfoldable pub transaction :
      Dict Document
      → String
      → (Document → Result (Document × InvestigationRecord))
      → Result (Dict Document × InvestigationRecord)
  transaction documents id update = elim (lookup id documents) [
    | none ↦ err (value_error "incident does not exist")
    | some current ↦ do
      replacement ← update current
      ok (insert id replacement.0 documents, replacement.1)
  ]

  -- The update that `_mutate` makes of a document: the mutation runs on an in-memory store that
  -- holds this record only.
  unfoldable pub update_document :
      Change → String → Document → Result (Document × InvestigationRecord)
  update_document change id document = do
    current ← codec.model_validate document
    answer ← execute digest change id ((id, current) ∷ [])
    ok (codec.model_dump answer.1, answer.1)

  -- `_mutate`, for the method that the change names.
  unfoldable pub mutate :
      Change → String → Dict Document → Result (Dict Document × InvestigationRecord)
  mutate change id documents = transaction documents id (update_document change id)

  unfoldable pub create_durable :
      Dict Document
      → ApplicationProfile
      → AlertSignal
      → String
      → String
      → Result (Dict Document × InvestigationRecord)
  create_durable documents profile signal incident_id window_id = do
    delegate ← create [] profile signal incident_id window_id
    created ←
        create_document documents delegate.1.incident.incident_id (codec.model_dump delegate.1)
    ok (created, delegate.1)

  -- The method `get`.
  unfoldable pub read : Dict Document → String → Result (Option InvestigationRecord)
  read documents id = elim (lookup id documents) [
    | none ↦ ok none
    | some document ↦ do r ← codec.model_validate document; ok (some r)
  ]

  unfoldable pub read_timeline : Dict Document → String → ℕ → Result (List AuditEvent)
  read_timeline documents id after = do
    found ← read documents id
    elim found [
      | none ↦ err (value_error "incident does not exist")
      | some r ↦ ok (filter (λ (e : AuditEvent). ltb after e.cursor) r.audit_events)
    ]

  unfoldable pub validate_all : Dict Document → Result (List InvestigationRecord)
  validate_all [] = ok []
  validate_all ((_, document) ∷ rest) =
      codec.model_validate document >>= λ r. validate_all rest >>= λ rs. ok (r ∷ rs)

  -- The method `list`.
  unfoldable pub read_all : Dict Document → Result (List InvestigationRecord)
  read_all documents = do records ← validate_all documents; ok (newest_first records)

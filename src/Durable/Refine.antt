-- ===== src/Durable/Refine.antt =====
-- The mutations of `FirestoreIncidentStore` against those of the in-memory store, for a codec
-- under which validating the dump of a record validates the record.
use kubecouncil.Base.{
  String, Option, none, some, [], ◌∷◌, Result, Error, ok, err, value_error, ◌≡◌, ◌∙◌, ap, sym, refl,
  subst, arith, inl, inr, Bool-cases, Option-cases, Result-cases, ◌==◌, string_eq, ==_refl,
}
use kubecouncil.Base.Dict.{Dict, lookup, insert, lookup-insert}
use kubecouncil.Domain.Record.{InvestigationRecord, all_entries_belong_to_the_incident}
use kubecouncil.Binding.{Digest}
use kubecouncil.Store.Access.{Store, get, amend, required_record, replace}
use kubecouncil.Store.Change.{Change, apply_change, execute}
use kubecouncil.Store.Invariant.{apply_change-IsSound}
use kubecouncil.Store.Reachable.{IsReachable, IsReachable-IsSound}
use kubecouncil.Durable.{Codec, mutate, transaction, update_document}

-- Dumping a record and validating the dump validates the record.
abbrev pub RoundTrips : {Document : Type 0} → Codec Document → Type 0
RoundTrips codec =
    (r : InvestigationRecord)
    → codec.model_validate (codec.model_dump r) ≡ all_entries_belong_to_the_incident r

-- The documents are the dumps of the store's records.
abbrev pub dumped :
    {Document : Type 0} → Codec Document → Option InvestigationRecord → Option Document
dumped codec none = none
dumped codec (some r) = some (codec.model_dump r)

abbrev pub Represents : {Document : Type 0} → Codec Document → Dict Document → Store → Type 0
Represents codec documents store = (id : String) → lookup id documents ≡ dumped codec (get store id)

-- Both raise the same error, or both return the same record and the stores still agree.
abbrev pub Agrees :
    {Document : Type 0}
    → Codec Document
    → Result (Dict Document × InvestigationRecord)
    → Result (Store × InvestigationRecord)
    → Type 0
Agrees codec (ok (documents, r)) (ok (store, s)) = Represents codec documents store × (r ≡ s)
Agrees codec (err e) (err f) = e ≡ f
Agrees codec _ _ = ⊥

module _ (digest : Digest) {Document : Type 0} (codec : Codec Document) where
  insert-Represents :
      (documents : Dict Document) (store : Store) (id : String) (r : InvestigationRecord)
      → Represents codec documents store
      → Represents codec (insert id (codec.model_dump r) documents) (insert id r store)
  unfolding get
  insert-Represents documents store id r same j = elim (Bool-cases (id == j)) [
    | inl e ↦
        ground
          (arith, lookup-insert id j r store, lookup-insert id j (codec.model_dump r) documents)
    | inr e ↦ ground (
      arith,
      lookup-insert id j r store,
      lookup-insert id j (codec.model_dump r) documents,
      same j,
    )
  ]

  -- The delegate store of one record.
  delegate_get : (id : String) (r : InvestigationRecord) → get ((id, r) ∷ []) id ≡ some r
  unfolding get lookup
  delegate_get id r = ground (arith, ==_refl id)

  execute_found :
      (c : Change) (id : String) (store : Store) (r s : InvestigationRecord)
      → get store id ≡ some r
      → apply_change digest c id r ≡ ok s
      → execute digest c id store ≡ ok (insert s.incident.incident_id s store, s)
  unfolding execute amend required_record replace
  execute_found c id store r s found changed = ground arith

  execute_raised :
      (c : Change) (id : String) (store : Store) (r : InvestigationRecord) {e : Error}
      → get store id ≡ some r
      → apply_change digest c id r ≡ err e
      → execute digest c id store ≡ err e
  unfolding execute amend required_record replace
  execute_raised c id store r found raised = ground arith

  mutate_returned :
      (c : Change) (id : String) (store : Store) (documents : Dict Document)
      (r s : InvestigationRecord)
      → codec.model_validate (codec.model_dump r) ≡ ok r
      → lookup id documents ≡ some (codec.model_dump r)
      → apply_change digest c id r ≡ ok s
      → mutate digest codec c id documents ≡ ok (insert id (codec.model_dump s) documents, s)
  unfolding mutate transaction update_document
  mutate_returned c id store documents r s valid found changed =
      ground (arith, execute_found c id ((id, r) ∷ []) r s (delegate_get id r) changed)

  mutate_raised :
      (c : Change) (id : String) (documents : Dict Document) (r : InvestigationRecord) {e : Error}
      → codec.model_validate (codec.model_dump r) ≡ ok r
      → lookup id documents ≡ some (codec.model_dump r)
      → apply_change digest c id r ≡ err e
      → mutate digest codec c id documents ≡ err e
  unfolding mutate transaction update_document
  mutate_raised c id documents r valid found raised =
      ground (arith, execute_raised c id ((id, r) ∷ []) r (delegate_get id r) raised)

  mutate_missing :
      (c : Change) (id : String) (documents : Dict Document)
      → lookup id documents ≡ none
      → mutate digest codec c id documents ≡ err (value_error "incident does not exist")
  unfolding mutate transaction
  mutate_missing c id documents absent = ground arith

  execute_missing :
      (c : Change) (id : String) (store : Store)
      → get store id ≡ none
      → execute digest c id store ≡ err (value_error "incident does not exist")
  unfolding execute amend required_record
  execute_missing c id store missing = ground arith

  -- Every mutation of the durable store, on documents that are the dumps of a store that calls
  -- built, raises what the in-memory store raises, or returns the same record and leaves the
  -- documents the dumps of the in-memory store's new records; given that validating the dump of a
  -- record validates the record.
  pub mutate-Agrees-execute :
      (c : Change) (id : String) (store : Store) (documents : Dict Document)
      → RoundTrips codec
      → IsReachable digest store
      → Represents codec documents store
      → Agrees codec (mutate digest codec c id documents) (execute digest c id store)
  mutate-Agrees-execute c id store documents trips reach same = elim (Option-cases (get store id)) [
    | inl missing ↦
        let absent = same id ∙ ap (dumped codec) missing in
        rw (mutate_missing c id documents absent, execute_missing c id store missing) refl
    | inr (r, found) ↦
        let sound = IsReachable-IsSound digest store id r reach found in
        let valid = trips r ∙ sound.valid in
        let present = same id ∙ ap (dumped codec) found in
        elim (Result-cases (apply_change digest c id r)) [
          | inl (s, changed) ↦
              let keyed = (apply_change-IsSound digest id r s c sound changed).keyed in
              rw
                (
                  mutate_returned c id store documents r s valid present changed,
                  execute_found c id store r s found changed,
                )
                (
                  subst
                      (λ k.
                        Represents codec (insert id (codec.model_dump s) documents)
                          (insert k s store))
                      (sym keyed) (insert-Represents documents store id s same),
                  refl,
                )
          | inr (e, raised) ↦
              rw
                (
                  mutate_raised c id documents r valid present raised,
                  execute_raised c id store r found raised,
                )
                refl
        ]
  ]

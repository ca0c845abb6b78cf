-- ===== src/Durable/Reads.antt =====
-- `get` and `timeline` of `FirestoreIncidentStore` against those of the in-memory store.
use kubecouncil.Base.{ℕ, String, none, some, ok, ◌≡◌, ◌∙◌, ap, arith, inl, inr, Option-cases}
use kubecouncil.Base.Dict.{Dict, lookup}
use kubecouncil.Domain.Record.{InvestigationRecord}
use kubecouncil.Binding.{Digest}
use kubecouncil.Store.Access.{Store, get, required_record, timeline}
use kubecouncil.Store.Reachable.{IsReachable, IsReachable-IsSound}
use kubecouncil.Durable.{Codec, read, read_timeline}
use kubecouncil.Durable.Refine.{RoundTrips, dumped, Represents}

module _ (digest : Digest) {Document : Type 0} (codec : Codec Document) where
  read_found :
      (documents : Dict Document) (id : String) (r : InvestigationRecord)
      → lookup id documents ≡ some (codec.model_dump r)
      → codec.model_validate (codec.model_dump r) ≡ ok r
      → read digest codec documents id ≡ ok (some r)
  unfolding read
  read_found documents id r found valid = ground arith

  read_missing :
      (documents : Dict Document) (id : String)
      → lookup id documents ≡ none
      → read digest codec documents id ≡ ok none
  unfolding read
  read_missing documents id absent = ground arith

  read-get :
      (store : Store) (documents : Dict Document) (id : String)
      → RoundTrips codec
      → IsReachable digest store
      → Represents codec documents store
      → read digest codec documents id ≡ ok (get store id)
  read-get store documents id trips reach same = elim (Option-cases (get store id)) [
    | inl missing ↦ rw missing (read_missing documents id (same id ∙ ap (dumped codec) missing))
    | inr (r, found) ↦ rw found (
        read_found documents id r (same id ∙ ap (dumped codec) found)
          (trips r ∙ (IsReachable-IsSound digest store id r reach found).valid))
  ]

  -- On documents that are the dumps of a store that calls built, `get` of the durable store
  -- returns what the in-memory store holds, and `timeline` returns or raises what the in-memory
  -- store's does; given that validating the dump of a record validates the record.
  pub reads_agree :
      (store : Store) (documents : Dict Document) (id : String) (after : ℕ)
      → RoundTrips codec
      → IsReachable digest store
      → Represents codec documents store
      → (read digest codec documents id ≡ ok (get store id))
        × (read_timeline digest codec documents id after ≡ timeline store id after)
  unfolding read_timeline timeline required_record
  reads_agree store documents id after trips reach same =
      let found = read-get store documents id trips reach same in
      (
        found,
        elim (Option-cases (get store id)) [
          | inl missing ↦ ground arith
          | inr (r, stored) ↦ ground arith
        ],
      )

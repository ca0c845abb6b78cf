-- ===== src/Tests/Durables.antt =====
-- A mutation of the durable store, with a codec that keeps a record as it is.
use kubecouncil.Base.{Option, none, some, ok, ◌≡◌, refl}
use kubecouncil.Base.Dict.{lookup}
use kubecouncil.Domain.Record.{InvestigationRecord, all_entries_belong_to_the_incident}
use kubecouncil.Store.Access.{get, timeline}
use kubecouncil.Store.Change.{execute, intervention}
use kubecouncil.Durable.{Codec, mutate, read, read_timeline}
use kubecouncil.Durable.Reads.{reads_agree}
use kubecouncil.Durable.Refine.{Agrees, Represents, dumped, mutate-Agrees-execute}
use kubecouncil.Tests.Data.{digest, event}
use kubecouncil.Tests.Story.{approved_record, claimed}
use kubecouncil.Tests.Stores.{both, until_approved}

abbrev codec : Codec InvestigationRecord
codec = record { model_dump = λ r. r; model_validate = all_entries_belong_to_the_incident }

dumped_same : (o : Option InvestigationRecord) → o ≡ dumped codec o
dumped_same none = refl
dumped_same (some r) = refl

represents : Represents codec (both approved_record) (both approved_record)
unfolding get
represents id = dumped_same (lookup id (both approved_record))

mutate-Agrees-execute_example :
    Agrees codec
      (mutate digest codec
        (intervention 3 claimed (event "event-2" "intervention_claimed"))
        "inc-1"
        (both approved_record))
      (execute digest
        (intervention 3 claimed (event "event-2" "intervention_claimed"))
        "inc-1"
        (both approved_record))
mutate-Agrees-execute_example =
    mutate-Agrees-execute digest codec
      (intervention 3 claimed (event "event-2" "intervention_claimed")) "inc-1"
      (both approved_record) (both approved_record) (λ r. refl) until_approved represents

reads_agree_example :
    (read digest codec (both approved_record) "inc-2" ≡ ok (get (both approved_record) "inc-2"))
    × (read_timeline digest codec (both approved_record) "inc-2" 0
        ≡ timeline (both approved_record) "inc-2" 0)
reads_agree_example =
    reads_agree digest codec (both approved_record) (both approved_record) "inc-2" 0 (λ r. refl)
      until_approved represents

-- ===== src/Executor/Machine.antt =====
-- What the Executor acts on: the incident store, the workload leases, and what is outside them;
-- `_event` and the calls that record one.
use Prim.Native.String.{◌++◌ as ◌<>◌}
use kubecouncil.Base.{String, Option, List, ◌∷◌, Result}
use kubecouncil.Base.Effects.{Effect, read, attempt, ◌>>=◌, zoom}
use kubecouncil.Domain.Evidence.{Instant}
use kubecouncil.Domain.Authority.{InterventionRequest}
use kubecouncil.Domain.Record.{AuditEvent, InvestigationRecord}
use kubecouncil.Binding.{Digest}
use kubecouncil.Lease.{Leases}
use kubecouncil.Store.Access.{Store, get}
use kubecouncil.Store.Change.{Change, audit_event, execute}
use kubecouncil.Policy.Outside.{ExecutorKubernetes}

pub record Machine (E : Type 0) : Type 0 where
  pub store : Store
  pub leases : Leases
  pub outside : E

-- `_event`; `token` is the fresh UUID in its id.
unfoldable pub event :
    InterventionRequest → String → Instant → String → List (String × String) → AuditEvent
event q event_type occurred_at token details = record {
  event_id = "audit-" <> token;
  incident_id = q.incident_id;
  event_type = event_type;
  occurred_at = occurred_at;
  actor = "deterministic-executor";
  details = ("request_id", q.request_id) ∷ ("idempotency_key", q.idempotency_key) ∷ details;
  cursor = 0;
}

module _ {E : Type 0} where
  unfoldable pub on_outside : {A : Type 0} → Effect E A → Effect (Machine E) A
  on_outside = zoom (λ m. m.outside) (λ outside m. record m { outside = outside })

  unfoldable pub on_leases : {A : Type 0} → (Leases → Result (Leases × A)) → Effect (Machine E) A
  on_leases f = zoom (λ m. m.leases) (λ leases m. record m { leases = leases }) (attempt f)

  unfoldable pub stored : String → Effect (Machine E) (Option InvestigationRecord)
  stored incident_id = read (λ m. get m.store incident_id)

  unfoldable pub call_store : Digest → Change → String → Effect (Machine E) InvestigationRecord
  call_store digest change incident_id =
      zoom (λ m. m.store) (λ store m. record m { store = store })
        (attempt (execute digest change incident_id))

module _ {E : Type 0} (digest : Digest) (outside : ExecutorKubernetes E)
    (q : InterventionRequest) where
  -- `store.append_audit_event(request.incident_id, self._event(request, …))`
  unfoldable pub append_at :
      String → Instant → List (String × String) → Effect (Machine E) InvestigationRecord
  append_at event_type occurred_at details = do
    token ← on_outside outside.policy.uuid4_hex
    call_store digest (audit_event (event q event_type occurred_at token details)) q.incident_id

  -- The same with `self._clock()` as the time.
  unfoldable pub append_now :
      String → List (String × String) → Effect (Machine E) InvestigationRecord
  append_now event_type details = do
    now ← on_outside outside.clock
    append_at event_type now details

  -- An event that is passed to another call of the store.
  unfoldable pub event_now : String → List (String × String) → Effect (Machine E) AuditEvent
  event_now event_type details = do
    now ← on_outside outside.clock
    token ← on_outside outside.policy.uuid4_hex
    read (λ m. event q event_type now token details)

-- ===== src/Lease.antt =====
-- Workload leases (backend/app/services/workload_lease.py): `FirestoreWorkloadLeaseStore` over
-- `InMemoryLeaseDatabase`. A document is the lease that was dumped to it, and is validated
-- again when it is read; a transaction is atomic, and leaves the documents alone when its update
-- raises.
pub mod Keys
pub mod Exclusion
use kubecouncil.Base.{
  ℕ, ◌+◌, leb, ltb, String, Bool, true, false, not, ◌&&◌, ◌||◌, Option, none, some, Result, ok, err,
  ◌>>=◌, ◌>>◌, value_error, raise_if, ◌==◌, string_eq, if◌then◌else◌,
}
use Prim.Native.String.{◌++◌}
use kubecouncil.Base.Dict.{Dict, lookup, insert, erase}
use kubecouncil.Domain.Profile.{WorkloadReference, WorkloadKind, deployment}
use kubecouncil.Domain.Evidence.{Instant}
use kubecouncil.Domain.Authority.{WorkloadLease, expires_after_acquisition}

abbrev pub Leases : Type 0
Leases = Dict WorkloadLease

-- `self.kind.lower()`
abbrev pub lower_kind : WorkloadKind → String
lower_kind deployment = "deployment"

-- `_key`
unfoldable pub lease_key : WorkloadReference → String
lease_key target = target.namespace ++ ("--" ++ (lower_kind target.kind ++ ("--" ++ target.name)))

-- `InMemoryLeaseDatabase.transaction`: the replacement is stored, or the document dropped.
unfoldable pub put_document : Leases → String → Option WorkloadLease → Leases
put_document leases key none = erase key leases
put_document leases key (some l) = insert key l leases

-- `existing is not None and existing.expires_at > now`
unfoldable pub is_live : Option WorkloadLease → Instant → Bool
is_live none now = false
is_live (some l) now = ltb now l.expires_at

-- The lease that `acquire` builds; `token` is its fresh UUID.
abbrev pub new_lease : WorkloadReference → String → String → String → Instant → ℕ → WorkloadLease
new_lease target intervention_id owner token now ttl = record {
  lease_key = lease_key target;
  target = target;
  intervention_id = intervention_id;
  owner = owner;
  token = token;
  acquired_at = now;
  expires_at = now + ttl;
}

-- `WorkloadLease.model_validate(current) if current is not None else None`
unfoldable pub read_lease : Option WorkloadLease → Result (Option WorkloadLease)
read_lease none = ok none
read_lease (some l) = do existing ← expires_after_acquisition l; ok (some existing)

-- Whether `update` of `acquire` leaves a live lease; its UUID is drawn only when not.
unfoldable pub is_held : Leases → WorkloadReference → Instant → Result Bool
is_held leases target now = do
  existing ← read_lease (lookup (lease_key target) leases)
  ok (is_live existing now)

unfoldable pub acquire :
    Leases
    → WorkloadReference
    → String
    → String
    → String
    → Instant
    → ℕ
    → Result (Leases × Option WorkloadLease)
acquire leases target intervention_id owner token now ttl =
    let taken = do
      l ← expires_after_acquisition (new_lease target intervention_id owner token now ttl)
      ok (put_document leases (lease_key target) (some l), some l)
    in do held ← is_held leases target now; if held then ok (leases, none) else taken

-- `existing.token != lease.token or existing.owner != lease.owner`
unfoldable pub is_foreign : WorkloadLease → WorkloadLease → Bool
is_foreign existing l = not (existing.token == l.token) || not (existing.owner == l.owner)

unfoldable pub renew : Leases → WorkloadLease → Instant → ℕ → Result (Leases × WorkloadLease)
renew leases l now ttl = elim (lookup l.lease_key leases) [
  | none ↦ err (value_error "workload lease was lost before renewal")
  | some current ↦ do
    existing ← expires_after_acquisition current
    raise_if (is_foreign existing l) (value_error "workload lease ownership changed before renewal")
    raise_if (leb existing.expires_at now) (value_error "workload lease expired before renewal")
    ok (
      put_document leases l.lease_key (some (record existing { expires_at = now + ttl })),
      record existing { expires_at = now + ttl },
    )
]

unfoldable pub release : Leases → WorkloadLease → Result Leases
release leases l = elim (lookup l.lease_key leases) [
  | none ↦ ok (put_document leases l.lease_key none)
  | some current ↦ do
    existing ← expires_after_acquisition current
    raise_if (is_foreign existing l)
        (value_error "cannot release a workload lease owned by another Executor")
    ok (put_document leases l.lease_key none)
]

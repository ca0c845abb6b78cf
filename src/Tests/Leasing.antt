-- ===== src/Tests/Leasing.antt =====
-- Two Executors and one workload.
use kubecouncil.Base.{none, some, List, [], ◌∷◌, ok, err, value_error, ◌≡◌, refl, arith}
use Prim.Native.String.{◌++◌}
use kubecouncil.Base.Dict.{lookup, insert, erase}
use kubecouncil.Domain.Authority.{WorkloadLease, expires_after_acquisition}
use kubecouncil.Lease.{
  Leases, lease_key, put_document, is_live, read_lease, is_held, new_lease, acquire, is_foreign,
  renew, release,
}
use kubecouncil.Lease.Exclusion.{
  Call, acquiring, renewing, releasing, calls, calls_keep_lease, acquire_exclusive, AllForeign,
}
use kubecouncil.Lease.Keys.{workload, lease_key_shared}
use kubecouncil.Tests.Data.{target}

program : Unit {0}
unfolding acquire is_held read_lease renew release put_document is_live is_foreign lookup insert
    erase expires_after_acquisition lease_key
program = tt

abbrev mine : WorkloadLease
mine = new_lease target "intervention-1" "executor-a" "token-aaaa" 1000 30

abbrev theirs : WorkloadLease
theirs = new_lease target "intervention-2" "executor-b" "token-bbbb" 1010 30

abbrev held : Leases
held = (lease_key target, mine) ∷ []

-- Executor B tries to acquire, to renew and to release.
abbrev attempts : List Call
attempts =
    acquiring target "intervention-2" "executor-b" "token-bbbb" 1010 30
    ∷ renewing theirs 1015 30
    ∷ releasing theirs
    ∷ []

acquire_free :
    acquire [] target "intervention-1" "executor-a" "token-aaaa" 1000 30 ≡ ok (held, some mine)
unfolding program
acquire_free = refl

attempts_foreign : AllForeign mine attempts
unfolding program
attempts_foreign = (omega arith, (refl, (refl, tt)))

-- After its expiry a lease can be taken over, and its old holder cannot release it.
acquire_expired :
    acquire held target "intervention-2" "executor-b" "token-bbbb" 1030 30
    ≡ ok (
      (lease_key target, new_lease target "intervention-2" "executor-b" "token-bbbb" 1030 30) ∷ [],
      some (new_lease target "intervention-2" "executor-b" "token-bbbb" 1030 30),
    )
unfolding program
acquire_expired = refl

-- A renewal by a clock that has stepped back stores a lease that no call accepts any more.
abbrev stepped_back : WorkloadLease
stepped_back = record mine { expires_at = 930 }

renew_back : renew held mine 900 30 ≡ ok ((lease_key target, stepped_back) ∷ [], stepped_back)
unfolding program
renew_back = refl

acquire_after_step :
    acquire
      ((lease_key target, stepped_back) ∷ [])
      target
      "intervention-2"
      "executor-b"
      "token-bbbb"
      5000
      30
    ≡ err (value_error "workload lease expiry must follow acquisition")
unfolding program
acquire_after_step = refl

release_after_step :
    release ((lease_key target, stepped_back) ∷ []) mine
    ≡ err (value_error "workload lease expiry must follow acquisition")
unfolding program
release_after_step = refl

release-theirs :
    release held theirs
    ≡ err (value_error "cannot release a workload lease owned by another Executor")
unfolding program
release-theirs = refl

calls_keep_lease_example : lookup (lease_key target) (calls held attempts) ≡ some mine
calls_keep_lease_example =
    calls_keep_lease (lease_key target) mine held attempts (unfold lookup lease_key in refl)
      attempts_foreign

acquire_exclusive_example :
    (acquire (calls held attempts) target "intervention-2" "executor-b" "token-bbbb" 1029 30
      ≡ ok (calls held attempts, none))
    × (renew (calls held attempts) mine 1029 30
        ≡ ok (
          put_document
              (calls held attempts)
              mine.lease_key
              (some (record mine { expires_at = 1059 })),
          record mine { expires_at = 1059 },
        ))
acquire_exclusive_example =
    acquire_exclusive target mine [] held attempts "intervention-1" "executor-a" "token-aaaa"
      "intervention-2" "executor-b" "token-bbbb" 1000 1029 30 30 acquire_free attempts_foreign
      (omega arith)

lease_key_shared_example :
    lease_key (workload "shop" ("cart" ++ ("--deployment--" ++ "db")))
    ≡ lease_key (workload ("shop" ++ ("--deployment--" ++ "cart")) "db")
lease_key_shared_example = lease_key_shared "shop" "cart" "db"

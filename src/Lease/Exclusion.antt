-- ===== src/Lease/Exclusion.antt =====
-- Sequences of calls of the lease store, by several Executors.
use kubecouncil.Base.{
  ℕ, ◌+◌, ◌<◌, String, true, false, Option, none, some, List, [], ◌∷◌, Result, ok, err, ◌≡◌, ◌∙◌,
  ap, subst, sym, arith, Bool-cases, Option-cases, inl, inr, ◌==◌, string_eq, ==_eq, ==_refl,
}
use kubecouncil.Base.Dict.{lookup, lookup-insert, lookup-erase, lookup-insert_self}
use kubecouncil.Domain.Profile.{WorkloadReference}
use kubecouncil.Domain.Evidence.{Instant}
use kubecouncil.Domain.Authority.{WorkloadLease, expires_after_acquisition}
use kubecouncil.Lease.{
  Leases, lease_key, put_document, is_live, new_lease, read_lease, is_held, acquire, is_foreign,
  renew, release,
}

-- A call by some Executor.
pub data Call : Type 0 where
  acquiring : WorkloadReference → String → String → String → Instant → ℕ → Call
  renewing : WorkloadLease → Instant → ℕ → Call
  releasing : WorkloadLease → Call

abbrev after_acquire : Leases → Result (Leases × Option WorkloadLease) → Leases
after_acquire leases (ok (leases', _)) = leases'
after_acquire leases (err _) = leases

abbrev after_renew : Leases → Result (Leases × WorkloadLease) → Leases
after_renew leases (ok (leases', _)) = leases'
after_renew leases (err _) = leases

abbrev after_release : Leases → Result Leases → Leases
after_release leases (ok leases') = leases'
after_release leases (err _) = leases

-- The documents after a call; one that raises changes nothing.
pub call : Leases → Call → Leases
call leases (acquiring target i owner token now ttl) =
    after_acquire leases (acquire leases target i owner token now ttl)
call leases (renewing l now ttl) = after_renew leases (renew leases l now ttl)
call leases (releasing l) = after_release leases (release leases l)

pub calls : Leases → List Call → Leases
calls leases [] = leases
calls leases (c ∷ cs) = calls (call leases c) cs

-- The call comes before the lease expires, and is not made with the lease's token and owner.
abbrev pub IsForeignCall : WorkloadLease → Call → Type 0
IsForeignCall l (acquiring _ _ _ _ now _) = now < l.expires_at
IsForeignCall l (renewing m now _) = is_foreign l m ≡ true
IsForeignCall l (releasing m) = is_foreign l m ≡ true

abbrev pub AllForeign : WorkloadLease → List Call → Type 0
AllForeign l [] = Unit {0}
AllForeign l (c ∷ cs) = IsForeignCall l c × AllForeign l cs

-- A lookup under an equal key.
same_key :
    (key j : String) (leases : Leases) (l : WorkloadLease)
    → (j == key) ≡ true
    → lookup key leases ≡ some l
    → lookup j leases ≡ some l
same_key key j leases l e h = ap (λ k. lookup k leases) (==_eq j key e) ∙ h

call_keeps :
    (key : String) (l : WorkloadLease) (leases : Leases) (c : Call)
    → lookup key leases ≡ some l
    → IsForeignCall l c
    → lookup key (call leases c) ≡ some l
unfolding call acquire is_held read_lease renew release put_document is_live
    expires_after_acquisition
call_keeps key l leases (acquiring target i owner token now ttl) h f =
    elim (Bool-cases (lease_key target == key)) [
      | inl same ↦ ground (arith, same_key key (lease_key target) leases l same h)
      | inr other ↦ ground (
        arith,
        lookup-insert (lease_key target) key (new_lease target i owner token now ttl) leases,
      )
    ]
call_keeps key l leases (renewing m now ttl) h f = elim (Option-cases (lookup m.lease_key leases)) [
  | inl absent ↦ ground arith
  | inr (x, found) ↦ elim (Bool-cases (m.lease_key == key)) [
    | inl same ↦ ground (arith, same_key key m.lease_key leases l same h)
    | inr other ↦
        ground (arith, lookup-insert m.lease_key key (record x { expires_at = now + ttl }) leases)
  ]
]
call_keeps key l leases (releasing m) h f = elim (Bool-cases (m.lease_key == key)) [
  | inl same ↦ ground (arith, same_key key m.lease_key leases l same h)
  | inr other ↦ ground (arith, lookup-erase m.lease_key key leases)
]

acquired :
    (leases leases' : Leases) (target : WorkloadReference) (l : WorkloadLease)
    (i owner token : String) (now : Instant) (ttl : ℕ)
    → acquire leases target i owner token now ttl ≡ ok (leases', some l)
    → (lookup (lease_key target) leases' ≡ some l)
      × (l ≡ new_lease target i owner token now ttl)
      × (now < now + ttl)
unfolding acquire put_document expires_after_acquisition
acquired leases leases' target l i owner token now ttl h =
    ground
      (arith, lookup-insert_self (lease_key target) (new_lease target i owner token now ttl) leases)

refused :
    (leases : Leases) (target : WorkloadReference) (l : WorkloadLease) (i owner token : String)
    (now : Instant) (ttl : ℕ)
    → lookup (lease_key target) leases ≡ some l
    → l.acquired_at < l.expires_at
    → now < l.expires_at
    → acquire leases target i owner token now ttl ≡ ok (leases, none)
unfolding acquire is_held read_lease is_live expires_after_acquisition
refused leases target l i owner token now ttl h v t = ground arith

own : (l : WorkloadLease) → is_foreign l l ≡ false
unfolding is_foreign
own l = ground (arith, ==_refl l.token, ==_refl l.owner)

renewed :
    (leases : Leases) (l : WorkloadLease) (now : Instant) (ttl : ℕ)
    → lookup l.lease_key leases ≡ some l
    → l.acquired_at < l.expires_at
    → now < l.expires_at
    → renew leases l now ttl
      ≡ ok (
        put_document leases l.lease_key (some (record l { expires_at = now + ttl })),
        record l { expires_at = now + ttl },
      )
unfolding renew expires_after_acquisition
renewed leases l now ttl h v t = ground (arith, own l)

-- A stored lease survives any sequence of acquisitions made before its expiry and of renewals and
-- releases that carry another token or owner: it is still stored, unchanged, under its key.
pub calls_keep_lease :
    (key : String) (l : WorkloadLease) (leases : Leases) (cs : List Call)
    → lookup key leases ≡ some l
    → AllForeign l cs
    → lookup key (calls leases cs) ≡ some l
unfolding calls
calls_keep_lease key l leases [] h f = h
calls_keep_lease key l leases (c ∷ cs) h f =
    calls_keep_lease key l (call leases c) cs (call_keeps key l leases c h f.0) f.1

-- Before the expiry of a lease that was acquired, and after any sequence of acquisitions made
-- before that expiry and of renewals and releases that carry another token or owner: acquiring its
-- workload gives no lease and changes nothing, and renewing the lease stores it with the new
-- expiry.
pub acquire_exclusive :
    (target : WorkloadReference) (l : WorkloadLease) (leases leases' : Leases) (cs : List Call)
    (i owner token i' owner' token' : String) (now now' : Instant) (ttl ttl' : ℕ)
    → acquire leases target i owner token now ttl ≡ ok (leases', some l)
    → AllForeign l cs
    → now' < now + ttl
    → (acquire (calls leases' cs) target i' owner' token' now' ttl' ≡ ok (calls leases' cs, none))
      × (renew (calls leases' cs) l now' ttl'
          ≡ ok (
            put_document
                (calls leases' cs)
                l.lease_key
                (some (record l { expires_at = now' + ttl' })),
            record l { expires_at = now' + ttl' },
          ))
acquire_exclusive target l leases leases' cs i owner token i' owner' token' now now' ttl ttl' a f
      t =
    let (stored, built, positive) = acquired leases leases' target l i owner token now ttl a in
    let kept = calls_keep_lease (lease_key target) l leases' cs stored f in
    let live : now' < l.expires_at =
      let e = ap (λ (x : WorkloadLease). x.expires_at) built in omega arith in
    let valid : l.acquired_at < l.expires_at =
      let e = ap (λ (x : WorkloadLease). x.expires_at) built in
      let d = ap (λ (x : WorkloadLease). x.acquired_at) built in omega arith in
    let key : l.lease_key ≡ lease_key target = ap (λ (x : WorkloadLease). x.lease_key) built in
    (
      refused (calls leases' cs) target l i' owner' token' now' ttl' kept valid live,
      renewed (calls leases' cs) l now' ttl'
          (subst (λ j. lookup j (calls leases' cs) ≡ some l) (sym key) kept) valid live,
    )

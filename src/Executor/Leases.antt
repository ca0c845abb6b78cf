-- ===== src/Executor/Leases.antt =====
-- One Executor's lease under one key, from `acquire` to `release`.
use kubecouncil.Base.{
  ℕ, leb, String, Bool, true, false, not, ◌&&◌, ◌||◌, Option, none, some, ok, err, Error, ◌+◌, ◌≡◌,
  refl, subst, sym, ap, ◌∙◌, arith, Option-cases, inl, inr, ◌==◌, ==_eq, ==_refl, eq_==, string_eq,
}
use kubecouncil.Base.Dict.{lookup, insert, erase, lookup-insert_self, lookup-erase}
use kubecouncil.Domain.Evidence.{Instant}
use kubecouncil.Domain.Authority.{InterventionRequest, WorkloadLease, expires_after_acquisition}
use kubecouncil.Lease.{
  Leases, lease_key, put_document, new_lease, read_lease, is_held, acquire, is_foreign, renew,
  release,
}

-- The document, if there is one, is another Executor's, or its expiry does not follow its
-- acquisition, so that no call of the lease store accepts it.
unfoldable pub is_given_back : String → Option WorkloadLease → Bool
is_given_back owner none = true
is_given_back owner (some l) = not (l.owner == owner) || leb l.expires_at l.acquired_at

-- A lease that the Executor acquired with this token under this key.
pub record IsOurs (owner token key : String) (l : WorkloadLease) : Type 0 where
  pub owner_same : l.owner ≡ owner
  pub token_same : l.token ≡ token
  pub key_same : l.lease_key ≡ key

-- The document is another Executor's, or the lease itself, renewed perhaps.
unfoldable pub is_kept : String → String → String → Option WorkloadLease → Bool
is_kept owner token key none = true
is_kept owner token key (some l) =
    not (l.owner == owner) || (l.token == token && l.lease_key == key)

pub refused_from :
    (leases : Leases) (q : InterventionRequest) (v owner token : String) (now : Instant) (ttl : ℕ)
    (leases' : Leases)
    → acquire leases q.target v owner token now ttl ≡ ok (leases', none)
    → leases ≡ leases'
unfolding acquire is_held read_lease expires_after_acquisition
refused_from leases q v owner token now ttl leases' h = ground arith

pub acquired_from :
    (leases : Leases) (q : InterventionRequest) (v owner token : String) (now : Instant) (ttl : ℕ)
    (leases' : Leases) (l : WorkloadLease)
    → acquire leases q.target v owner token now ttl ≡ ok (leases', some l)
    → (l ≡ new_lease q.target v owner token now ttl)
      × (leases' ≡ insert (lease_key q.target) l leases)
unfolding acquire is_held read_lease put_document expires_after_acquisition
acquired_from leases q v owner token now ttl leases' l h = (ground arith, ground arith)

renewed_from :
    (leases : Leases) (l : WorkloadLease) (now : Instant) (ttl : ℕ) (leases' : Leases)
    (a : WorkloadLease)
    → renew leases l now ttl ≡ ok (leases', a)
    → (e : WorkloadLease) × (lookup l.lease_key leases ≡ some e)
      × (is_foreign e l ≡ false)
      × (a ≡ record e { expires_at = now + ttl })
      × (leases' ≡ insert l.lease_key a leases)
unfolding renew put_document expires_after_acquisition
renewed_from leases l now ttl leases' a h = elim (Option-cases (lookup l.lease_key leases)) [
  | inl missing ↦ absurd (ground arith)
  | inr (e, found) ↦ (e, found, ground arith, ground arith, ground arith)
]

module _ (owner token key : String) where
  renewed-IsOurs :
      (l e a : WorkloadLease) (expiry : Instant)
      → IsOurs owner token key l
      → is_kept owner token key (some e) ≡ true
      → is_foreign e l ≡ false
      → a ≡ record e { expires_at = expiry }
      → IsOurs owner token key a
  unfolding is_kept is_foreign
  renewed-IsOurs l e a expiry ours kept same renewed =
      let owned = ==_eq e.owner l.owner (ground arith) ∙ ours.owner_same in
      let by_key = ==_eq e.lease_key key (ground (arith, eq_== e.owner owner owned)) in
      record {
        owner_same = ap (λ (x : WorkloadLease). x.owner) renewed ∙ owned;
        token_same =
            ap (λ (x : WorkloadLease). x.token) renewed
            ∙ (==_eq e.token l.token (ground arith) ∙ ours.token_same);
        key_same = ap (λ (x : WorkloadLease). x.lease_key) renewed ∙ by_key;
      }

  ours-is_kept :
      (a : WorkloadLease) → IsOurs owner token key a → is_kept owner token key (some a) ≡ true
  unfolding is_kept
  ours-is_kept a ours =
      ground (arith, eq_== a.token token ours.token_same, eq_== a.lease_key key ours.key_same)

  pub renew-is_kept :
      (leases : Leases) (l : WorkloadLease) (now : Instant) (ttl : ℕ) (leases' : Leases)
      (a : WorkloadLease)
      → IsOurs owner token key l
      → is_kept owner token key (lookup key leases) ≡ true
      → renew leases l now ttl ≡ ok (leases', a)
      → (is_kept owner token key (lookup key leases') ≡ true) × IsOurs owner token key a
  renew-is_kept leases l now ttl leases' a ours kept h =
      let (e, found, same, renewed, written) = renewed_from leases l now ttl leases' a h in
      let found_key = subst (λ k. lookup k leases ≡ some e) ours.key_same found in
      let a_ours =
        renewed-IsOurs l e a _ ours (subst (λ o. is_kept owner token key o ≡ true) found_key kept)
          same renewed in
      let written_key = subst (λ k. leases' ≡ insert k a leases) ours.key_same written in
      (
        subst (λ o. is_kept owner token key o ≡ true)
            (sym (ap (lookup key) written_key ∙ lookup-insert_self key a leases))
            (ours-is_kept a a_ours),
        a_ours,
      )

  pub release-is_given_back :
      (leases : Leases) (l : WorkloadLease)
      → IsOurs owner token key l
      → is_kept owner token key (lookup key leases) ≡ true
      → (leases' : Leases) → release leases l ≡ ok leases'
      → is_given_back owner (lookup key leases') ≡ true
  unfolding release put_document is_given_back expires_after_acquisition
  release-is_given_back leases l ours kept leases' h =
      subst (λ o. is_given_back owner o ≡ true) (sym (ap (lookup key) erased ∙ none_left)) refl
    where
      erased : leases' ≡ erase key leases
      erased = subst (λ k. leases' ≡ erase k leases) ours.key_same (ground arith)

      none_left : lookup key (erase key leases) ≡ none
      none_left = ground (arith, lookup-erase key key leases, ==_refl key)

  pub unreleased-is_given_back :
      (leases : Leases) (l : WorkloadLease) (e : Error)
      → IsOurs owner token key l
      → is_kept owner token key (lookup key leases) ≡ true
      → release leases l ≡ err e
      → is_given_back owner (lookup key leases) ≡ true
  unfolding release is_given_back expires_after_acquisition is_kept is_foreign
  unreleased-is_given_back leases l e ours kept h = by_document (lookup key leases) refl
    where
      by_document :
          (o : Option WorkloadLease) → lookup key leases ≡ o → is_given_back owner o ≡ true
      by_document none found = refl
      by_document (some x) found =
          let at_key = subst (λ k. lookup k leases ≡ some x) (sym ours.key_same) found in
          let x_kept = subst (λ o. is_kept owner token key o ≡ true) found kept in
          ground (arith, ours.token_same, ours.owner_same)

pub acquired-is_kept :
    (leases : Leases) (q : InterventionRequest) (v owner token : String) (now : Instant) (ttl : ℕ)
    (leases' : Leases) (l : WorkloadLease)
    → acquire leases q.target v owner token now ttl ≡ ok (leases', some l)
    → (is_kept owner token (lease_key q.target) (lookup (lease_key q.target) leases') ≡ true)
      × IsOurs owner token (lease_key q.target) l
acquired-is_kept leases q v owner token now ttl leases' l h =
    let (built, written) = acquired_from leases q v owner token now ttl leases' l h in
    let ours : IsOurs owner token (lease_key q.target) l = record {
      owner_same = ap (λ (x : WorkloadLease). x.owner) built;
      token_same = ap (λ (x : WorkloadLease). x.token) built;
      key_same = ap (λ (x : WorkloadLease). x.lease_key) built;
    } in
    (
      subst (λ o. is_kept owner token (lease_key q.target) o ≡ true)
          (sym (
            ap (lookup (lease_key q.target)) written
            ∙ lookup-insert_self (lease_key q.target) l leases))
          (ours-is_kept owner token (lease_key q.target) l ours),
      ours,
    )

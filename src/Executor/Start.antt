-- ===== src/Executor/Start.antt =====
-- The authority recorded for an Incident while the Executor works on it.
use kubecouncil.Base.{
  String, some, ok, ◌≡◌, ◌∙◌, refl, sym, subst, Bool-cases, inl, inr, ◌==◌, string_eq, ==_eq,
  ne_of_==_false,
}
use kubecouncil.Base.Dict.{insert, lookup-insert_self}
use kubecouncil.Base.Effects.{attempt}
use kubecouncil.Base.Effects.Keeps.{Keeps-attempt, Keeps-zoom}
use kubecouncil.Domain.Record.{InvestigationRecord}
use kubecouncil.Binding.{Digest}
use kubecouncil.Store.Access.{Store, get}
use kubecouncil.Store.Change.{Change, apply_change, execute}
use kubecouncil.Store.Valid
use kubecouncil.Store.Returns
use kubecouncil.Store.Invariant.{IsSound, apply_change-IsSound}
use kubecouncil.Store.Reachable.{
  IsWellFormed, amend-returns, execute-IsWellFormed, execute_elsewhere,
}
use kubecouncil.Policy.Outside.{ExecutorKubernetes}
use kubecouncil.Executor.Machine.{Machine, on_outside, call_store}
use kubecouncil.Executor.Reads.{IsExecutorChange, recording, claiming, ending, CallsKeep}

-- Everything that authority is read from is the same in the two records.
pub record SameAuthority (r r' : InvestigationRecord) : Type 0 where
  pub profile : r'.application_profile ≡ r.application_profile
  pub evidence : r'.evidence ≡ r.evidence
  pub proposal : r'.proposal ≡ r.proposal
  pub policy_decision : r'.policy_decision ≡ r.policy_decision
  pub approvals : r'.approvals ≡ r.approvals

-- The Incident has the authority of the record r in a well-formed store.
pub record HasAuthority (id : String) (r : InvestigationRecord) (store : Store) : Type 0 where
  pub well_formed : IsWellFormed store
  pub same : (s : InvestigationRecord) → get store id ≡ some s → SameAuthority r s

-- The store has the authority of r for the Incident, and W holds of what is outside.
abbrev pub SeenIn : {E : Type 0} → String → InvestigationRecord → (E → Type 0) → Machine E → Type 0
SeenIn id r W m = HasAuthority id r m.store × W m.outside

module _ (digest : Digest) (id : String) (r r' : InvestigationRecord) where
  change_keeps :
      {c : Change}
      → IsExecutorChange c
      → IsSound id r
      → apply_change digest c id r ≡ ok r'
      → SameAuthority r r'
  unfolding apply_change
  change_keeps (recording e) s h =
      rw (Valid.append_audit_event-returns id r s.keyed e r' h).1 (record {
        profile = refl;
        evidence = refl;
        proposal = refl;
        policy_decision = refl;
        approvals = refl;
      })
  change_keeps (claiming n v e) s h =
      rw (Returns.record_intervention-returns id r r' n v e h).8 (record {
        profile = refl;
        evidence = refl;
        proposal = refl;
        policy_decision = refl;
        approvals = refl;
      })
  change_keeps (ending v e) s h = rw (Returns.update_intervention-returns id r r' v e h).9 (record {
    profile = refl;
    evidence = refl;
    proposal = refl;
    policy_decision = refl;
    approvals = refl;
  })

SameAuthority-trans :
    (r s t : InvestigationRecord) → SameAuthority r s → SameAuthority s t → SameAuthority r t
SameAuthority-trans r s t a b = record {
  profile = b.profile ∙ a.profile;
  evidence = b.evidence ∙ a.evidence;
  proposal = b.proposal ∙ a.proposal;
  policy_decision = b.policy_decision ∙ a.policy_decision;
  approvals = b.approvals ∙ a.approvals;
}

module _ (digest : Digest) (id : String) (r : InvestigationRecord) where
  execute-HasAuthority :
      (c : Change) (j : String) (store store' : Store) (s : InvestigationRecord)
      → IsExecutorChange c
      → HasAuthority id r store
      → execute digest c j store ≡ ok (store', s)
      → HasAuthority id r store'
  unfolding execute get
  execute-HasAuthority c j store store' s allowed has h = record {
    well_formed = execute-IsWellFormed digest c j store store' s has.well_formed h;
    same = λ t found. elim (Bool-cases (j == id)) [
      | inr other ↦ has.same t (
          sym (
            execute_elsewhere digest c j id store store' s has.well_formed h
              (λ e. ne_of_==_false j id other (sym e)))
          ∙ found)
      | inl here ↦
          let (old, stored, changed, written) =
            amend-returns (apply_change digest c j) store j store' s h in
          let sound = has.well_formed j old stored in
          let s_sound = apply_change-IsSound digest j old s c sound changed in
          let k = ==_eq j id here in
          let kept = change_keeps digest j old s allowed sound changed in
          let at_start = has.same old (subst (λ x. get store x ≡ some old) k stored) in
          let there : get store' id ≡ some s =
            subst (λ x. get x id ≡ some s) (sym written)
              (subst (λ x. get (insert x s store) id ≡ some s) (sym (s_sound.keyed ∙ k))
                (lookup-insert_self id s store)) in
          subst (SameAuthority r) (cc) (SameAuthority-trans r old s at_start kept)
    ];
  }

module _ {E : Type 0} (digest : Digest) (outside : ExecutorKubernetes E) (id : String)
    (r : InvestigationRecord) where
  -- No call of the Executor changes the authority that is recorded for an Incident.
  pub HasAuthority-CallsKeep :
      CallsKeep digest outside (λ (m : Machine E). HasAuthority id r m.store)
  unfolding call_store on_outside
  HasAuthority-CallsKeep = record {
    evaluate = λ _ p. Keeps-zoom _ _ _ λ s h. h;
    inspect_deployment = λ target. Keeps-zoom _ _ _ λ s h. h;
    uuid4_hex = Keeps-zoom _ _ _ λ s h. h;
    clock = Keeps-zoom _ _ _ λ s h. h;
    verify = λ patch applied. Keeps-zoom _ _ _ λ s h. h;
    call_store = λ change j allowed. Keeps-zoom _ _ (attempt (execute digest change j)) λ m h.
        (Keeps-attempt (execute digest change j) λ store store' s has e.
            execute-HasAuthority digest id r change j store store' s allowed has e).at
          m.store h;
  }

-- A stored record has its own authority.
pub get-HasAuthority :
    (id : String) (r : InvestigationRecord) (store : Store)
    → IsWellFormed store
    → get store id ≡ some r
    → HasAuthority id r store
get-HasAuthority id r store well_formed found = record {
  well_formed = well_formed;
  same = λ s stored.
      let e : r ≡ s = cc in
      subst (SameAuthority r) e (record {
        profile = refl;
        evidence = refl;
        proposal = refl;
        policy_decision = refl;
        approvals = refl;
      });
}

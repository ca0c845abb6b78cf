-- ===== src/Store/Reachable.antt =====
-- The stores that calls can build from the empty one.
use kubecouncil.Base.{
  ℕ, String, some, [], Result, ok, ◌≡◌, ◌∙◌, ◌≢◌, sym, subst, arith, inl, inr, Bool-cases,
  Option-cases, Result-cases, ◌==◌, string_eq, ==_eq,
}
use kubecouncil.Base.Dict.{lookup, insert, lookup-insert, lookup-insert_ne}
use kubecouncil.Domain.Profile.{ApplicationProfile}
use kubecouncil.Domain.Evidence.{AlertSignal, is_time_ordered, EvidenceWindow}
use kubecouncil.Domain.Record.{InvestigationRecord, all_entries_belong_to_the_incident}
use kubecouncil.Domain.Consistent.{accepted}
use kubecouncil.Binding.{Digest}
use kubecouncil.Store.Access.{Store, get, required_record, replace, amend, timeline}
use kubecouncil.Store.Cursors.{drop, timeline-drop}
use kubecouncil.Store.Create.{create, window_start_of, window_end_of, opened}
use kubecouncil.Store.Change.{Change, apply_change, execute}
use kubecouncil.Store.Invariant.{IsSound, apply_change-IsSound}
use kubecouncil.Store.Running.{running_count}

-- Every record is stored under its own id, and is sound.
abbrev pub IsWellFormed : Store → Type 0
IsWellFormed store = (id : String) (r : InvestigationRecord) → get store id ≡ some r → IsSound id r

-- A mutation that returns read the record, changed it, and wrote the change back.
pub amend-returns :
    (change : InvestigationRecord → Result InvestigationRecord) (store : Store) (id : String)
    (store' : Store) (r' : InvestigationRecord)
    → amend change store id ≡ ok (store', r')
    → (r : InvestigationRecord) × (get store id ≡ some r)
      × (change r ≡ ok r')
      × (store' ≡ insert r'.incident.incident_id r' store)
unfolding amend required_record replace
amend-returns change store id store' r' h = elim (Option-cases (get store id)) [
  | inl missing ↦ absurd (ground arith)
  | inr (r, found) ↦ elim (Result-cases (change r)) [
    | inl (s, changed) ↦ (r, found, ground arith, ground arith)
    | inr (e, raised) ↦ absurd (ground arith)
  ]
]

insert-IsWellFormed :
    (store : Store) (id : String) (r : InvestigationRecord)
    → IsWellFormed store
    → IsSound id r
    → IsWellFormed (insert id r store)
unfolding get
insert-IsWellFormed store id r w s j t found = elim (Bool-cases (id == j)) [
  | inl same ↦
      let p : r ≡ t = ground (arith, lookup-insert id j r store) in
      subst (λ k. IsSound k t) (==_eq id j same) (subst (IsSound id) p s)
  | inr other ↦ w j t (ground (arith, lookup-insert id j r store))
]

-- Any call of any mutation keeps the store well-formed.
pub execute-IsWellFormed :
    (digest : Digest) (c : Change) (id : String) (store store' : Store) (r' : InvestigationRecord)
    → IsWellFormed store
    → execute digest c id store ≡ ok (store', r')
    → IsWellFormed store'
unfolding execute
execute-IsWellFormed digest c id store store' r' w h =
    let (r, found, changed, written) =
      amend-returns (apply_change digest c id) store id store' r' h in
    let s = apply_change-IsSound digest id r r' c (w id r found) changed in
    rw written (
      insert-IsWellFormed store r'.incident.incident_id r' w
        (subst (λ k. IsSound k r') (sym s.keyed) s))

pub execute_elsewhere :
    (digest : Digest) (c : Change) (id j : String) (store store' : Store) (r' : InvestigationRecord)
    → IsWellFormed store
    → execute digest c id store ≡ ok (store', r')
    → j ≢ id
    → get store' j ≡ get store j
unfolding execute get
execute_elsewhere digest c id j store store' r' w h n =
    let (r, found, changed, written) =
      amend-returns (apply_change digest c id) store id store' r' h in
    let s = apply_change-IsSound digest id r r' c (w id r found) changed in
    rw written (lookup-insert_ne r'.incident.incident_id j r' store (λ e. n (sym e ∙ s.keyed)))

opened-IsSound :
    (p : ApplicationProfile) (s : AlertSignal) (id : String) (w : EvidenceWindow)
    (r : InvestigationRecord)
    → all_entries_belong_to_the_incident (opened p s id w) ≡ ok r
    → IsSound id r
unfolding opened running_count
opened-IsSound p s id w r h =
    let (e, valid) = accepted (opened p s id w) r h in
    record { keyed = rw e; valid = valid; numbered = rw e tt; one_running = rw e (omega arith) }

-- The window of a created record.
abbrev window_of : ApplicationProfile → AlertSignal → String → String → ℕ → EvidenceWindow
window_of p s id window_id started_at = record {
  window_id = window_id;
  incident_id = id;
  started_at = started_at;
  ended_at = window_end_of s;
  captured_at = s.observed_at;
}

pub create-returns :
    (store store' : Store) (p : ApplicationProfile) (s : AlertSignal) (id window_id : String)
    (r : InvestigationRecord)
    → create store p s id window_id ≡ ok (store', r)
    → IsSound id r
      × ((w : EvidenceWindow) × (all_entries_belong_to_the_incident (opened p s id w) ≡ ok r))
      × (store' ≡ insert id r store)
unfolding create
create-returns store store' p s id window_id r h = elim (Result-cases (window_start_of p s)) [
  | inl (t, e) ↦ elim (Result-cases (is_time_ordered (window_of p s id window_id t))) [
    | inl (w, f) ↦ elim (Result-cases (all_entries_belong_to_the_incident (opened p s id w))) [
      | inl (q, g) ↦ (ground (arith, opened-IsSound p s id w q g), (w, ground arith), ground arith)
      | inr (x, g) ↦ absurd (ground arith)
    ]
    | inr (x, f) ↦ absurd (ground arith)
  ]
  | inr (x, e) ↦ absurd (ground arith)
]

-- What calls build from the empty store: created incidents and mutations that returned. A call
-- that raises leaves the store as it was, and adds nothing.
pub data IsReachable (digest : Digest) : Store → Type 0 where
  empty : IsReachable digest []
  created :
      {store store' : Store} {r : InvestigationRecord}
      → (p : ApplicationProfile) → (s : AlertSignal) → (id window_id : String)
      → IsReachable digest store
      → create store p s id window_id ≡ ok (store', r)
      → IsReachable digest store'
  mutated :
      {store store' : Store} {r : InvestigationRecord}
      → (c : Change) → (id : String) → IsReachable digest store
      → execute digest c id store ≡ ok (store', r)
      → IsReachable digest store'

pub IsReachable-IsWellFormed :
    (digest : Digest) (store : Store) → IsReachable digest store → IsWellFormed store
unfolding get lookup
IsReachable-IsWellFormed digest store (empty) = λ id r found. cc
IsReachable-IsWellFormed digest store
      (created {store = old} {store' = new} {r} p s id window_id before e) =
    let (sound, blank, written) = create-returns old new p s id window_id r e in
    rw written (insert-IsWellFormed old id r (IsReachable-IsWellFormed digest old before) sound)
IsReachable-IsWellFormed digest store (mutated {store = old} {store' = new} {r} c id before e) =
    execute-IsWellFormed digest c id old new r (IsReachable-IsWellFormed digest old before) e

-- Whatever incidents are created and whatever mutations are called, in any order: every stored
-- record is keyed by its own id, passes the validator, numbers its audit events from one, and
-- has at most one running Intervention.
pub IsReachable-IsSound :
    (digest : Digest) (store : Store) (id : String) (r : InvestigationRecord)
    → IsReachable digest store
    → get store id ≡ some r
    → IsSound id r
IsReachable-IsSound digest store id r reach = IsReachable-IsWellFormed digest store reach id r

-- In a store that calls built, a mutation that returns leaves every record but that of the
-- incident it names as it was.
pub execute_others :
    (digest : Digest) (c : Change) (id j : String) (store store' : Store) (r' : InvestigationRecord)
    → IsReachable digest store
    → execute digest c id store ≡ ok (store', r')
    → j ≢ id
    → get store' j ≡ get store j
execute_others digest c id j store store' r' reach =
    execute_elsewhere digest c id j store store' r' (IsReachable-IsWellFormed digest store reach)

-- In a store that calls built, `timeline(after=k)` of a stored incident is its audit log without
-- the first k events.
pub timeline_resumes :
    (digest : Digest) (store : Store) (id : String) (r : InvestigationRecord) (k : ℕ)
    → IsReachable digest store
    → get store id ≡ some r
    → timeline store id k ≡ ok (drop k r.audit_events)
timeline_resumes digest store id r k reach found =
    timeline-drop store id r k found (IsReachable-IsSound digest store id r reach found).numbered

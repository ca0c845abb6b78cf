-- ===== src/Gateway/Budget.antt =====
-- A request of a follow-up query against the budget of the Specialists.
use kubecouncil.Base.{
  String, ℕ, suc, Bool, true, false, List, [], ◌∷◌, ◌++◌, ok, ◌≡◌, ◌≤◌, ◌<◌, refl, ap, arith,
  filter, length, is_empty, ◌==◌, ==_eq, ==_refl, subst, sym, Bool-cases, Result-cases, inl, inr,
  ◌∙◌,
}
use kubecouncil.Domain.Enums.{SpecialistRole, role_eq, EvidenceSource}
use kubecouncil.Domain.Evidence.{Instant, EvidenceQuery}
use kubecouncil.Domain.Record.{InvestigationRecord}
use kubecouncil.Store.Append.{append_evidence_query}
use kubecouncil.Gateway.{
  resolve_mapping, maximum_queries, by_specialist, latest_round, validate_budget, request_evidence,
}

-- No Specialist has more queries, or a later round, than the profile's maximum.
pub record IsWithinBudget (r : InvestigationRecord) : Type 0 where
  pub counted :
      (s : SpecialistRole) → length (by_specialist s r.evidence_queries) ≤ maximum_queries r
  pub rounds :
      (s : SpecialistRole) → latest_round (by_specialist s r.evidence_queries) ≤ maximum_queries r

length-snoc : {A : Type 0} (xs : List A) (a : A) → length (xs ++ a ∷ []) ≡ suc (length xs)
length-snoc [] a = refl
length-snoc (x ∷ xs) a = ap suc (length-snoc xs a)

filter-yes :
    {A : Type 0} (p : A → Bool) (xs : List A) (a : A)
    → p a ≡ true
    → filter p (xs ++ a ∷ []) ≡ filter p xs ++ a ∷ []
unfolding filter
filter-yes p [] a h = ground arith
filter-yes p (x ∷ xs) a h = ground (arith, filter-yes p xs a h)

filter-no :
    {A : Type 0} (p : A → Bool) (xs : List A) (a : A)
    → p a ≡ false
    → filter p (xs ++ a ∷ []) ≡ filter p xs
unfolding filter
filter-no p [] a h = ground arith
filter-no p (x ∷ xs) a h = ground (arith, filter-no p xs a h)

latest_round-snoc :
    (qs : List EvidenceQuery) (q : EvidenceQuery)
    → latest_round qs ≤ q.query_round
    → latest_round (qs ++ q ∷ []) ≡ q.query_round
unfolding latest_round
latest_round-snoc [] q h = ground arith
latest_round-snoc (x ∷ qs) q h = ground (arith, latest_round-snoc qs q)

latest_round-is_empty : (qs : List EvidenceQuery) → is_empty qs ≡ true → latest_round qs ≡ 0
unfolding latest_round
latest_round-is_empty [] h = refl
latest_round-is_empty (q ∷ qs) h = cc

module _ (r : InvestigationRecord) (s : SpecialistRole) (n : ℕ) where
  validate_budget-returns :
      validate_budget r s n ≡ ok tt
      → (n ≤ maximum_queries r)
        × (length (by_specialist s r.evidence_queries) < maximum_queries r)
        × (latest_round (by_specialist s r.evidence_queries) ≤ n)
  unfolding validate_budget
  validate_budget-returns h =
      ground (arith, latest_round-is_empty (by_specialist s r.evidence_queries))

-- The budget after one more query.
module _ (qs : List EvidenceQuery) (q : EvidenceQuery) (s : SpecialistRole) where
  by_specialist-same :
      q.specialist ≡ s → by_specialist s (qs ++ q ∷ []) ≡ by_specialist s qs ++ q ∷ []
  unfolding by_specialist
  by_specialist-same e = filter-yes _ qs q (rw e (==_refl s))

  by_specialist-other :
      (q.specialist == s) ≡ false → by_specialist s (qs ++ q ∷ []) ≡ by_specialist s qs
  unfolding by_specialist
  by_specialist-other e = filter-no _ qs q e

  by_specialist-counted :
      (m : ℕ)
      → length (by_specialist q.specialist qs) < m
      → length (by_specialist s qs) ≤ m
      → length (by_specialist s (qs ++ q ∷ [])) ≤ m
  by_specialist-counted m h k = elim (Bool-cases (q.specialist == s)) [
    | inl e ↦
        let e' = ==_eq q.specialist s e in
        let grown = ap length (by_specialist-same e') ∙ length-snoc (by_specialist s qs) q in
        let h' = subst (λ t. length (by_specialist t qs) < m) e' h in omega arith
    | inr e ↦ rw (by_specialist-other e) k
  ]

  by_specialist-rounds :
      (m : ℕ)
      → latest_round (by_specialist q.specialist qs) ≤ q.query_round
      → q.query_round ≤ m
      → latest_round (by_specialist s qs) ≤ m
      → latest_round (by_specialist s (qs ++ q ∷ [])) ≤ m
  by_specialist-rounds m h j k = elim (Bool-cases (q.specialist == s)) [
    | inl e ↦
        let e' = ==_eq q.specialist s e in
        let h' = subst (λ t. latest_round (by_specialist t qs) ≤ q.query_round) e' h in
        let last =
          ap latest_round (by_specialist-same e') ∙ latest_round-snoc (by_specialist s qs) q h' in
        omega arith
    | inr e ↦ rw (by_specialist-other e) k
  ]

append-IsWithinBudget :
    (r : InvestigationRecord) (q : EvidenceQuery)
    → q.query_round ≤ maximum_queries r
    → length (by_specialist q.specialist r.evidence_queries) < maximum_queries r
    → latest_round (by_specialist q.specialist r.evidence_queries) ≤ q.query_round
    → IsWithinBudget r
    → IsWithinBudget (record r { evidence_queries = r.evidence_queries ++ q ∷ [] })
append-IsWithinBudget r q h i j b = record {
  counted = λ t. by_specialist-counted r.evidence_queries q t (maximum_queries r) i (b.counted t);
  rounds = λ t. by_specialist-rounds r.evidence_queries q t (maximum_queries r) j h (b.rounds t);
}

append_evidence_query-appends :
    (id : String) (q : EvidenceQuery) (r r' : InvestigationRecord)
    → append_evidence_query id q r ≡ ok r'
    → r' ≡ record r { evidence_queries = r.evidence_queries ++ q ∷ [] }
unfolding append_evidence_query
append_evidence_query-appends id q r r' h = ground arith

module _ (available : EvidenceSource → Bool) (query_id : String) (now : Instant)
    (incident_id : String) (s : SpecialistRole) (identifier : String) (n : ℕ)
    (r r' : InvestigationRecord) where
  -- What a request that returns appended, under the budget.
  request_evidence-returns :
      request_evidence available query_id now incident_id s identifier n r ≡ ok r'
      → (q : EvidenceQuery) × (q.specialist ≡ s)
        × (q.query_round ≡ n)
        × (validate_budget r s n ≡ ok tt)
        × (append_evidence_query incident_id q r ≡ ok r')
  unfolding request_evidence
  request_evidence-returns h = elim (Result-cases (resolve_mapping r identifier)) [
    | inr (x, e) ↦ absurd (ground arith)
    | inl (m, e) ↦ elim (Result-cases (validate_budget r s n)) [
      | inr (x, f) ↦ absurd (ground arith)
      | inl (u, f) ↦ elim (Bool-cases (available m.source)) [
        | inr a ↦ absurd (ground arith)
        | inl a ↦
            let q : EvidenceQuery = record {
              query_id = query_id;
              incident_id = incident_id;
              specialist = s;
              kind = m.kind;
              target = m.scope;
              requested_at = now;
              query_round = n;
            } in
            (q, refl, refl, f, ground arith)
      ]
    ]
  ]

  -- A request that returns keeps every Specialist within the budget, and is the latest round of
  -- its Specialist.
  pub request_evidence-IsWithinBudget :
      request_evidence available query_id now incident_id s identifier n r ≡ ok r'
      → IsWithinBudget r
      → IsWithinBudget r' × (latest_round (by_specialist s r'.evidence_queries) ≡ n)
  request_evidence-IsWithinBudget h b =
      let (q, own, round, valid, appended) = request_evidence-returns h in
      let grown = append_evidence_query-appends incident_id q r r' appended in
      let spent = validate_budget-returns r s n valid in
      let room =
        subst (λ t. length (by_specialist t r.evidence_queries) < maximum_queries r) (sym own)
          spent.1 in
      let later : latest_round (by_specialist q.specialist r.evidence_queries) ≤ q.query_round =
        rw own (rw round spent.2) in
      let last = latest_round-snoc (by_specialist s r.evidence_queries) q (rw round spent.2) in
      rw grown (
        append-IsWithinBudget r q (rw round spent.0) room later b,
        ap latest_round (by_specialist-same r.evidence_queries q s own) ∙ last ∙ round,
      )

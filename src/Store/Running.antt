-- ===== src/Store/Running.antt =====
-- How many Interventions of a record are running.
use kubecouncil.Base.{
  ℕ, ◌+◌, ◌≤◌, false, List, [], ◌∷◌, ◌++◌, ◌≡◌, refl, arith, any, if◌then◌else◌, string_eq,
}
use kubecouncil.Domain.Authority.{Intervention}
use kubecouncil.Store.Intervene.{is_running, put_intervention}

unfoldable pub running_count : List Intervention → ℕ
running_count [] = 0
running_count (v ∷ vs) = (if is_running v then 1 else 0) + running_count vs

running_count-snoc :
    (vs : List Intervention) (v : Intervention)
    → running_count (vs ++ v ∷ []) ≡ running_count vs + (if is_running v then 1 else 0)
unfolding running_count
running_count-snoc [] v = omega arith
running_count-snoc (x ∷ vs) v = omega (arith, running_count-snoc vs v)

none_running : (vs : List Intervention) → any is_running vs ≡ false → running_count vs ≡ 0
unfolding running_count any
none_running [] h = refl
none_running (v ∷ vs) h = ground (arith, none_running vs)

-- A claim is made only when nothing runs, and leaves one Intervention running at most.
pub running_count-claim :
    (vs : List Intervention) (v : Intervention)
    → any is_running vs ≡ false
    → running_count (vs ++ v ∷ []) ≤ 1
running_count-claim vs v h = ground (arith, running_count-snoc vs v, none_running vs h)

-- Ending Interventions never sets another one running.
pub running_count-put :
    (v : Intervention) (vs : List Intervention)
    → is_running v ≡ false
    → running_count (put_intervention v vs) ≤ running_count vs
unfolding running_count put_intervention
running_count-put v [] h = omega arith
running_count-put v (x ∷ vs) h = ground (arith, running_count-put v vs h)

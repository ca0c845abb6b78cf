-- ===== src/Base/Effects/Succeeds.antt =====
-- Actions that return in every state, and what they return.
use mathlib.Core.Path.{◌≡◌, refl, subst}
use mathlib.Core.Bool.{Bool, true, false}
use kubecouncil.Base.Tests.{if◌then◌else◌}
use kubecouncil.Base.Results.{Result, ok, err}
use kubecouncil.Base.Effects.{Effect, lift, ◌>>=◌, then_run}

-- In every state the action returns, and a value that satisfies Q.
pub record Succeeds {ℓ} {S A : Type ℓ} (Q : A → Type ℓ) (m : Effect S A) : Type ℓ where
  pub at : (s : S) → (a : A) × ((m s).0 ≡ ok a) × Q a

module _ {ℓ} {S A : Type ℓ} {Q : A → Type ℓ} where
  pub Succeeds-lift : (r : Result A) (a : A) → r ≡ ok a → Q a → Succeeds {S = S} Q (lift r)
  unfolding lift
  Succeeds-lift r a e q = record { at = λ s. (a, e, q) }

  pub Succeeds-if :
      (b : Bool) (m n : Effect S A)
      → (b ≡ true → Succeeds Q m)
      → (b ≡ false → Succeeds Q n)
      → Succeeds Q (if b then m else n)
  Succeeds-if true m n qm qn = qm refl
  Succeeds-if false m n qm qn = qn refl

module _ {ℓ} {S A B : Type ℓ} {P : A → Type ℓ} {Q : B → Type ℓ} where
  pub Succeeds-bind :
      (m : Effect S A) (f : A → Effect S B)
      → Succeeds P m
      → ((a : A) → P a → Succeeds Q (f a))
      → Succeeds Q (m >>= f)
  unfolding ◌>>=◌
  Succeeds-bind m f pm qf = record { at = λ s. let (r, s') = m s in after r s' (pm.at s) }
    where
      after :
          (r : Result A) (s : S)
          → (a : A) × (r ≡ ok a) × P a
          → (b : B) × ((then_run r f s).0 ≡ ok b) × Q b
      after (ok a) s (x, e, p) = (qf a (subst P (cc) p)).at s
      after (err e) s (x, h, p) = cc

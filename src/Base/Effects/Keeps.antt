-- ===== src/Base/Effects/Keeps.antt =====
-- Predicates on the state that actions keep, and what is known of the values that they return.
use mathlib.Core.Path.{◌≡◌, refl}
use mathlib.Core.Bool.{Bool, true, false}
use kubecouncil.Base.Tests.{if◌then◌else◌}
use kubecouncil.Base.Results.{Result, Error, ok, err}
use kubecouncil.Base.Effects.{
  Effect, lift, read, attempt, attempted, ◌>>=◌, then_run, handled, recover, finally, zoom,
}

-- The action keeps P, whether it returns or raises.
pub record Keeps {ℓ} {S A : Type ℓ} (P : S → Type ℓ) (m : Effect S A) : Type ℓ where
  pub at : (s : S) → P s → P (m s).1

-- The action returned a, in some state that satisfies P.
pub record Seen {ℓ} {S A : Type ℓ} (P : S → Type ℓ) (m : Effect S A) (a : A) : Type ℓ where
  pub before : S
  pub holds : P before
  pub returned : (m before).0 ≡ ok a

-- Whatever the action returns satisfies Q.
pub record Returns {ℓ} {S A : Type ℓ} (Q : A → Type ℓ) (m : Effect S A) : Type ℓ where
  pub at : (s : S) (a : A) → (m s).0 ≡ ok a → Q a

module _ {ℓ} {S A : Type ℓ} {P Q : S → Type ℓ} where
  pub Keeps-both : (m : Effect S A) → Keeps P m → Keeps Q m → Keeps (λ s. P s × Q s) m
  Keeps-both m p q = record { at = λ s h. (p.at s h.0, q.at s h.1) }

module _ {ℓ} {S A : Type ℓ} {P : S → Type ℓ} where
  pub Keeps-lift : (r : Result A) → Keeps P (lift r)
  unfolding lift
  Keeps-lift r = record { at = λ _ kept. kept }

  pub Keeps-read : (f : S → A) → Keeps P (read f)
  unfolding read
  Keeps-read f = record { at = λ s h. h }

  pub Keeps-attempt :
      (f : S → Result (S × A))
      → ((s s' : S) (a : A) → P s → f s ≡ ok (s', a) → P s')
      → Keeps P (attempt f)
  unfolding attempt
  Keeps-attempt f kf = record { at = λ s h. after s (f s) refl h }
    where
      after : (s : S) (r : Result (S × A)) → f s ≡ r → P s → P (attempted r s).1
      after s (ok (s', a)) e h = kf s s' a h e
      after s (err x) e h = h

  pub Keeps-if :
      (test : Bool) (yes_branch no_branch : Effect S A)
      → (test ≡ true → Keeps P yes_branch)
      → (test ≡ false → Keeps P no_branch)
      → Keeps P (if test then yes_branch else no_branch)
  Keeps-if true yes_branch no_branch kept _ = kept refl
  Keeps-if false yes_branch no_branch _ kept = kept refl

  pub Keeps-recover :
      (m : Effect S A) (handler : Error → Effect S A)
      → Keeps P m
      → ((e : Error) → Keeps P (handler e))
      → Keeps P (recover m handler)
  unfolding recover
  Keeps-recover m handler km kh = record { at = λ s h. let (r, s') = m s in after r s' (km.at s h) }
    where
      after : (r : Result A) (s : S) → P s → P (handled handler r s).1
      after (ok a) s h = h
      after (err e) s h = (kh e).at s h

module _ {ℓ} {S A B : Type ℓ} {P : S → Type ℓ} where
  -- The rest of the block may use that the call returned.
  pub Keeps-bind-lift :
      (r : Result A) (f : A → Effect S B)
      → ((a : A) → r ≡ ok a → Keeps P (f a))
      → Keeps P (lift r >>= f)
  unfolding ◌>>=◌ lift
  Keeps-bind-lift (ok a) f kf = kf a refl
  Keeps-bind-lift (err e) f kf = record { at = λ s h. h }

  -- The rest of the block may use where the value was read.
  pub Keeps-bind-read :
      (g : S → A) (f : A → Effect S B)
      → ((s : S) → P s → Keeps P (f (g s)))
      → Keeps P (read g >>= f)
  unfolding ◌>>=◌ read
  Keeps-bind-read g f kf = record { at = λ s h. (kf s h).at s h }

  -- The rest of the block may use that the call returned, and where.
  pub Keeps-bind-Seen :
      (m : Effect S A) (f : A → Effect S B)
      → Keeps P m
      → ((a : A) → Seen P m a → Keeps P (f a))
      → Keeps P (m >>= f)
  unfolding ◌>>=◌
  Keeps-bind-Seen m f km kf = record {
    at = λ s h. let (r, s') = m s in after s h r s' refl (km.at s h);
  }
    where
      after : (s : S) → P s → (r : Result A) (s' : S) → (m s).0 ≡ r → P s' → P (then_run r f s').1
      after s p (ok a) s' e h = (kf a (record { before = s; holds = p; returned = e })).at s' h
      after s p (err x) s' e h = h

  pub Keeps-bind :
      (m : Effect S A) (f : A → Effect S B)
      → Keeps P m
      → ((a : A) → Keeps P (f a))
      → Keeps P (m >>= f)
  Keeps-bind m f km kf = Keeps-bind-Seen m f km (λ a _. kf a)

  pub Keeps-finally :
      (m : Effect S A) (last : Effect S B) → Keeps P m → Keeps P last → Keeps P (finally m last)
  unfolding finally
  Keeps-finally m last km kl = record { at = λ s h. kl.at (m s).1 (km.at s h) }

module _ {ℓ} {S T A : Type ℓ} {P : S → Type ℓ} where
  pub Keeps-zoom :
      (part : S → T) (put : T → S → S) (m : Effect T A)
      → ((s : S) → P s → P (put (m (part s)).1 s))
      → Keeps P (zoom part put m)
  unfolding zoom
  Keeps-zoom part put m h = record { at = h }

module _ {ℓ} {S A B : Type ℓ} {Q : B → Type ℓ} where
  pub Returns-bind :
      (m : Effect S A) (f : A → Effect S B) → ((a : A) → Returns Q (f a)) → Returns Q (m >>= f)
  unfolding ◌>>=◌
  Returns-bind m f qf = record { at = λ s b e. let (r, s') = m s in after r s' b e }
    where
      after : (r : Result A) (s : S) (b : B) → (then_run r f s).0 ≡ ok b → Q b
      after (ok a) s b e = (qf a).at s b e
      after (err x) s b e = cc

  pub Returns-bind-lift :
      (r : Result A) (f : A → Effect S B)
      → ((a : A) → r ≡ ok a → Returns Q (f a))
      → Returns Q (lift r >>= f)
  unfolding ◌>>=◌ lift
  Returns-bind-lift (ok a) f qf = qf a refl
  Returns-bind-lift (err x) f qf = record { at = λ s b e. cc }

module _ {ℓ} {S A : Type ℓ} {Q : A → Type ℓ} where
  pub Returns-if :
      (b : Bool) (m n : Effect S A)
      → (b ≡ true → Returns Q m)
      → (b ≡ false → Returns Q n)
      → Returns Q (if b then m else n)
  Returns-if true m n qm qn = qm refl
  Returns-if false m n qm qn = qn refl

  pub Returns-lift : (r : Result A) → ((a : A) → r ≡ ok a → Q a) → Returns {S = S} Q (lift r)
  unfolding lift
  Returns-lift r q = record { at = λ s a e. q a e }

module _ {ℓ} {S A : Type ℓ} {P Q : S → Type ℓ} where
  pub Seen-weaken : (m : Effect S A) (a : A) → ((s : S) → P s → Q s) → Seen P m a → Seen Q m a
  Seen-weaken m a w o = record {
    before = o.before;
    holds = w o.before o.holds;
    returned = o.returned;
  }

module _ {ℓ} {S T A : Type ℓ} {P : S → Type ℓ} {Q : T → Type ℓ} where
  pub Seen-zoom :
      (part : S → T) (put : T → S → S) (m : Effect T A) (a : A)
      → ((s : S) → P s → Q (part s))
      → Seen P (zoom part put m) a
      → Seen Q m a
  unfolding zoom
  Seen-zoom part put m a w o = record {
    before = part o.before;
    holds = w o.before o.holds;
    returned = o.returned;
  }

-- The action returned a, in some state.
pub record Observed {ℓ} {S A : Type ℓ} (m : Effect S A) (a : A) : Type ℓ where
  pub before : S
  pub returned : (m before).0 ≡ ok a

module _ {ℓ} {S A B : Type ℓ} {Q : B → Type ℓ} where
  pub Returns-bind-Observed :
      (m : Effect S A) (f : A → Effect S B)
      → ((a : A) → Observed m a → Returns Q (f a))
      → Returns Q (m >>= f)
  unfolding ◌>>=◌
  Returns-bind-Observed m f qf = record { at = λ s b e. let (r, s') = m s in after s r s' b refl e }
    where
      after :
          (s : S) (r : Result A) (s' : S) (b : B) → (m s).0 ≡ r → (then_run r f s').0 ≡ ok b → Q b
      after s (ok a) s' b h e = (qf a (record { before = s; returned = h })).at s' b e
      after s (err x) s' b h e = cc

-- In a state that satisfies P, the action keeps P and returns only values that satisfy Q.
pub record Ensures {ℓ} {S A : Type ℓ} (P : S → Type ℓ) (Q : A → Type ℓ) (m : Effect S A)
    : Type ℓ where
  pub at : (s : S) → P s → P (m s).1 × ((a : A) → (m s).0 ≡ ok a → Q a)

module _ {ℓ} {S A : Type ℓ} {P : S → Type ℓ} {Q : A → Type ℓ} (m : Effect S A) where
  pub Ensures-Keeps : Ensures P Q m → Keeps P m
  Ensures-Keeps e = record { at = λ s h. (e.at s h).0 }

module _ {ℓ} {S A B : Type ℓ} {P : S → Type ℓ} {Q : A → Type ℓ} (m : Effect S A) where
  pub Keeps-bind-Ensures :
      (f : A → Effect S B) → Ensures P Q m → ((a : A) → Q a → Keeps P (f a)) → Keeps P (m >>= f)
  unfolding ◌>>=◌
  Keeps-bind-Ensures f e kf = record { at = λ s h. let (r, s') = m s in after r s' (e.at s h) }
    where
      after : (r : Result A) (s : S) → P s × ((a : A) → r ≡ ok a → Q a) → P (then_run r f s).1
      after (ok a) s (h, q) = (kf a (q a refl)).at s h
      after (err x) s (h, q) = h

-- ===== src/Base/Effects.antt =====
-- Methods that act on what is outside them and may raise: what was done before a raise stays done.
pub mod Keeps
pub mod Succeeds
use mathlib.Core.Path.{◌≡◌, refl}
use mathlib.Core.Bool.{Bool, true, false}
use kubecouncil.Base.Results.{Result, Error, ok, err}

abbrev pub Effect {ℓ} : Type ℓ → Type ℓ → Type ℓ
Effect S A = S → Result A × S

module _ {ℓ} {S A : Type ℓ} where
  -- A call that touches nothing.
  unfoldable pub lift : Result A → Effect S A
  lift r s = (r, s)

  unfoldable pub read : (S → A) → Effect S A
  read f s = (ok (f s), s)

module _ {ℓ} {S A B : Type ℓ} where
  abbrev pub then_run : Result A → (A → Effect S B) → Effect S B
  then_run (ok a) f s = f a s
  then_run (err e) f s = (err e, s)

  infixl 5 ◌>>=◌ ◌>>◌
  unfoldable pub ◌>>=◌ : Effect S A → (A → Effect S B) → Effect S B
  ◌>>=◌ m f s = let (r, s') = m s in then_run r f s'

  abbrev pub ◌>>◌ : Effect S A → Effect S B → Effect S B
  m >> n = m >>= λ _. n

module _ {ℓ} {S A : Type ℓ} where
  abbrev pub handled : (Error → Effect S A) → Result A → S → Result A × S
  handled handler (ok a) s = (ok a, s)
  handled handler (err e) s = handler e s

  -- `try: m except …`
  unfoldable pub recover : Effect S A → (Error → Effect S A) → Effect S A
  recover m handler s = let (r, s') = m s in handled handler r s'

abbrev concluded {ℓ} : {A B : Type ℓ} → Result A → Result B → Result A
concluded r (ok _) = r
concluded r (err e) = err e

module _ {ℓ} {S A B : Type ℓ} where
  -- `try: m finally: last`: what `last` raises replaces what m returned or raised.
  unfoldable pub finally : Effect S A → Effect S B → Effect S A
  finally m last s = let (r, s') = m s in let (q, s'') = last s' in (concluded r q, s'')

module _ {ℓ} {S A : Type ℓ} where
  abbrev pub attempted : Result (S × A) → Effect S A
  attempted (ok (s', a)) s = (ok a, s')
  attempted (err e) s = (err e, s)

  -- A call that changes the state, or raises and leaves it as it was.
  unfoldable pub attempt : (S → Result (S × A)) → Effect S A
  attempt f s = attempted (f s) s

module _ {ℓ} {S T A : Type ℓ} where
  -- An action on a part of the state.
  unfoldable pub zoom : (S → T) → (T → S → S) → Effect T A → Effect S A
  zoom part put m s = let (r, t) = m (part s) in (r, put t s)

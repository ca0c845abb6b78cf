-- ===== src/Domain/Grow.antt =====
-- How the parts of the validator behave when a list of the record grows at its end.
use kubecouncil.Base.{
  String, Bool, true, false, ◌||◌, Option, none, some, List, [], ◌∷◌, ◌++◌, ◌≡◌, ◌∙◌, refl, arith,
  Eq, string_eq, contains, contains-append, any, any-append,
}
use kubecouncil.Domain.Council.{EvidenceCitation}
use kubecouncil.Domain.Record.{any_uncited, lacks_query}

pub any_snoc {ℓ} :
    {A : Type ℓ} (p : A → Bool) (xs : List A) (a : A) → any p (xs ++ a ∷ []) ≡ (any p xs || p a)
unfolding any
any_snoc p xs a = any-append p xs (a ∷ []) ∙ ground arith

pub contains_grow {ℓ} :
    {A : Type ℓ} ⦃e : Eq A⦄ (xs ys : List A) (a : A)
    → contains xs a ≡ true
    → contains (xs ++ ys) a ≡ true
contains_grow xs ys a h = ground (arith, contains-append xs ys a)

-- A test that can only become false stays false on every element.
pub any_weaken {ℓ} :
    {A : Type ℓ} (p q : A → Bool) (xs : List A)
    → ((a : A) → p a ≡ false → q a ≡ false)
    → any p xs ≡ false
    → any q xs ≡ false
unfolding any
any_weaken p q [] w h = refl
any_weaken p q (x ∷ xs) w h = ground (arith, w x, any_weaken p q xs w)

pub lacks_query_grow :
    (ids more : List String) (q : Option String)
    → lacks_query ids q ≡ false
    → lacks_query (ids ++ more) q ≡ false
lacks_query_grow ids more none h = refl
lacks_query_grow ids more (some q) h = ground (arith, contains_grow ids more q)

pub any_uncited_grow :
    (ids more : List String) (cs : List EvidenceCitation)
    → any_uncited ids cs ≡ false
    → any_uncited (ids ++ more) cs ≡ false
unfolding any_uncited
any_uncited_grow ids more cs h =
    any_weaken _ _ cs (λ c n. ground (arith, contains_grow ids more c.evidence_id)) h

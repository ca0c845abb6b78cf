-- ===== src/Base/Json.antt =====
-- The values of a `dict[str, object]`. The members of an object are kept sorted by key, so that
-- equal dictionaries are equal values; the literals of the code are sorted already.
use Prim.Native.Nat.{ℕ}
use Prim.Native.String.{String}
use native.Mathlib.Decide.{ℕ_discrete}
use kubecouncil.Base.Equality.{Eq, String-discrete, eq_of_discrete}

mutual
  pub data Json : Type 0 where
    null : Json
    bool_false : Json
    bool_true : Json
    number : ℕ → Json
    text : String → Json
    array : Items → Json
    object : Members → Json

  pub data Items : Type 0 where
    nil : Items
    cons : Json → Items → Items

  pub data Members : Type 0 where
    end : Members
    member : String → Json → Members → Members

unfoldable pub Json-discrete : Discrete Json
unfolding String-discrete
Json-discrete = hlevel (String-discrete, ℕ_discrete)

instance abbrev pub json_eq : Eq Json
json_eq = eq_of_discrete Json-discrete

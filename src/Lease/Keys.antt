-- ===== src/Lease/Keys.antt =====
-- The lease keys of workloads (`_key` of backend/app/services/workload_lease.py).
use kubecouncil.Base.{String, ◌≡◌, sym, ap, ◌∙◌}
use Prim.Native.String.{◌++◌}
use text.Mathlib.TextLemmas.{append_assoc}
use kubecouncil.Domain.Profile.{WorkloadReference, deployment}
use kubecouncil.Lease.{lease_key}

abbrev pub workload : String → String → WorkloadReference
workload namespace name = record { namespace = namespace; name = name; kind = deployment }

separated : (x : String) → "--deployment--" ++ x ≡ "--" ++ ("deployment" ++ ("--" ++ x))
separated x =
    append_assoc "--" "deployment--" x ∙ ap (λ t. "--" ++ t) (append_assoc "deployment" "--" x)

-- The separator of a lease key may stand in the names themselves: for any three texts, the
-- workload `b--deployment--c` of namespace `a` and the workload `c` of namespace
-- `a--deployment--b` have the same lease key, so they share one lease.
pub lease_key_shared :
    (a b c : String)
    → lease_key (workload a (b ++ ("--deployment--" ++ c)))
      ≡ lease_key (workload (a ++ ("--deployment--" ++ b)) c)
unfolding lease_key
lease_key_shared a b c =
    ap (λ t. a ++ t) (sym (separated (b ++ ("--deployment--" ++ c))))
    ∙ ap (λ t. a ++ t) (sym (append_assoc "--deployment--" b ("--deployment--" ++ c)))
    ∙ sym (append_assoc a ("--deployment--" ++ b) ("--deployment--" ++ c))
    ∙ ap (λ t. (a ++ ("--deployment--" ++ b)) ++ t) (separated c)

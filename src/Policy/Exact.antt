-- ===== src/Policy/Exact.antt =====
-- The patches of `_build_patch` under `_patch_shape_is_exact`.
use kubecouncil.Base.{String, true, some, ok, ◌≡◌, refl, arith, all, contains, string_eq}
use kubecouncil.Base.Json.{Json, Members, object, member, end}
use kubecouncil.Domain.Profile.{ActionType}
use kubecouncil.Domain.Policy.{
  RemediationAction, rollback, scale, restart, action_target, action_type, DeploymentRevision,
  DeploymentPolicyState, DeploymentPatch,
}
use kubecouncil.Policy.Patch.{
  revision_of, spec_of, patch_of, build_patch, keys, value_at, has_keys, as_dict, is_int, is_str,
  dict_at, annotations_are_exact, restart_is_exact, spec_is_exact, patch_shape_is_exact,
}

-- The value is a dict with members.
pub data IsDictionary : Json → Type 0 where
  nonempty : (k : String) (v : Json) (rest : Members) → IsDictionary (object (member k v rest))

-- A restoration's template has members; the other patches restore none.
unfoldable pub TemplateIsKnown : RemediationAction → DeploymentPolicyState → Type 0
TemplateIsKnown (rollback a) s =
    (revision : DeploymentRevision) × (revision_of (some s) a.revision ≡ some revision)
    × IsDictionary revision.pod_template
TemplateIsKnown (scale a) s = Unit
TemplateIsKnown (restart a) s = Unit

exact_template :
    (a : RemediationAction) (s : DeploymentPolicyState) (template : Json)
    → IsDictionary template
    → patch_shape_is_exact (record (patch_of a s (object (member "template" template end))) {
      action_type = ActionType.rollback_deployment;
    })
      ≡ true
unfolding patch_shape_is_exact dict_at value_at as_dict has_keys keys all contains spec_is_exact
exact_template a s _ (nonempty k v rest) = refl

-- Every action whose rollback template, if it has one, is a dict with members gets a patch from
-- `_build_patch`, for its own target, type and resource version, and in the exact shape.
pub build_patch-exact :
    (action : RemediationAction) (s : DeploymentPolicyState)
    → TemplateIsKnown action s
    → (patch : DeploymentPatch) × (build_patch action s ≡ ok patch)
      × (patch.target ≡ action_target action)
      × (patch.action_type ≡ action_type action)
      × (patch.resource_version ≡ s.resource_version)
      × (patch_shape_is_exact patch ≡ true)
unfolding build_patch spec_of TemplateIsKnown patch_shape_is_exact dict_at value_at as_dict has_keys
    keys all contains spec_is_exact is_int is_str restart_is_exact annotations_are_exact
build_patch-exact (rollback a) s (revision, found, dictionary) = (
  patch_of (rollback a) s (object (member "template" revision.pod_template end)),
  ground arith,
  refl,
  refl,
  refl,
  exact_template (rollback a) s revision.pod_template dictionary,
)
build_patch-exact (scale a) s known = (_, refl, refl, refl, refl, refl)
build_patch-exact (restart a) s known = (_, refl, refl, refl, refl, refl)

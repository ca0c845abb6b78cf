-- ===== src/Policy/Patch.antt =====
-- The patch of an action: `_revision`, `_build_patch` and `_patch_shape_is_exact`.
use kubecouncil.Base.{
  ℕ, String, Bool, true, false, ◌&&◌, Option, none, some, List, [], ◌∷◌, Result, ok, err,
  policy_error, ◌==◌, string_eq, nat_eq, all, contains, find, if◌then◌else◌,
}
use kubecouncil.Base.Json.{Json, Members, number, text, object, bool_true, bool_false, end, member}
use kubecouncil.Domain.Profile.{
  ActionType, rollback_deployment, scale_deployment, restart_deployment,
}
use kubecouncil.Domain.Policy.{
  RemediationAction, rollback, scale, restart, action_target, action_type, DeploymentRevision,
  DeploymentPolicyState, DeploymentPatch,
}

unfoldable pub revision_of : Option DeploymentPolicyState → ℕ → Option DeploymentRevision
revision_of none revision = none
revision_of (some s) revision =
    find (λ (candidate : DeploymentRevision). candidate.revision == revision) s.available_revisions

abbrev pub restart_annotation : String
restart_annotation = "kubecouncil.io/restart-token"

-- The `spec` of the patch.
unfoldable pub spec_of : RemediationAction → DeploymentPolicyState → Result Json
spec_of (rollback a) s = elim (revision_of (some s) a.revision) [
  | none ↦ err (policy_error "validated rollback revision disappeared")
  | some revision ↦ ok (object (member "template" revision.pod_template end))
]
spec_of (scale a) s = ok (object (member "replicas" (number a.replicas) end))
spec_of (restart a) s = ok (
    object (
      member "template"
        (object (
          member "metadata"
            (object (
              member "annotations" (object (member restart_annotation (text a.restart_token) end))
                end))
            end))
        end))

abbrev pub metadata_of : RemediationAction → DeploymentPolicyState → Json
metadata_of action s = object (
    member "name" (text (action_target action).name) (
      member "namespace" (text (action_target action).namespace)
        (member "resourceVersion" (text s.resource_version) end)))

abbrev pub patch_of : RemediationAction → DeploymentPolicyState → Json → DeploymentPatch
patch_of action s spec = record {
  action_type = action_type action;
  target = action_target action;
  resource_version = s.resource_version;
  body = object (
      member "apiVersion" (text "apps/v1") (
        member "kind" (text "Deployment")
          (member "metadata" (metadata_of action s) (member "spec" spec end))));
}

unfoldable pub build_patch : RemediationAction → DeploymentPolicyState → Result DeploymentPatch
build_patch action s = elim (spec_of action s) [
  | err e ↦ err e
  | ok spec ↦ ok (patch_of action s spec)
]

-- `list(d)` and `d.get(key)`
unfoldable pub keys : Members → List String
keys end = []
keys (member k v rest) = k ∷ keys rest

unfoldable pub value_at : String → Members → Option Json
value_at key end = none
value_at key (member k v rest) = if k == key then some v else value_at key rest

-- `set(d) == {…}`
unfoldable pub has_keys : List String → Members → Bool
has_keys expected d = all (contains expected) (keys d) && all (contains (keys d)) expected

-- The value, if `isinstance(value, dict)`.
unfoldable pub as_dict : Option Json → Option Members
as_dict (some (object d)) = some d
as_dict _ = none

-- `isinstance(value, int)`, which Booleans are too.
unfoldable pub is_int : Option Json → Bool
is_int (some (number n)) = true
is_int (some bool_true) = true
is_int (some bool_false) = true
is_int _ = false

unfoldable pub is_str : Option Json → Bool
is_str (some (text s)) = true
is_str _ = false

-- `bool(d)`
abbrev pub is_truthy : Members → Bool
is_truthy end = false
is_truthy (member _ _ _) = true

-- The test of the value at a key, if it is a dict.
unfoldable pub dict_at : String → (Members → Bool) → Members → Bool
dict_at key test d = elim (as_dict (value_at key d)) [ none ↦ false | some inner ↦ test inner ]

unfoldable pub annotations_are_exact : Members → Bool
annotations_are_exact annotations =
    has_keys (restart_annotation ∷ []) annotations
    && is_str (value_at restart_annotation annotations)

unfoldable pub restart_is_exact : Members → Bool
restart_is_exact template =
    has_keys ("metadata" ∷ []) template
    && dict_at "metadata"
        (λ metadata.
          has_keys ("annotations" ∷ []) metadata
          && dict_at "annotations" annotations_are_exact metadata)
        template

unfoldable pub spec_is_exact : ActionType → Members → Bool
spec_is_exact scale_deployment spec =
    has_keys ("replicas" ∷ []) spec && is_int (value_at "replicas" spec)
spec_is_exact rollback_deployment spec =
    has_keys ("template" ∷ []) spec && dict_at "template" is_truthy spec
spec_is_exact restart_deployment spec =
    has_keys ("template" ∷ []) spec && dict_at "template" restart_is_exact spec

unfoldable pub patch_shape_is_exact : DeploymentPatch → Bool
patch_shape_is_exact patch = elim (as_dict (some patch.body)) [
  | none ↦ false
  | some body ↦
      has_keys ("apiVersion" ∷ "kind" ∷ "metadata" ∷ "spec" ∷ []) body
      && dict_at "metadata" (has_keys ("name" ∷ "namespace" ∷ "resourceVersion" ∷ [])) body
      && dict_at "spec" (spec_is_exact patch.action_type) body
]

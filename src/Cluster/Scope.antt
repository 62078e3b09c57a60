-- ===== src/Cluster/Scope.antt =====
-- internal/modules/clusterscoped/utils.go: the requirements that the rules put on a resource.
use capsule_proxy.Prelude.{
  String, Bool, true, false, not, ◌&&◌, ◌||◌, Option, none, some, List, [], ◌∷◌, ◌++◌, ◌==◌, any,
  if◌then◌else◌, Result, ok, err,
}
use capsule_proxy.Go.Text.{◌<>◌, has_char}
use capsule_proxy.Errors.{Error}
use capsule_proxy.Labels.{LabelApi, Requirement}
use capsule_proxy.Cluster.Resource.{ClusterResource, allows_operation}
use capsule_proxy.Cluster.Pattern.{match_pattern}
use capsule_proxy.Tenant.{ProxyTenant}

-- `schema.GroupVersionKind`
pub record GroupVersionKind : Type 0 where
  pub group : String
  pub version : String
  pub kind : String

-- One round of the loop over the API groups of a rule.
unfoldable pub match_group : GroupVersionKind → String → Bool
unfolding match_pattern
match_group gvk api_group =
    api_group == "*"
    || match_pattern api_group
        (if has_char b'/' api_group then gvk.group <> "/" <> gvk.version else gvk.group)

unfoldable pub match_resource : Option GroupVersionKind → ClusterResource → Bool
unfolding match_group any
match_resource none cr = false
match_resource (some gvk) cr =
    any (λ r. r == "*" || r == gvk.kind) cr.resources && any (match_group gvk) cr.api_groups

module _ (api : LabelApi) where
  -- What one rule adds: nothing where its selector is invalid or not selectable.
  abbrev pub selectable_requirements : Result Error (List Requirement × Bool) → List Requirement
  selectable_requirements (err e) = []
  selectable_requirements (ok (reqs, true)) = reqs
  selectable_requirements (ok (reqs, false)) = []

  unfoldable pub rule_requirements :
      Option GroupVersionKind → String → ClusterResource → List Requirement
  unfolding match_resource allows_operation
  rule_requirements gvk operation cr =
      if not (match_resource gvk cr) || not (allows_operation cr operation)
      then []
      else selectable_requirements (api.as_selector cr.selector)

  unfoldable pub rules_requirements :
      Option GroupVersionKind → String → List ClusterResource → List Requirement
  unfolding rule_requirements
  rules_requirements gvk operation [] = []
  rules_requirements gvk operation (cr ∷ crs) =
      rule_requirements gvk operation cr ++ rules_requirements gvk operation crs

  unfoldable pub get_cluster_scope_requirements :
      Option GroupVersionKind → String → List ProxyTenant → List Requirement
  unfolding rules_requirements
  get_cluster_scope_requirements gvk operation [] = []
  get_cluster_scope_requirements gvk operation (pt ∷ pts) =
      rules_requirements gvk operation pt.cluster_resources
      ++ get_cluster_scope_requirements gvk operation pts

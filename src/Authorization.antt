-- ===== src/Authorization.antt =====
-- internal/authorization/middleware.go: what the proxy adds to the answers to self reviews.
pub mod Reviews
use capsule_proxy.Prelude.{
  String, Bool, true, false, not, ◌&&◌, ◌||◌, Option, none, some, List, [], ◌∷◌, ◌++◌, ◌==◌,
  contains, map, if◌then◌else◌, Result, ok, err, is_empty,
}
use capsule_proxy.Errors.{Error, fault}
use capsule_proxy.Go.Text.{◌<>◌, equal_fold, to_lower}
use capsule_proxy.Labels.{LabelApi}
use capsule_proxy.Tenant.{ProxyTenant}
use capsule_proxy.Cluster.Resource.{
  ClusterResource, list_operation, get_operation, effective_operations,
}
use capsule_proxy.Cluster.Scope.{GroupVersionKind, get_cluster_scope_requirements}

-- `authorizationv1.ResourceAttributes`
pub record ResourceAttributes : Type 0 where
  pub namespace : String
  pub verb : String
  pub group : String
  pub version : String
  pub resource : String

-- The status of a `SelfSubjectAccessReview`.
pub record AccessStatus : Type 0 where
  pub allowed : Bool
  pub denied : Bool
  pub reason : String

pub record ResourceRule : Type 0 where
  pub api_groups : List String
  pub resources : List String
  pub verbs : List String

-- The object of a review, by its kind.
pub data Review : Type 0 where
  access_review : Option ResourceAttributes → AccessStatus → Review
  rules_review : List ResourceRule → Review
  other_review : String → Review

unfoldable pub namespaced_resource_key : String → String → String
namespaced_resource_key group resource = group <> "/" <> resource

unfoldable pub is_cross_namespace_list_verb : String → Bool
is_cross_namespace_list_verb verb = equal_fold verb "list" || equal_fold verb "watch"

unfoldable pub grant_access : AccessStatus → AccessStatus
grant_access status = record { allowed = true; denied = false; reason = "granted by capsule-proxy" }

unfoldable pub cluster_resource_operation : String → Option String
cluster_resource_operation verb =
    if equal_fold verb "list"
    then some list_operation
    else if equal_fold verb "get"
    then some get_operation
    else none

abbrev rule_of : ClusterResource → ResourceRule
rule_of cr = record {
  api_groups = cr.api_groups;
  resources = cr.resources;
  verbs = map to_lower (effective_operations cr);
}

unfoldable pub get_all_resource_rules : List ProxyTenant → List ResourceRule
get_all_resource_rules [] = []
get_all_resource_rules (pt ∷ pts) = map rule_of pt.cluster_resources ++ get_all_resource_rules pts

abbrev pub gvk_of : ResourceAttributes → GroupVersionKind
gvk_of a = record { group = a.group; version = a.version; kind = a.resource }

module _ (api : LabelApi) (proxy_cluster_scoped : Bool) (pts : List ProxyTenant)
    (namespaced_resources : List String) where
  unfoldable pub is_namespaces_list : ResourceAttributes → Bool
  is_namespaces_list a = a.resource == "namespaces" && equal_fold a.verb "list"

  unfoldable pub is_cross_namespace_list : ResourceAttributes → Bool
  is_cross_namespace_list a =
      not (is_empty pts)
      && a.namespace == ""
      && is_cross_namespace_list_verb a.verb
      && contains namespaced_resources (namespaced_resource_key a.group a.resource)

  unfoldable pub mutate_cluster_access : ResourceAttributes → AccessStatus → AccessStatus
  mutate_cluster_access a status = elim (cluster_resource_operation a.verb) [
    | none ↦ status
    | some operation ↦
        if is_empty (get_cluster_scope_requirements api (some (gvk_of a)) operation pts)
        then status
        else grant_access status
  ]

  unfoldable pub mutate_access : ResourceAttributes → AccessStatus → AccessStatus
  mutate_access a status =
      if is_namespaces_list a
      then grant_access status
      else if is_cross_namespace_list a
      then grant_access status
      else if not proxy_cluster_scoped
      then status
      else mutate_cluster_access a status

  unfoldable pub injected_rules : List ResourceRule
  injected_rules =
      record { api_groups = "" ∷ []; resources = "namespaces" ∷ []; verbs = "list" ∷ [] }
      ∷ (if proxy_cluster_scoped then get_all_resource_rules pts else [])

  unfoldable pub mutate_authorization : Review → Result Error Review
  mutate_authorization (access_review none status) = ok (access_review none status)
  mutate_authorization (access_review (some a) status) =
      ok (access_review (some a) (mutate_access a status))
  mutate_authorization (rules_review rules) = ok (rules_review (rules ++ injected_rules))
  mutate_authorization (other_review kind) = err (fault ("unsupported kind: " <> kind))

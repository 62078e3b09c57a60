-- ===== src/Examples/Cluster.antt =====
-- Rules, patterns and the selectors that are made of them.
use mathlib.Core.List.{Memᴰ}
use mathlib.Core.List.Memᴰ
use capsule_proxy.Prelude.{
  String, ◌≡◌, refl, true, some, List, [], ◌∷◌, ok, ◌↔◌, any, contains, ◌&&◌, ◌==◌, All,
}
use capsule_proxy.Go.Text.{◌<>◌, split, has_char}
use capsule_proxy.Labels.{Labels, Requirement, Selector}
use capsule_proxy.Request.Http.{HttpRequest}
use capsule_proxy.Cluster.Resource.{list_operation, get_operation}
use capsule_proxy.Cluster.Scope.{GroupVersionKind, get_cluster_scope_requirements}
use capsule_proxy.Cluster.Grants.{Granted, requirements_iff}
use capsule_proxy.Cluster.Pattern.{match_pattern}
use capsule_proxy.Cluster.Wildcards.{Fits, match_pattern_iff, match_pattern_open}
use capsule_proxy.RoleBindings.Lookup.{Found, hit}
use capsule_proxy.Modules.Gvk.{get_gvk_from_url, replace_plural_with_kind, Discovery}
use capsule_proxy.Modules.Selector.{requirements_key, handle_list_selector}
use capsule_proxy.Modules.Selecting.{Plain, list_selector-values}
use capsule_proxy.Modules.ClusterScoped.{handle_get}
use capsule_proxy.Modules.ClusterAccess.{handle_get-granted}
use capsule_proxy.Examples.Sample.{
  sample_api, sample_api-KeepsFields, sample_requirement, sample_proxy_tenants, sample_request,
}

abbrev storage : GroupVersionKind
storage = record { group = "storage.k8s.io"; version = "v1"; kind = "storageclasses" }

requirements_iff_example :
    Memᴰ sample_requirement
      (get_cluster_scope_requirements sample_api (some storage) list_operation sample_proxy_tenants)
    ↔ Granted sample_api (some storage) list_operation sample_proxy_tenants sample_requirement
requirements_iff_example =
    requirements_iff sample_api (some storage) list_operation sample_proxy_tenants
      sample_requirement

match_pattern_iff_example :
    (match_pattern "storage*" "storage.k8s.io" ≡ true)
    ↔ Fits (split b'*' "storage*") "storage.k8s.io"
unfolding has_char
match_pattern_iff_example = match_pattern_iff "storage*" "storage.k8s.io" refl

match_pattern_open_example :
    match_pattern ("a" <> "*" <> "b") ("x" <> "a" <> "y" <> "b" <> "z") ≡ true
unfolding has_char
match_pattern_open_example = match_pattern_open "a" "b" refl refl "x" "y" "z" refl refl

Plain-requirement : Plain sample_requirement
unfolding has_char
Plain-requirement = record { key = refl; operator = refl }

abbrev two_requirements : List Requirement
two_requirements =
    sample_requirement ∷ record { key = "team"; operator = "="; values = "red" ∷ [] } ∷ []

two-Plain : All Plain two_requirements
unfolding has_char
two-Plain = (Plain-requirement, (record { key = refl; operator = refl }, tt))

abbrev merged_selector : Selector
merged_selector = record { key = "team"; operator = "in"; values = "blue" ∷ "red" ∷ [] } ∷ []

list_selector-values_example :
    (any (λ r. requirements_key r == "team:in") merged_selector
      ≡ any (λ r. requirements_key r == "team:in") two_requirements)
    × (any (λ r. requirements_key r == "team:in" && contains r.values "red") merged_selector
        ≡ any (λ r. requirements_key r == "team:in" && contains r.values "red") two_requirements)
unfolding handle_list_selector capsule_proxy.Modules.Selector.add_requirements
    capsule_proxy.Modules.Selector.requirements_map
list_selector-values_example =
    list_selector-values sample_api sample_api-KeepsFields two_requirements merged_selector
      two-Plain refl "team:in" "red"

abbrev list_request : HttpRequest
list_request = record sample_request { path = "/apis/storage.k8s.io/v1/storageclasses" }

abbrev pub sample_discovery : Discovery
sample_discovery = λ group_version. ok (("storageclasses", "StorageClass") ∷ [])

abbrev pub sample_reader : GroupVersionKind → String → Found Labels
sample_reader = λ gvk name. hit (("team", "blue") ∷ [])

handle_get-granted_example :
    (gvk kind : GroupVersionKind) × (labels : Labels) × (req : Requirement) × (get_gvk_from_url
        sample_request.path
      ≡ some gvk)
    × (replace_plural_with_kind sample_discovery gvk ≡ ok kind)
    × (sample_reader kind "fast" ≡ hit labels)
    × ((sample_requirement ∷ []) ≡ req ∷ [])
    × Granted sample_api
        (get_gvk_from_url sample_request.path)
        get_operation
        sample_proxy_tenants
        req
    × (sample_api.matches req labels ≡ true)
unfolding handle_get get_cluster_scope_requirements get_gvk_from_url has_char
    capsule_proxy.Modules.ClusterScoped.handle_selector replace_plural_with_kind
    capsule_proxy.Modules.Selector.first_matching
handle_get-granted_example =
    handle_get-granted sample_api sample_proxy_tenants sample_request sample_discovery sample_reader
      "fast" (sample_requirement ∷ []) refl

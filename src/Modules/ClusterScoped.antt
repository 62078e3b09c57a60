-- ===== src/Modules/ClusterScoped.antt =====
-- internal/modules/clusterscoped/{list,get}.go: the handlers of cluster-scoped resources.
use capsule_proxy.Prelude.{
  String, Option, none, some, List, [], ◌∷◌, ◌==◌, if◌then◌else◌, Result, ok, err, is_empty,
}
use capsule_proxy.Errors.{Error, panic, new_not_found_error}
use capsule_proxy.Labels.{Labels, Requirement, Selector, LabelApi, exists_operator}
use capsule_proxy.Tenant.{ProxyTenant}
use capsule_proxy.Request.Http.{HttpRequest}
use capsule_proxy.Cluster.Resource.{list_operation, get_operation}
use capsule_proxy.Cluster.Scope.{GroupVersionKind, get_cluster_scope_requirements}
use capsule_proxy.RoleBindings.Lookup.{Found, hit, not_found, failed}
use capsule_proxy.Modules.Gvk.{get_gvk_from_url, replace_plural_with_kind, Discovery}
use capsule_proxy.Modules.Selector.{handle_list_selector, first_matching}

abbrev pub Answer : Type 0
Answer = Result Error (Option Selector)

abbrev pub ignored_key : String
ignored_key = "dontexistsignoreme"

-- A failing `NewRequirement` leaves a nil pointer, which is dereferenced.
abbrev pub only : Result Error Requirement → Answer
only (err e) = err (panic "invalid memory address or nil pointer dereference")
only (ok r) = ok (some (r ∷ []))

abbrev pub some_selector : Result Error Selector → Answer
some_selector (err e) = err e
some_selector (ok s) = ok (some s)

module _ (api : LabelApi) (pts : List ProxyTenant) (r : HttpRequest) where
  abbrev granted_requirements : String → List Requirement
  granted_requirements operation =
      get_cluster_scope_requirements api (get_gvk_from_url r.path) operation pts

  unfoldable pub handle_list : Answer
  handle_list =
      let requirements = granted_requirements list_operation in
      if is_empty requirements
      then only (api.new_requirement ignored_key exists_operator [])
      else if r.method == "GET"
      then some_selector (handle_list_selector api requirements)
      else ok none

  -- `Get` of the reader for a kind and a name: the labels of the object.
  module _ (discovery : Discovery) (reader : GroupVersionKind → String → Found Labels) where
    unfoldable pub handle_selector : Option GroupVersionKind → List Requirement → String → Answer
    handle_selector none requirements name =
        err (panic "invalid memory address or nil pointer dereference")
    handle_selector (some gvk) requirements name = elim (replace_plural_with_kind discovery gvk) [
      | err e ↦ err e
      | ok kind ↦ elim (reader kind name) [
        | failed e ↦ err e
        | not_found ↦
            err (new_not_found_error name (record { group = kind.group; kind = kind.kind }))
        | hit labels ↦ elim (first_matching api requirements labels) [
          | none ↦ ok none
          | some requirement ↦ ok (some (requirement ∷ []))
        ]
      ]
    ]

    unfoldable pub handle_get : String → Answer
    handle_get name =
        let requirements = granted_requirements get_operation in
        if is_empty requirements
        then ok none
        else if r.method == "GET"
        then handle_selector (get_gvk_from_url r.path) requirements name
        else ok none

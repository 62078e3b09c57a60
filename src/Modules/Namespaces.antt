-- ===== src/Modules/Namespaces.antt =====
-- internal/modules/namespace/{get,list,utils}.go and internal/modules/tenants/{get,list,utils}.go:
-- the handlers of namespaces and of tenants.
use capsule_proxy.Prelude.{
  String, Bool, Option, none, some, List, [], ◌∷◌, ◌++◌, ◌==◌, any, contains, map, not, ◌&&◌,
  if◌then◌else◌, Result, ok, err, is_empty,
}
use capsule_proxy.Errors.{Error, GroupKind, new_bad_request, new_not_found_error}
use capsule_proxy.Labels.{Labels, Selector, LabelApi, in_operator, exists_operator}
use capsule_proxy.Tenant.{ProxyTenant}
use capsule_proxy.Request.Http.{HttpRequest}
use capsule_proxy.Cluster.Resource.{list_operation, get_operation}
use capsule_proxy.Cluster.Scope.{GroupVersionKind, get_cluster_scope_requirements}
use capsule_proxy.RoleBindings.Lookup.{Found, hit, not_found, failed, Namespace}
use capsule_proxy.Modules.Selector.{handle_list_selector}
use capsule_proxy.Modules.ClusterScoped.{Answer, ignored_key}

-- `corev1.LabelMetadataName`
abbrev pub name_key : String
name_key = "kubernetes.io/metadata.name"

unfoldable pub namespaces_gvk : GroupVersionKind
namespaces_gvk = record { group = ""; version = "v1"; kind = "namespaces" }

unfoldable pub tenants_gvk : GroupVersionKind
tenants_gvk = record { group = "capsule.clastix.io"; version = "v1beta2"; kind = "tenants" }

abbrev pub namespaces_kind : GroupKind
namespaces_kind = record { group = ""; kind = "namespaces" }

abbrev pub tenants_kind : GroupKind
tenants_kind = record { group = "capsule.clastix.io"; kind = "tenants" }

abbrev pub tenant_name_of : ProxyTenant → String
tenant_name_of pt = pt.tenant.name

unfoldable pub tenant_namespaces : List ProxyTenant → List String
tenant_namespaces [] = []
tenant_namespaces (p ∷ ps) = p.tenant.namespaces ++ tenant_namespaces ps

-- `sorted` is `sets.List`.
module _ (api : LabelApi) (sorted : List String → List String) (pts : List ProxyTenant) where
  -- Whether a requirement that is granted for GET matches the labels.
  unfoldable pub matches_cluster_scoped : GroupVersionKind → Labels → Bool
  matches_cluster_scoped gvk labels =
      any (λ q. api.matches q labels)
        (get_cluster_scope_requirements api (some gvk) get_operation pts)

  -- The names of the objects that the requirements granted for LIST select; `names` is `List` of the
  -- reader with a selector.
  unfoldable pub cluster_scoped_names :
      (Selector → Result Error (List String)) → GroupVersionKind → Result Error (List String)
  cluster_scoped_names names gvk =
      let requirements = get_cluster_scope_requirements api (some gvk) list_operation pts in
      if is_empty requirements then ok [] else elim (handle_list_selector api requirements) [
        | err e ↦ err e
        | ok selector ↦ names selector
      ]

  -- The requirement for a list of names.
  unfoldable pub names_answer : GroupKind → Bool → List String → Answer
  names_answer gk no_names names =
      elim (if no_names
        then api.new_requirement ignored_key exists_operator []
        else api.new_requirement name_key in_operator names) [
          | err e ↦ err (new_bad_request e gk)
          | ok q ↦ ok (some (q ∷ []))
        ]

  -- `reflector` is nil where the reflection of role bindings is off.
  module _ (reflector : Option (HttpRequest → Result Error (List String))) (r : HttpRequest) where
    abbrev pub reflected_namespaces : Result Error (List String)
    reflected_namespaces = elim reflector [ none ↦ ok [] | some ask ↦ ask r ]

    unfoldable pub list_namespaces : (Selector → Result Error (List String)) → Answer
    list_namespaces names = elim reflected_namespaces [
      | err e ↦ err (new_bad_request e namespaces_kind)
      | ok reflected ↦ elim (cluster_scoped_names names namespaces_gvk) [
        | err e ↦ err (new_bad_request e namespaces_kind)
        | ok granted ↦
            let found = (tenant_namespaces pts ++ reflected) ++ granted in
            names_answer namespaces_kind (is_empty found) (sorted found)
      ]
    ]

    abbrev pub refused : String → Answer
    refused name = err (new_not_found_error name namespaces_kind)

    -- What is done with the owner of a namespace that was read.
    unfoldable pub owned_namespace : Namespace → String → String → Answer
    owned_namespace ns tenant_name name = elim reflected_namespaces [
      | err e ↦ err (new_bad_request e namespaces_kind)
      | ok reflected ↦
          if not (contains (map tenant_name_of pts) tenant_name)
            && not (contains reflected name)
            && not (matches_cluster_scoped namespaces_gvk ns.labels)
          then refused name
          else ok (some [])
    ]

    unfoldable pub first_owner : Namespace → List (String × String) → String → Answer
    first_owner ns [] name = refused name
    first_owner ns ((kind, tenant_name) ∷ owners) name =
        if not (kind == "Tenant") then refused name else owned_namespace ns tenant_name name

    -- `Get` of the reader by name; after an error other than a missing object the namespace has no
    -- owners.
    unfoldable pub get_namespace : (String → Found Namespace) → String → Answer
    get_namespace reader name = elim (reader name) [
      | not_found ↦ ok (some [])
      | failed e ↦ refused name
      | hit ns ↦ first_owner ns ns.owner_references name
    ]

  unfoldable pub list_tenants : (Selector → Result Error (List String)) → Answer
  list_tenants names = elim (cluster_scoped_names names tenants_gvk) [
    | err e ↦ err (new_bad_request e tenants_kind)
    | ok granted ↦
        let found = sorted (map tenant_name_of pts ++ granted) in
        names_answer tenants_kind (is_empty found) found
  ]

  unfoldable pub get_tenant : (String → Found Labels) → String → Answer
  get_tenant reader name =
      if contains (map tenant_name_of pts) name then ok (some []) else elim (reader name) [
        | not_found ↦ err (new_not_found_error name tenants_kind)
        | failed e ↦ err e
        | hit labels ↦
            if matches_cluster_scoped tenants_gvk labels
            then ok (some [])
            else err (new_not_found_error name tenants_kind)
      ]

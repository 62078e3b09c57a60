-- ===== src/Modules/Volumes.antt =====
-- internal/modules/persistentvolume/{utils,get,list}.go: the volumes that carry the label of a tenant.
use capsule_proxy.Prelude.{
  String, Bool, true, false, List, [], ◌∷◌, ◌++◌, if◌then◌else◌, Result, ok, err, ◌>>=◌,
}
use capsule_proxy.Errors.{Error, GroupKind, panic, new_not_allowed}
use capsule_proxy.Labels.{LabelApi, Labels, Requirement, in_operator}
use capsule_proxy.Tenant.{ProxyTenant, request_allowed}
use capsule_proxy.RoleBindings.Lookup.{Found}
use capsule_proxy.Modules.ClusterScoped.{Answer, some_selector}
use capsule_proxy.Modules.Selector.{handle_list_selector, handle_get_selector}

module _ (method : String) where
  unfoldable pub allowing_tenants :
      List ProxyTenant → Bool → List String → Result Error (Bool × List String)
  allowing_tenants [] allowed names = ok (allowed, names)
  allowing_tenants (pt ∷ pts) allowed names = elim (request_allowed pt method "PersistentVolumes") [
    | err e ↦ err e
    | ok true ↦ allowing_tenants pts true (names ++ pt.tenant.name ∷ [])
    | ok false ↦ allowing_tenants pts allowed names
  ]

module _ (api : LabelApi) (method label : String) (gk : GroupKind) (pts : List ProxyTenant) where
  -- The error of `NewRequirement` is dropped and its pointer dereferenced.
  unfoldable pub get_persistent_volume : Result Error (Bool × Requirement)
  get_persistent_volume = allowing_tenants method pts false [] >>= λ (allowed, names).
      elim (api.new_requirement label in_operator names) [
        | err e ↦ err (panic "invalid memory address or nil pointer dereference")
        | ok r ↦ ok (allowed, r)
      ]

  unfoldable pub list_persistent_volumes : Answer
  list_persistent_volumes = get_persistent_volume >>= λ (allowed, r).
      if allowed
      then some_selector (handle_list_selector api (r ∷ []))
      else err (new_not_allowed gk)

  unfoldable pub get_one_persistent_volume : String → Found Labels → Answer
  get_one_persistent_volume name object = get_persistent_volume >>= λ (allowed, r).
      some_selector (handle_get_selector api object (r ∷ []) name gk)

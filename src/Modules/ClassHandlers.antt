-- ===== src/Modules/ClassHandlers.antt =====
-- internal/modules/{storageclass,priorityclass,ingressclass,runtimeclass}/{get,list}.go and
-- internal/modules/runtimeclass/utils.go: the handlers of classes. A list of classes is read as the
-- list of their names, which is all that the program takes from it.
use capsule_proxy.Prelude.{
  String, Bool, true, false, Option, none, some, List, [], ◌∷◌, ◌++◌, ◌==◌, if◌then◌else◌, is_empty,
  Result, ok, err, ◌>>=◌,
}
use capsule_proxy.Go.Text.{◌<>◌}
use capsule_proxy.Errors.{
  Error, GroupKind, fault, new_bad_request, new_not_allowed, new_not_found_error,
}
use capsule_proxy.Labels.{LabelApi, Labels, Requirement, exists_operator}
use capsule_proxy.Tenant.{ProxyTenant, request_allowed}
use capsule_proxy.Cluster.Scope.{selectable_requirements}
use capsule_proxy.RoleBindings.Lookup.{Found}
use capsule_proxy.Modules.ClusterScoped.{Answer, only, some_selector, ignored_key}
use capsule_proxy.Modules.Selector.{handle_list_selector, handle_get_selector}
use capsule_proxy.Modules.Classes.{
  ClassGrants, get_storage_classes, get_priority_class, get_ingress_classes,
  get_storage_class_selector, get_priority_class_selector, get_ingress_class_selector,
}

-- The versions of networking.k8s.io that have ingress classes.
pub data IngressVersion : Type 0 where
  networking_v1 networking_v1beta1 : IngressVersion

unfoldable pub get_ingress_class_list_from_request : String → Result Error IngressVersion
get_ingress_class_list_from_request v =
    if v == "v1"
    then ok networking_v1
    else if v == "v1beta1"
    then ok networking_v1beta1
    else err (fault ("ingressClass " <> v <> " is not supported"))

unfoldable pub get_ingress_class_from_request : String → Result Error IngressVersion
get_ingress_class_from_request v =
    if v == "v1"
    then ok networking_v1
    else if v == "v1beta1"
    then ok networking_v1beta1
    else err (fault ("ingressClass " <> v <> " is not supported"))

module _ (api : LabelApi) (gk : GroupKind) where
  -- Where no listed class is named, the answer depends on whether some tenant allows the operation.
  unfoldable pub listed_classes : Bool → Result Error Requirement → Answer
  listed_classes allowed (ok r) = ok (some (r ∷ []))
  listed_classes allowed (err e) =
      if allowed
      then only (api.new_requirement ignored_key exists_operator [])
      else err (new_not_allowed gk)

  module _ (method name : String) where
    -- Where the class of the name is not named, a GET is answered by an error.
    unfoldable pub named_class : Result Error Requirement → Answer
    named_class (ok r) = ok (some (r ∷ []))
    named_class (err e) = if method == "GET" then err (new_not_found_error name gk) else ok none

  module _ (selector : ClassGrants → List String → Result Error (Result Error Requirement))
      (classes : Result Error ClassGrants) where
    -- The body that the three packages share. `listed` is what `List` of the reader answers.
    unfoldable pub list_classes : Result Error (List String) → Answer
    list_classes listed = classes >>= λ g.
        if is_empty g.requirements
        then elim listed [
          | err e ↦ err (new_bad_request e gk)
          | ok names ↦ selector g names >>= listed_classes g.allowed
        ]
        else some_selector (handle_list_selector api g.requirements)

    -- `object` is what `Get` of the reader answers, `listed` what `List` by the label of the name does.
    unfoldable pub get_class :
        String → String → Result Error (Found Labels) → Result Error (List String) → Answer
    get_class method name object listed = classes >>= λ g.
        if is_empty g.requirements
        then elim listed [
          | err e ↦ err (new_bad_request e gk)
          | ok names ↦ selector g names >>= named_class method name
        ]
        else elim object [
          | err e ↦ err (new_bad_request e gk)
          | ok found ↦ some_selector (handle_get_selector api found g.requirements name gk)
        ]

module _ (api : LabelApi) (compile : String → Option (String → Bool))
    (merged : List String → List String) (gk : GroupKind) (pts : List ProxyTenant)
    (method : String) where
  unfoldable pub list_storage_classes : Result Error (List String) → Answer
  list_storage_classes =
      list_classes api gk (get_storage_class_selector api)
        (get_storage_classes api compile merged method pts)

  unfoldable pub get_storage_class : String → Found Labels → Result Error (List String) → Answer
  get_storage_class name object =
      get_class api gk (get_storage_class_selector api)
        (get_storage_classes api compile merged method pts) method name (ok object)

  unfoldable pub list_priority_classes : Result Error (List String) → Answer
  list_priority_classes =
      list_classes api gk (get_priority_class_selector api)
        (get_priority_class api compile merged method pts)

  unfoldable pub get_one_priority_class :
      String → Found Labels → Result Error (List String) → Answer
  get_one_priority_class name object =
      get_class api gk (get_priority_class_selector api)
        (get_priority_class api compile merged method pts) method name (ok object)

  -- The reader takes the version of the request's path.
  unfoldable pub list_ingress_classes :
      String → (IngressVersion → Result Error (List String)) → Answer
  list_ingress_classes version listed =
      list_classes api gk (get_ingress_class_selector api)
        (get_ingress_classes api compile merged method pts)
        (get_ingress_class_list_from_request version >>= listed)

  unfoldable pub get_ingress_class :
      String
      → String
      → (IngressVersion → Found Labels)
      → (IngressVersion → Result Error (List String))
      → Answer
  get_ingress_class version name object listed =
      get_class api gk (get_ingress_class_selector api)
        (get_ingress_classes api compile merged method pts) method name
        (get_ingress_class_from_request version >>= λ v. ok (object v))
        (get_ingress_class_list_from_request version >>= listed)

module _ (api : LabelApi) (method : String) where
  unfoldable pub runtime_requirements : ProxyTenant → List Requirement
  runtime_requirements pt = elim pt.tenant.runtime_classes [
    | none ↦ []
    | some c ↦ selectable_requirements api (api.as_selector (some c.label_selector))
  ]

  unfoldable pub get_runtime_class :
      List ProxyTenant → Bool → List Requirement → Result Error (Bool × List Requirement)
  get_runtime_class [] allowed requirements = ok (allowed, requirements)
  get_runtime_class (pt ∷ pts) allowed requirements =
      elim (request_allowed pt method "RuntimeClasses") [
        | err e ↦ err e
        | ok true ↦ get_runtime_class pts true (requirements ++ runtime_requirements pt)
        | ok false ↦ get_runtime_class pts allowed requirements
      ]

  module _ (gk : GroupKind) (pts : List ProxyTenant) where
    unfoldable pub list_runtime_classes : Answer
    list_runtime_classes = get_runtime_class pts false [] >>= λ (allowed, requirements).
        if allowed
        then if is_empty requirements
          then only (api.new_requirement ignored_key exists_operator [])
          else some_selector (handle_list_selector api requirements)
        else err (new_not_allowed gk)

    unfoldable pub get_one_runtime_class : String → Found Labels → Answer
    get_one_runtime_class name object =
        get_runtime_class pts false [] >>= λ (allowed, requirements).
        if is_empty requirements
        then err (new_not_found_error name gk)
        else some_selector (handle_get_selector api object requirements name gk)

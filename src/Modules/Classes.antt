-- ===== src/Modules/Classes.antt =====
-- internal/modules/{storageclass,priorityclass,ingressclass}/utils.go: the classes that the tenants
-- of a subject allow. The three packages have one body each, which differ in the kind, the field of
-- the tenant and the message.
use capsule_proxy.Prelude.{
  String, Bool, true, false, Option, none, some, List, [], ◌∷◌, ◌++◌, ◌==◌, get_elem?, any,
  if◌then◌else◌, is_empty, Result, ok, err, ◌>>=◌,
}
use capsule_proxy.Errors.{Error, fault, panic}
use capsule_proxy.Labels.{LabelApi, Requirement, in_operator}
use capsule_proxy.Tenant.{AllowedClasses, Tenant, ProxyTenant, request_allowed}
use capsule_proxy.Cluster.Scope.{selectable_requirements}
use capsule_proxy.Go.Searching.{search_strings}
use capsule_proxy.Go.Sorting.{slice_stable}

-- What the loop over the tenants collects.
pub record ClassGrants : Type 0 where
  pub allowed : Bool
  pub exact : List String
  pub regex : List (String → Bool)
  pub requirements : List Requirement

abbrev pub no_classes : ClassGrants
no_classes = record { allowed = false; exact = []; regex = []; requirements = [] }

abbrev pub metadata_name : String
metadata_name = "kubernetes.io/metadata.name"

-- `f := sort.SearchStrings(exact, name); f < len(exact) && exact[f] == name`
unfoldable pub search_exact : List String → String → Option Bool
search_exact exact name = elim (search_strings exact name) [
  | none ↦ none
  | some f ↦ elim (get_elem? exact f) [ none ↦ some false | some v ↦ some (v == name) ]
]

-- `regexp.MustCompile` panics where `compile` has no answer; a matcher is `MatchString`.
unfoldable pub add_regex :
    (String → Option (String → Bool))
    → String
    → List (String → Bool)
    → Result Error (List (String → Bool))
add_regex compile pattern regex = if pattern == "" then ok regex else elim (compile pattern) [
  | none ↦ err (panic "regexp: Compile")
  | some matcher ↦ ok (regex ++ matcher ∷ [])
]

module _ (api : LabelApi) (compile : String → Option (String → Bool)) where
  -- The rest of the loop's body for the classes of a tenant that allows the request.
  unfoldable pub add_classes : AllowedClasses → ClassGrants → Result Error ClassGrants
  add_classes c g = add_regex compile c.regex g.regex >>= λ regex. ok (record {
    allowed = true;
    exact = g.exact ++ c.exact ++ (if c.default == "" then [] else c.default ∷ []);
    regex = regex;
    requirements =
        g.requirements ++ selectable_requirements api (api.as_selector (some c.label_selector));
  })

  module _ (method kind : String) (classes : Tenant → Option AllowedClasses) where
    unfoldable pub add_tenant : ProxyTenant → ClassGrants → Result Error ClassGrants
    add_tenant pt g = elim (request_allowed pt method kind) [
      | err e ↦ err e
      | ok false ↦ ok g
      | ok true ↦ elim (classes pt.tenant) [
        | none ↦ ok (record g { allowed = true })
        | some c ↦ add_classes c g
      ]
    ]

    unfoldable pub add_tenants : List ProxyTenant → ClassGrants → Result Error ClassGrants
    add_tenants [] g = ok g
    add_tenants (pt ∷ pts) g = add_tenant pt g >>= add_tenants pts

    -- `merged` is how `SliceStable` merges the blocks of a long slice.
    unfoldable pub collect_classes :
        (List String → List String) → List ProxyTenant → Result Error ClassGrants
    collect_classes merged pts =
        add_tenants pts no_classes >>= λ g. ok (record g { exact = slice_stable merged g.exact })

  module _ (merged : List String → List String) (method : String) (pts : List ProxyTenant) where
    unfoldable pub get_storage_classes : Result Error ClassGrants
    get_storage_classes =
        collect_classes method "StorageClasses" (λ t. t.storage_classes) merged pts

    unfoldable pub get_priority_class : Result Error ClassGrants
    get_priority_class =
        collect_classes method "PriorityClasses" (λ t. t.priority_classes) merged pts

    unfoldable pub get_ingress_classes : Result Error ClassGrants
    get_ingress_classes =
        collect_classes method "IngressClasses" (λ t. t.ingress_classes) merged pts

-- Whether the loop over the listed classes appends this one: its matchers first, then the search.
unfoldable pub is_class_named : ClassGrants → String → Result Error Bool
is_class_named g name =
    if any (λ matcher. matcher name) g.regex then ok true else elim (search_exact g.exact name) [
      | none ↦ err (panic "index out of range")
      | some found ↦ ok found
    ]

unfoldable pub class_names : ClassGrants → List String → Result Error (List String)
class_names g [] = ok []
class_names g (name ∷ names) = is_class_named g name >>= λ named.
    class_names g names >>= λ rest. ok (if named then name ∷ rest else rest)

module _ (api : LabelApi) where
  -- The outer result is a panic, the inner one the error that is returned. The classes are their names.
  unfoldable pub class_selector :
      String → ClassGrants → List String → Result Error (Result Error Requirement)
  class_selector message g listed = class_names g listed >>= λ names. ok (
      if is_empty names
      then err (fault message)
      else api.new_requirement metadata_name in_operator names)

  unfoldable pub get_storage_class_selector :
      ClassGrants → List String → Result Error (Result Error Requirement)
  get_storage_class_selector =
      class_selector "cannot create LabelSelector for the requested StorageClass requirement"

  unfoldable pub get_priority_class_selector :
      ClassGrants → List String → Result Error (Result Error Requirement)
  get_priority_class_selector =
      class_selector "cannot create LabelSelector for the requested PriorityClass requirement"

  unfoldable pub get_ingress_class_selector :
      ClassGrants → List String → Result Error (Result Error Requirement)
  get_ingress_class_selector =
      class_selector "cannot create LabelSelector for the requested IngressClass requirement"

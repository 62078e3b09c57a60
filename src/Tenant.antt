-- ===== src/Tenant.antt =====
-- internal/tenant: what a subject is granted, for one tenant or by global settings.
use capsule_proxy.Prelude.{
  String, Bool, true, false, ◌&&◌, ◌||◌, Option, none, some, List, [], ◌∷◌, ◌++◌, ◌==◌,
  if◌then◌else◌, Result, ok, err, ◌>>=◌, lookup, insert,
}
use capsule_proxy.Errors.{Error, panic}
use capsule_proxy.Labels.{Labels, LabelSelector}
use capsule_proxy.Cluster.Resource.{ClusterResource}

pub record Operations : Type 0 where
  pub list : Bool
  pub update : Bool
  pub delete : Bool

unfoldable pub default_operations : Operations
default_operations = record { list = false; update = false; delete = false }

-- The operations of capsule's `rbac` package are texts, as in its API.
unfoldable pub allow : Operations → String → Operations
allow o operation =
    if operation == "List"
    then record o { list = true }
    else if operation == "Update"
    then record o { update = true }
    else if operation == "Delete"
    then record o { delete = true }
    else o

unfoldable pub is_allowed : Operations → String → Bool
is_allowed o method =
    if method == "GET"
    then o.list
    else if method == "PUT" || method == "PATCH"
    then o.list && o.update
    else if method == "DELETE"
    then o.list && o.delete
    else false

-- `rbac.ProxySettings`
pub record ProxySettings : Type 0 where
  pub kind : String
  pub operations : List String

-- api/v1beta1/proxysettings_types.go
pub record OwnerSpec : Type 0 where
  pub kind : String
  pub name : String
  pub cluster_resources : List ClusterResource
  pub proxy_operations : List ProxySettings

-- api/v1beta1/globalproxysettings_types.go
pub record GlobalSubject : Type 0 where
  pub kind : String
  pub name : String

pub record GlobalSubjectSpec : Type 0 where
  pub subjects : List GlobalSubject
  pub cluster_resources : List ClusterResource

-- The allowed classes of a tenant, of capsule's API.
pub record AllowedClasses : Type 0 where
  pub exact : List String
  pub default : String
  pub regex : String
  pub label_selector : LabelSelector

-- The parts of a capsule `Tenant` that the program reads.
pub record Tenant : Type 0 where
  pub name : String
  pub labels : Labels
  pub namespaces : List String
  pub owners : List OwnerSpec
  pub node_selector : Labels
  pub ingress_classes : Option AllowedClasses
  pub storage_classes : Option AllowedClasses
  pub priority_classes : Option AllowedClasses
  pub runtime_classes : Option AllowedClasses

abbrev pub Settings : Type 0
Settings = List (String × Operations)

pub record ProxyTenant : Type 0 where
  pub tenant : Tenant
  pub proxy_setting : Option Settings
  pub cluster_resources : List ClusterResource

unfoldable pub default_proxy_settings : Settings
unfolding default_operations
default_proxy_settings =
    ("Nodes", default_operations)
    ∷ ("StorageClasses", default_operations)
    ∷ ("IngressClasses", default_operations)
    ∷ ("PriorityClasses", default_operations)
    ∷ ("RuntimeClasses", default_operations)
    ∷ ("PersistentVolumes", default_operations)
    ∷ []

abbrev pub selected : String → String → OwnerSpec → Bool
selected name kind owner = owner.name == name && owner.kind == kind

-- The cluster resources of the last owner that is the subject.
unfoldable pub owner_cluster_resources :
    String → String → List ClusterResource → List OwnerSpec → List ClusterResource
owner_cluster_resources name kind found [] = found
owner_cluster_resources name kind found (owner ∷ owners) =
    owner_cluster_resources name kind
      (if selected name kind owner then owner.cluster_resources else found) owners

unfoldable pub owner_proxy_settings :
    String → String → List ProxySettings → List OwnerSpec → List ProxySettings
owner_proxy_settings name kind found [] = found
owner_proxy_settings name kind found (owner ∷ owners) =
    owner_proxy_settings name kind
      (if selected name kind owner then owner.proxy_operations else found) owners

-- `proxySettings[kind].Allow(operation)`; at a kind that is not in the map the receiver is nil, which
-- `Allow` writes to only for an operation that it knows.
unfoldable pub allow_at : Settings → String → String → Result Error Settings
unfolding allow
allow_at settings kind operation = elim (lookup kind settings) [
  | some o ↦ ok (insert kind (allow o operation) settings)
  | none ↦
      if operation == "List" || operation == "Update" || operation == "Delete"
      then err (panic "invalid memory address or nil pointer dereference")
      else ok settings
]

unfoldable pub allow_operations : Settings → String → List String → Result Error Settings
unfolding allow_at
allow_operations settings kind [] = ok settings
allow_operations settings kind (operation ∷ operations) = elim (allow_at settings kind operation) [
  | ok settings' ↦ allow_operations settings' kind operations
  | err e ↦ err e
]

unfoldable pub allow_all : Settings → List ProxySettings → Result Error Settings
unfolding allow_operations
allow_all settings [] = ok settings
allow_all settings (setting ∷ rest) =
    elim (allow_operations settings setting.kind setting.operations) [
      | ok settings' ↦ allow_all settings' rest
      | err e ↦ err e
    ]

unfoldable pub new_proxy_tenant :
    Tenant → String → String → List OwnerSpec → Bool → Result Error ProxyTenant
unfolding owner_cluster_resources owner_proxy_settings allow_all default_proxy_settings
new_proxy_tenant tenant name kind owners disable_legacy =
    let resources = owner_cluster_resources name kind [] owners in
    if disable_legacy
    then ok (record { tenant = tenant; proxy_setting = none; cluster_resources = resources })
    else do
      settings ← allow_all default_proxy_settings (owner_proxy_settings name kind [] owners)
      ok (record { tenant = tenant; proxy_setting = some settings; cluster_resources = resources })

abbrev global_tenant : Tenant
global_tenant = record {
  name = "global";
  labels = [];
  namespaces = [];
  owners = [];
  node_selector = [];
  ingress_classes = none;
  storage_classes = none;
  priority_classes = none;
  runtime_classes = none;
}

-- The inner loop of `NewClusterProxy`, which appends once for each subject that matches.
unfoldable pub add_for_subjects :
    String
    → String
    → List ClusterResource
    → List GlobalSubject
    → List ClusterResource
    → List ClusterResource
add_for_subjects name kind granted [] found = found
add_for_subjects name kind granted (s ∷ subjects) found =
    add_for_subjects name kind granted subjects
      (if s.name == name && s.kind == kind then found ++ granted else found)

unfoldable pub add_for_rules :
    String → String → List GlobalSubjectSpec → List ClusterResource → List ClusterResource
unfolding add_for_subjects
add_for_rules name kind [] found = found
add_for_rules name kind (rule ∷ rules) found =
    add_for_rules name kind rules
      (add_for_subjects name kind rule.cluster_resources rule.subjects found)

unfoldable pub new_cluster_proxy : String → String → List GlobalSubjectSpec → ProxyTenant
unfolding add_for_rules
new_cluster_proxy name kind rules = record {
  tenant = global_tenant;
  proxy_setting = none;
  cluster_resources = add_for_rules name kind rules [];
}

-- `IsAllowed` on a nil receiver, which it reads for the methods that it knows.
unfoldable pub nil_allowed : String → Result Error Bool
nil_allowed method =
    if method == "GET" || method == "PUT" || method == "PATCH" || method == "DELETE"
    then err (panic "invalid memory address or nil pointer dereference")
    else ok false

-- A missing map or entry is a nil receiver.
unfoldable pub request_allowed : ProxyTenant → String → String → Result Error Bool
unfolding is_allowed nil_allowed
request_allowed p method kind = elim p.proxy_setting [
  | none ↦ nil_allowed method
  | some settings ↦ elim (lookup kind settings) [
    | none ↦ nil_allowed method
    | some o ↦ ok (is_allowed o method)
  ]
]

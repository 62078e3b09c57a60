-- ===== src/Examples/Access.antt =====
-- Namespaces, the gate, self reviews and the tenants of an owner.
use mathlib.Core.List.{Memᴰ}
use capsule_proxy.Prelude.{
  String, Bool, ◌≡◌, refl, true, false, Option, none, some, List, [], ◌∷◌, Result, ok, ◌↔◌, ◌⊎◌,
  any, contains, ◌||◌, map,
}
use capsule_proxy.Errors.{Error}
use capsule_proxy.Labels.{Requirement, Selector}
use capsule_proxy.Tenant.{Tenant, ProxyTenant, OwnerSpec, GlobalSubjectSpec}
use capsule_proxy.Request.Http.{HttpRequest}
use capsule_proxy.Cluster.Resource.{get_operation}
use capsule_proxy.Cluster.Grants.{Granted}
use capsule_proxy.RoleBindings.Lookup.{Found, hit, not_found, Namespace}
use capsule_proxy.Modules.Namespaces.{
  namespaces_gvk, tenant_name_of, reflected_namespaces, cluster_scoped_names, list_namespaces,
  get_namespace,
}
use capsule_proxy.Modules.NamespaceAccess.{list_namespaces-values, get_namespace-opens}
use capsule_proxy.Modules.NamespaceAccess.{get_tenant-opens}
use capsule_proxy.Modules.Namespaces.{tenants_gvk, get_tenant}
use capsule_proxy.Modules.Named.{AsksFor}
use capsule_proxy.Modules.Namespaced.{ListsFirst, handle_all, handle_all-values}
use capsule_proxy.Labels.{Labels}
use capsule_proxy.Gate.{GateApi, Response, modify_response}
use capsule_proxy.Gate.Masking.{Masked, IsReplaced, modify_response-Masked}
use capsule_proxy.Authorization.{
  ResourceAttributes, AccessStatus, access_review, mutate_authorization,
}
use capsule_proxy.Authorization.Reviews.{Served, access_review-allowed}
use capsule_proxy.Filter.{
  Manager, ProxySetting, GlobalProxySettings, get_tenants_for_owner, user_kind,
}
use capsule_proxy.Filter.Collected.{Given, get_tenants_for_owner-Given}
use capsule_proxy.Examples.Sample.{
  sample_api, sample_api-KeepsFields, sample_rule, sample_tenant, sample_proxy_tenants,
  sample_request,
}

abbrev as_is : List String → List String
as_is xs = xs

abbrev no_names : Selector → Result Error (List String)
no_names selector = ok []

abbrev name_selector : Selector
name_selector =
    record {
      key = "kubernetes.io/metadata.name";
      operator = "in";
      values = "oil-prod" ∷ "gas" ∷ [];
    }
    ∷ []

abbrev sample_reflector : Option (HttpRequest → Result Error (List String))
sample_reflector = some (λ r. ok ("gas" ∷ []))

list_namespaces-values_example :
    (reflected granted : List String) × (q : Requirement) × (reflected_namespaces sample_api as_is
        sample_proxy_tenants sample_reflector sample_request
      ≡ ok reflected)
    × (cluster_scoped_names sample_api as_is sample_proxy_tenants no_names namespaces_gvk
        ≡ ok granted)
    × (name_selector ≡ q ∷ [])
    × AsksFor "kubernetes.io/metadata.name" q
    × ((v : String)
        → contains q.values v ≡ (
            any (λ p. contains p.tenant.namespaces v) sample_proxy_tenants
            || contains reflected v
            || contains granted v))
unfolding list_namespaces cluster_scoped_names
    capsule_proxy.Cluster.Scope.get_cluster_scope_requirements namespaces_gvk
    capsule_proxy.Modules.Namespaces.names_answer capsule_proxy.Modules.Namespaces.tenant_namespaces
list_namespaces-values_example =
    list_namespaces-values sample_api as_is sample_proxy_tenants sample_request sample_reflector
      sample_api-KeepsFields (λ xs x. refl) no_names name_selector refl

abbrev oil_prod : Namespace
oil_prod = record { labels = []; owner_references = ("Tenant", "oil") ∷ [] }

abbrev read_oil_prod : String → Found Namespace
read_oil_prod name = hit oil_prod

get_namespace-opens_example :
    (read_oil_prod "oil-prod" ≡ not_found)
    ⊎ ((ns : Namespace) × (owner : String) × (owners : List (String × String)) × (reflected : List
          String)
        × (read_oil_prod "oil-prod" ≡ hit ns)
        × (ns.owner_references ≡ ("Tenant", owner) ∷ owners)
        × (reflected_namespaces sample_api as_is sample_proxy_tenants sample_reflector
              sample_request
            ≡ ok reflected)
        × ((contains (map tenant_name_of sample_proxy_tenants) owner ≡ true)
            ⊎ (contains reflected "oil-prod" ≡ true)
            ⊎ ((q : Requirement) × Granted sample_api
                  (some namespaces_gvk)
                  get_operation
                  sample_proxy_tenants
                  q
                × (sample_api.matches q ns.labels ≡ true))))
unfolding get_namespace capsule_proxy.Modules.Namespaces.first_owner
    capsule_proxy.Modules.Namespaces.owned_namespace contains
get_namespace-opens_example =
    get_namespace-opens sample_api as_is sample_proxy_tenants sample_request sample_reflector
      read_oil_prod "oil-prod" [] refl

abbrev sample_gate : GateApi
sample_gate = record {
  parse_bool = λ s. none;
  status_text = λ code. "Not Found";
  itoa = λ n. "404";
  size = λ s. 2;
  not_found_body = λ resource. some "{}";
  namespaces = λ name. not_found;
}

abbrev forbidden_response : Response
forbidden_response = record {
  request = some (record sample_request { path = "/api/v1/namespaces/gone/pods/web" });
  status_code = 403;
  status = "403 Forbidden";
  header = [];
  body = "no";
  content_length = 2;
  transfer_encoding = [];
  uncompressed = false;
}

modify_response-Masked_example :
    ((m : Masked sample_gate forbidden_response) × IsReplaced sample_gate forbidden_response
        (modify_response sample_gate forbidden_response)
        m.body)
    ⊎ ((¬ Masked sample_gate forbidden_response)
        × (modify_response sample_gate forbidden_response ≡ forbidden_response))
modify_response-Masked_example = modify_response-Masked sample_gate forbidden_response

abbrev list_storage : ResourceAttributes
list_storage = record {
  namespace = "";
  verb = "list";
  group = "storage.k8s.io";
  version = "v1";
  resource = "storageclasses";
}

abbrev denied : AccessStatus
denied = record { allowed = false; denied = true; reason = "" }

access_review-allowed_example :
    (after : AccessStatus) × (mutate_authorization sample_api true sample_proxy_tenants []
        (access_review (some list_storage) denied)
      ≡ ok (access_review (some list_storage) after))
    × ((after.allowed ≡ true)
        ↔ ((denied.allowed ≡ true) ⊎ Served sample_api true sample_proxy_tenants [] list_storage))
access_review-allowed_example =
    access_review-allowed sample_api true sample_proxy_tenants [] list_storage denied

abbrev sample_setting : ProxySetting
sample_setting = record {
  namespace = "oil-prod";
  subjects =
      record {
        kind = "User";
        name = "alice";
        cluster_resources = sample_rule ∷ [];
        proxy_operations = [];
      }
      ∷ [];
}

abbrev sample_manager : Manager
sample_manager = record {
  tenants_of_owner = λ key. ok [];
  settings_of_subject = λ key. ok (sample_setting ∷ []);
  tenants_of_namespace = λ namespace. ok (sample_tenant ∷ []);
  globals_of_subject = λ key. ok [];
  proxy_cluster_scoped = true;
}

get_tenants_for_owner-Given_example :
    Given sample_manager (user_kind sample_manager "alice") "alice" sample_rule
    ⊎ ((group : String) × Memᴰ group [] × Given sample_manager "Group" group sample_rule)
unfolding get_tenants_for_owner capsule_proxy.Filter.get_proxy_tenants_for_owner_kind
    capsule_proxy.Filter.collect capsule_proxy.Filter.setting_tenant
    capsule_proxy.Tenant.new_proxy_tenant capsule_proxy.Go.Text.has_prefix
    capsule_proxy.Filter.global_tenants
get_tenants_for_owner-Given_example =
    get_tenants_for_owner-Given sample_manager "alice" []
      (record { tenant = sample_tenant; proxy_setting = none; cluster_resources = sample_rule ∷ [] }
        ∷ [])
      (record {
        tenant = sample_tenant;
        proxy_setting = none;
        cluster_resources = sample_rule ∷ [];
      })
      sample_rule refl (Memᴰ.head refl) (Memᴰ.head refl)

abbrev read_tenant : String → Found Labels
read_tenant name = hit []

get_tenant-opens_example :
    (contains (map tenant_name_of sample_proxy_tenants) "oil" ≡ true)
    ⊎ ((labels : Labels) × (q : Requirement) × (read_tenant "oil" ≡ hit labels)
        × Granted sample_api (some tenants_gvk) get_operation sample_proxy_tenants q
        × (sample_api.matches q labels ≡ true))
unfolding get_tenant contains
get_tenant-opens_example =
    get_tenant-opens sample_api as_is sample_proxy_tenants read_tenant "oil" [] refl

abbrev allow_list : String → Result Error Bool
allow_list namespace = ok true

abbrev managed : String
managed = "projectcapsule.dev/managed-by"

abbrev managed_selector : Selector
managed_selector = record { key = managed; operator = "in"; values = "oil" ∷ "gas" ∷ [] } ∷ []

handle_all-values_example :
    (more : List String) × (q : Requirement) × (◌≡◌ {A = Result Error (List String)}
      (ok ("gas" ∷ []))
      (ok more))
    × (managed_selector ≡ q ∷ [])
    × AsksFor managed q
    × ((v : String)
        → (contains q.values v ≡ true) ↔ (
            ((pt : ProxyTenant) × Memᴰ pt sample_proxy_tenants
              × (pt.tenant.name ≡ v)
              × ListsFirst sample_api managed allow_list pt)
            ⊎ Memᴰ v more))
unfolding handle_all capsule_proxy.Modules.Namespaced.source_tenants
handle_all-values_example =
    handle_all-values sample_api managed allow_list sample_api-KeepsFields sample_proxy_tenants
      (ok ("gas" ∷ [])) managed_selector refl

-- ===== src/Filter/Indexes.antt =====
-- internal/indexer: the index functions, and a manager's reader that lists by them.
use capsule_proxy.Prelude.{
  String, Bool, ◌||◌, List, [], ◌∷◌, ◌++◌, ◌==◌, map, keep, contains, if◌then◌else◌, ok,
}
use capsule_proxy.Go.Text.{◌<>◌}
use capsule_proxy.Tenant.{Tenant, OwnerSpec, GlobalSubject, GlobalSubjectSpec}
use capsule_proxy.Filter.{ProxySetting, GlobalProxySettings, Manager}

-- The inner loop of `GlobalProxySetting.Func`, which skips a subject without a kind or a name.
unfoldable pub global_subject_keys : List GlobalSubject → List String
global_subject_keys [] = []
global_subject_keys (s ∷ subjects) =
    let rest = global_subject_keys subjects in
    if s.kind == "" || s.name == "" then rest else (s.kind <> ":" <> s.name) ∷ rest

unfoldable pub global_proxy_setting_index : List GlobalSubjectSpec → List String
unfolding global_subject_keys
global_proxy_setting_index [] = []
global_proxy_setting_index (rule ∷ rules) =
    global_subject_keys rule.subjects ++ global_proxy_setting_index rules

unfoldable pub proxy_setting_index : ProxySetting → List String
proxy_setting_index s = map (λ (o : OwnerSpec). o.kind <> ":" <> o.name) s.subjects

-- A tenant with the owners of its status.
pub record StoredTenant : Type 0 where
  pub tenant : Tenant
  pub status_owners : List OwnerSpec

unfoldable pub tenant_owner_index : StoredTenant → List String
tenant_owner_index t = map (λ (o : OwnerSpec). o.kind <> ":" <> o.name) t.status_owners

-- The objects of a cluster.
pub record Store : Type 0 where
  pub tenants : List StoredTenant
  pub settings : List ProxySetting
  pub globals : List GlobalProxySettings

abbrev tenants_where : (StoredTenant → Bool) → Store → List Tenant
tenants_where p s = map (λ (t : StoredTenant). t.tenant) (keep p s.tenants)

-- The reader over a store: a list by an index has the objects that the index function gives the key.
unfoldable pub indexed : Store → Bool → Manager
unfolding global_proxy_setting_index proxy_setting_index tenant_owner_index
indexed store gate = record {
  tenants_of_owner = λ key. ok (tenants_where (λ t. contains (tenant_owner_index t) key) store);
  settings_of_subject = λ key. ok (keep (λ s. contains (proxy_setting_index s) key) store.settings);
  tenants_of_namespace =
      λ namespace. ok (tenants_where (λ t. contains t.tenant.namespaces namespace) store);
  globals_of_subject =
      λ key. ok (keep (λ g. contains (global_proxy_setting_index g.rules) key) store.globals);
  proxy_cluster_scoped = gate;
}

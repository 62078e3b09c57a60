-- ===== src/Web/Discovery.antt =====
-- internal/webserver/utils.go, internal/utils/gvk.go and the list of modules of `registerModules`
-- in internal/webserver/webserver.go: the routes that the proxy serves. What the API server answers
-- about its resources is an argument.
use capsule_proxy.Prelude.{
  String, Bool, true, false, not, ◌&&◌, List, [], ◌∷◌, ◌++◌, ◌==◌, map, any, keep, contains,
  if◌then◌else◌, Result, ok, err, ◌>>=◌,
}
use capsule_proxy.Errors.{Error, GroupKind, panic, fault, error_message}
use capsule_proxy.Go.Text.{◌<>◌, split, join}
use capsule_proxy.Authorization.{namespaced_resource_key}

pub record ProxyGroupVersionKind : Type 0 where
  pub group : String
  pub version : String
  pub kind : String
  pub url_name : String

unfoldable pub path_parts : ProxyGroupVersionKind → List String
path_parts g =
    (if g.group == "" then "api" ∷ [] else "apis" ∷ g.group ∷ []) ++ g.version ∷ g.url_name ∷ []

-- `Path`
unfoldable pub path : ProxyGroupVersionKind → String
unfolding path_parts join
path g = "/" <> join "/" (path_parts g)

-- `ResourcePath`
unfoldable pub resource_path : ProxyGroupVersionKind → String
resource_path g = path g <> "/{name}"

-- `metav1.APIResource` and `metav1.APIResourceList`
pub record ApiResource : Type 0 where
  pub name : String
  pub kind : String
  pub namespaced : Bool
  pub verbs : List String

pub record ApiResourceList : Type 0 where
  pub group_version : String
  pub resources : List ApiResource

-- The group and the version of the parts; `Split` returns at least one.
unfoldable pub group_and_version : String → String × String
unfolding split
group_and_version group_version = elim (split b'/' group_version) [
  | group ∷ version ∷ rest ↦ (group, version)
  | _ ↦ ("", group_version)
]

abbrev kind_of : String → ApiResource → ProxyGroupVersionKind
kind_of group_version i = record {
  group = (group_and_version group_version).0;
  version = (group_and_version group_version).1;
  kind = i.kind;
  url_name = i.name;
}

-- The loops that both functions share, with the test that does not skip a resource.
unfoldable pub kept_kinds : (ApiResource → Bool) → List ApiResourceList → List ProxyGroupVersionKind
unfolding keep
kept_kinds wanted [] = []
kept_kinds wanted (ar ∷ rest) =
    map (kind_of ar.group_version) (keep wanted ar.resources) ++ kept_kinds wanted rest

-- `listed` is what `ServerPreferredNamespacedResources` answers.
unfoldable pub discover_api :
    Result Error (List ApiResourceList) → Result Error (List ProxyGroupVersionKind)
unfolding kept_kinds
discover_api (err e) =
    err (fault ("cannot retrieve server's preferred namespaced resources: " <> error_message e))
discover_api (ok listed) = ok (
    kept_kinds (λ i. contains i.verbs "get" && contains i.verbs "list" && contains i.verbs "watch")
      listed)

-- `listed` is what `ServerPreferredResources` answers.
unfoldable pub server_preferred_resources :
    Result Error (List ApiResourceList) → Result Error (List ProxyGroupVersionKind)
unfolding kept_kinds
server_preferred_resources (err e) =
    err (fault ("cannot retrieve server's preferred resources: " <> error_message e))
server_preferred_resources (ok listed) =
    ok (kept_kinds (λ i. not i.namespaced && contains i.verbs "get") listed)

-- Whose `Handle` a route runs.
pub data ModuleHandler : Type 0 where
  list_handler get_handler : String → ModuleHandler
  cluster_list_handler cluster_get_handler : ModuleHandler
  catch_all_handler : String → String → String → ModuleHandler

-- What a module says of itself by `Path`, `Methods` and `GroupKind`.
pub record RouteModule : Type 0 where
  pub path : String
  pub methods : List String
  pub group_kind : GroupKind
  pub handler : ModuleHandler

abbrev no_group_kind : GroupKind
no_group_kind = record { group = ""; kind = "" }

abbrev pub route : ModuleHandler → List String → String → String → String → RouteModule
route handler methods group kind path = record {
  path = path;
  methods = methods;
  group_kind = record { group = group; kind = kind };
  handler = handler;
}

unfoldable pub default_modules : List RouteModule
default_modules =
    route (list_handler "namespaces") ("GET" ∷ []) "" "namespaces" "/api/v1/{endpoint:namespaces/?}"
    ∷ route (get_handler "namespaces") ("GET" ∷ []) "" "namespaces" "/api/v1/namespaces/{name}"
    ∷ route (list_handler "tenants") ("GET" ∷ []) "capsule.clastix.io" "tenants"
        "/apis/capsule.clastix.io/v1beta2/{endpoint:tenants/?}"
    ∷ route (get_handler "tenants") ("GET" ∷ []) "capsule.clastix.io" "tenants"
        "/apis/capsule.clastix.io/v1beta2/tenants/{name}"
    ∷ []

abbrev listed_at : String → String → String → RouteModule
listed_at group kind root =
    route (list_handler kind) [] group kind (root <> "/{endpoint:" <> kind <> "/?}")

abbrev named_at : String → String → String → RouteModule
named_at group kind root =
    route (get_handler kind) [] group kind (root <> "/{endpoint:" <> kind <> "}/{name}")

unfoldable pub legacy_modules : List RouteModule
legacy_modules =
    listed_at "" "nodes" "/api/v1"
    ∷ route (get_handler "nodes") [] "" "nodes" "/api/v1/nodes/{name}"
    ∷ listed_at "networking.k8s.io" "ingressclasses" "/apis/networking.k8s.io/{version}"
    ∷ named_at "networking.k8s.io" "ingressclasses" "/apis/networking.k8s.io/{version}"
    ∷ named_at "storage.k8s.io" "storageclasses" "/apis/storage.k8s.io/v1"
    ∷ listed_at "storage.k8s.io" "storageclasses" "/apis/storage.k8s.io/v1"
    ∷ listed_at "scheduling.k8s.io" "priorityclasses" "/apis/scheduling.k8s.io/v1"
    ∷ named_at "scheduling.k8s.io" "priorityclasses" "/apis/scheduling.k8s.io/v1"
    ∷ named_at "node.k8s.io" "runtimeclasses" "/apis/node.k8s.io/v1"
    ∷ listed_at "node.k8s.io" "runtimeclasses" "/apis/node.k8s.io/v1"
    ∷ named_at "" "persistentvolumes" "/api/v1"
    ∷ listed_at "" "persistentvolumes" "/api/v1"
    ∷ route (get_handler "nodes") [] "metrics.k8s.io" "nodes"
        "/apis/metrics.k8s.io/{version}/nodes/{name}"
    ∷ listed_at "metrics.k8s.io" "nodes" "/apis/metrics.k8s.io/{version}"
    ∷ []

unfoldable pub module_group_kind_present : List RouteModule → ProxyGroupVersionKind → Bool
module_group_kind_present modules g =
    any (λ m. m.group_kind.group == g.group && m.group_kind.kind == g.url_name) modules

-- The loop that adds the generic cluster-scoped modules to the list.
unfoldable pub add_cluster_scoped : List RouteModule → List ProxyGroupVersionKind → List RouteModule
unfolding module_group_kind_present
add_cluster_scoped modules [] = modules
add_cluster_scoped modules (api ∷ apis) =
    add_cluster_scoped
      (if module_group_kind_present modules api
        then modules
        else modules
          ++ route cluster_list_handler [] "" "" (path api)
            ∷ route cluster_get_handler [] "" "" (resource_path api)
            ∷ [])
      apis

abbrev catch_all : ProxyGroupVersionKind → RouteModule
catch_all api =
    route (catch_all_handler api.group api.version api.url_name) ("get" ∷ []) "" "" (path api)

-- The loop that adds the catch-all modules, and the keys of the resources that they serve.
unfoldable pub add_namespaced :
    List RouteModule → List String → List ProxyGroupVersionKind → List RouteModule × List String
add_namespaced modules keys [] = (modules, keys)
add_namespaced modules keys (api ∷ apis) =
    add_namespaced (modules ++ catch_all api ∷ [])
      (keys ++ namespaced_resource_key api.group api.url_name ∷ []) apis

abbrev pub or_panic : {A : Type 0} → Result Error A → Result Error A
or_panic (ok a) = ok a
or_panic (err e) = err (panic (error_message e))

-- The modules in front of the catch-all ones.
unfoldable pub base_modules :
    Bool → Result Error (List ApiResourceList) → Result Error (List RouteModule)
unfolding add_cluster_scoped
base_modules false preferred = ok (default_modules ++ legacy_modules)
base_modules true preferred = or_panic (server_preferred_resources preferred) >>= λ apis.
    ok (add_cluster_scoped default_modules apis)

-- `registerModules` up to the loop that serves the routes: the modules and `namespacedResources`.
unfoldable pub register_modules :
    Bool
    → Result Error (List ApiResourceList)
    → Result Error (List ApiResourceList)
    → Result Error (List RouteModule × List String)
unfolding base_modules add_namespaced
register_modules proxy_cluster_scoped preferred namespaced =
    base_modules proxy_cluster_scoped preferred >>= λ modules.
    or_panic (discover_api namespaced) >>= λ apis. ok (add_namespaced modules [] apis)

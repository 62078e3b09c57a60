-- ===== src/Examples/Routing.antt =====
-- Discovered resources, their paths and routes.
use capsule_proxy.Prelude.{◌≡◌, refl, true, false, some, List, [], ◌∷◌, ◌++◌, ok, any, contains}
use capsule_proxy.Go.Text.{◌<>◌}
use capsule_proxy.Cluster.Scope.{GroupVersionKind}
use capsule_proxy.Modules.Gvk.{get_gvk_from_url}
use capsule_proxy.Web.Discovery.{
  ProxyGroupVersionKind, ApiResourceList, RouteModule, path, default_modules, legacy_modules, route,
  catch_all_handler, register_modules,
}
use capsule_proxy.Web.Paths.{get_gvk_from_url-path}
use capsule_proxy.Web.Registered.{serves, register_modules-serves}

abbrev classes_kind : ProxyGroupVersionKind
classes_kind = record {
  group = "storage.k8s.io";
  version = "v1";
  kind = "StorageClass";
  url_name = "storageclasses";
}

abbrev classes_plural : GroupVersionKind
classes_plural = record { group = "storage.k8s.io"; version = "v1"; kind = "storageclasses" }

get_gvk_from_url-path_example :
    (get_gvk_from_url (path classes_kind) ≡ some classes_plural)
    × (get_gvk_from_url (path classes_kind <> "/" <> "fast") ≡ some classes_plural)
unfolding capsule_proxy.Go.Text.has_char
get_gvk_from_url-path_example =
    get_gvk_from_url-path classes_kind "fast" refl refl refl refl refl refl

abbrev discovered : List ApiResourceList
discovered =
    record {
      group_version = "v1";
      resources =
          record {
            name = "pods";
            kind = "Pod";
            namespaced = true;
            verbs = "get" ∷ "list" ∷ "watch" ∷ [];
          }
          ∷ record { name = "bindings"; kind = "Binding"; namespaced = true; verbs = "get" ∷ [] }
          ∷ [];
    }
    ∷ []

abbrev legacy_routes : List RouteModule
legacy_routes =
    (default_modules ++ legacy_modules)
    ++ route (catch_all_handler "" "v1" "pods") ("get" ∷ []) "" "" "/api/v1/pods" ∷ []

register_modules-serves_example :
    contains ("/pods" ∷ []) "/pods" ≡ any (serves "/pods") legacy_routes
unfolding register_modules capsule_proxy.Web.Discovery.discover_api contains path
    capsule_proxy.Web.Discovery.group_and_version
    capsule_proxy.Authorization.namespaced_resource_key
register_modules-serves_example =
    register_modules-serves false (ok []) (ok discovered) legacy_routes ("/pods" ∷ []) "/pods" refl

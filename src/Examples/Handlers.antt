-- ===== src/Examples/Handlers.antt =====
-- The route of a module, and the lookup of role bindings.
use mathlib.Core.List.{Memᴰ}
use capsule_proxy.Prelude.{
  ◌↔◌, true, String, ◌≡◌, refl, Bool, true, false, Option, none, some, List, [], ◌∷◌, Result, ok,
  err, any, contains, ◌&&◌, ◌==◌,
}
use capsule_proxy.Errors.{Error, new_not_found_error}
use capsule_proxy.Go.Text.{◌<>◌}
use capsule_proxy.Request.Http.{HttpRequest}
use capsule_proxy.Web.Middleware.{Net}
use capsule_proxy.Web.Routes.{KubeFilter, Handle, module_chain, serve_module, module_reply}
use capsule_proxy.Web.Sound.{Sound}
use capsule_proxy.Web.Safety.{module_chain-IsSound, serve_module_refused}
use capsule_proxy.RoleBindings.Index.{RoleBinding, user_key, subject_key, user_key_ambiguous}
use capsule_proxy.RoleBindings.Lookup.{
  Reader, KeepsMembers, PolicyRule, Found, hit, not_found, get_role_bindings_for_subject,
  get_user_namespaces_for_resource,
}
use capsule_proxy.RoleBindings.Roles.{Opens}
use capsule_proxy.RoleBindings.Namespaces.{get_user_namespaces-contains}
use capsule_proxy.Examples.Sample.{
  sample_world, sample_config, sample_request, sample_proxy_tenants,
}

abbrev pub sample_net : Net
sample_net = record {
  split_host_port = λ addr. none;
  parse_ip = λ host. true;
  network_contains = λ cidr host. true;
}

abbrev pub sample_filter : KubeFilter
sample_filter = record {
  world = sample_world;
  net = sample_net;
  config = sample_config;
  token = "t";
  contains_token = λ vs token. false;
  selector_string = λ selector. "team in (blue)";
  allowed_paths = [];
  ignored_usernames = [];
  ignored_user_groups = [];
  capsule_users = [];
  capsule_user_groups = "qa" ∷ [];
  trusted_proxy_cidrs = [];
  tenants_for_owner = λ username groups. ok sample_proxy_tenants;
}

abbrev nothing_here : Error
nothing_here =
    new_not_found_error "fast" (record { group = "storage.k8s.io"; kind = "storageclasses" })

abbrev pub refusing : Handle
refusing pts r = err nothing_here

module_chain-IsSound_example :
    Sound sample_filter refusing sample_request (module_chain sample_filter refusing sample_request)
module_chain-IsSound_example = module_chain-IsSound sample_filter refusing sample_request

abbrev pub resolved_request : HttpRequest
resolved_request = record sample_request {
  context = some (record { username = "bob"; groups = "qa" ∷ [] });
}

serve_module_refused_example :
    (resolved_request.header ≡ sample_request.header)
    × (resolved_request.query ≡ sample_request.query)
unfolding serve_module capsule_proxy.Web.Middleware.is_from_trusted_source
    capsule_proxy.Web.Routes.conclude module_chain capsule_proxy.Web.Middleware.check_paths contains
    capsule_proxy.Web.Middleware.check_jwt capsule_proxy.Go.Text.drop_all
    capsule_proxy.Go.Header.get capsule_proxy.Go.Header.values capsule_proxy.Prelude.lookup
    capsule_proxy.Go.Header.canonical capsule_proxy.Web.Middleware.check_user_in_ignored_identity
    capsule_proxy.Web.Middleware.check_user_in_capsule_group
    capsule_proxy.Request.Http.resolve_user_and_groups
    capsule_proxy.Request.Http.get_user_and_groups capsule_proxy.Go.Text.trim_prefix
    capsule_proxy.Request.Impersonation.get_impersonating_groups
    capsule_proxy.Request.Impersonation.get_impersonating_user capsule_proxy.Go.Text.join
    module_reply new_not_found_error capsule_proxy.Web.Routes.module_handler any
serve_module_refused_example =
    serve_module_refused sample_filter refusing sample_request resolved_request
      (module_reply nothing_here) refl refl

abbrev sample_binding : RoleBinding
sample_binding = record {
  namespace = "gas";
  name = "viewers";
  labels = [];
  subjects = record { kind = "User"; namespace = ""; name = "alice" } ∷ [];
  role_ref = record { api_group = "rbac.authorization.k8s.io"; kind = "Role"; name = "view" };
}

abbrev sample_reader : Reader
sample_reader = record {
  bindings = λ index key. ok (sample_binding ∷ []);
  role = λ namespace name. hit (
      record {
        verbs = "list" ∷ [];
        api_groups = "" ∷ [];
        resources = "*" ∷ [];
        resource_names = [];
      }
      ∷ []);
  cluster_role = λ name. not_found;
  namespace = λ name. not_found;
  sorted = λ xs. xs;
  split_username = λ username. none;
}

sorted-KeepsMembers : KeepsMembers sample_reader.sorted
sorted-KeepsMembers = record { members = λ xs x. refl }

get_user_namespaces-contains_example :
    (bs : List RoleBinding) × (get_role_bindings_for_subject sample_reader "alice" []
        "reflectionSubjectIndex"
      ≡ ok bs)
    × ((x : String)
        → (contains ("gas" ∷ []) x ≡ true)
          ↔ ((b : RoleBinding) × Memᴰ b bs × Opens sample_reader "list" "" "pods" x b))
unfolding get_user_namespaces_for_resource get_role_bindings_for_subject
    capsule_proxy.Go.Text.has_prefix capsule_proxy.RoleBindings.Lookup.bound_namespaces
    capsule_proxy.Prelude.insert
get_user_namespaces-contains_example =
    get_user_namespaces-contains sample_reader "list" "" "pods" sorted-KeepsMembers "alice" []
      ("gas" ∷ []) refl

abbrev split_sample : String → Option (String × String)
split_sample username = some ("a", "b" <> "-" <> "c")

user_key_ambiguous_example :
    user_key split_sample "system:serviceaccount:a:b-c"
    ≡ ok (
        subject_key (record { kind = "ServiceAccount"; namespace = "a" <> "-" <> "b"; name = "c" }))
unfolding capsule_proxy.Go.Text.has_prefix
user_key_ambiguous_example =
    user_key_ambiguous split_sample "system:serviceaccount:a:b-c" "a" "b" "c" refl refl refl

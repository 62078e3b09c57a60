-- ===== src/Examples/Whole.antt =====
-- A GET of a storage class through the whole proxy.
use capsule_proxy.Prelude.{String, ◌≡◌, refl, true, some, List, [], ◌∷◌}
use capsule_proxy.Tenant.{GlobalSubjectSpec}
use capsule_proxy.Request.Http.{HttpRequest}
use capsule_proxy.Filter.{GlobalProxySettings, get_tenants_for_owner}
use capsule_proxy.Filter.Indexes.{Store, indexed}
use capsule_proxy.Web.Forward.{passed, handle_request}
use capsule_proxy.Web.Routes.{KubeFilter, module_chain}
use capsule_proxy.Web.Opened.{Opened, get_object, module_chain-Opened}
use capsule_proxy.Examples.Handlers.{sample_filter, resolved_request}
use capsule_proxy.Examples.Cluster.{sample_discovery, sample_reader}
use capsule_proxy.Examples.Sample.{sample_api, sample_rule, sample_request}

abbrev qa_rule : GlobalSubjectSpec
qa_rule = record {
  subjects = record { kind = "Group"; name = "qa" } ∷ [];
  cluster_resources = sample_rule ∷ [];
}

abbrev qa_store : Store
qa_store = record { tenants = []; settings = []; globals = record { rules = qa_rule ∷ [] } ∷ [] }

abbrev whole_filter : KubeFilter
whole_filter = record sample_filter {
  tenants_for_owner = get_tenants_for_owner (indexed qa_store true);
}

abbrev narrowed : HttpRequest
narrowed = handle_request "t" "team in (blue)" resolved_request

fast_passed :
    module_chain whole_filter
      (get_object whole_filter
        (indexed qa_store true)
        sample_api
        sample_discovery
        sample_reader
        "fast")
      sample_request
    ≡ passed narrowed
unfolding module_chain capsule_proxy.Web.Middleware.check_paths capsule_proxy.Prelude.contains
    capsule_proxy.Web.Middleware.check_jwt capsule_proxy.Go.Text.drop_all
    capsule_proxy.Go.Header.get capsule_proxy.Go.Header.values capsule_proxy.Prelude.lookup
    capsule_proxy.Go.Header.canonical capsule_proxy.Web.Middleware.check_user_in_ignored_identity
    capsule_proxy.Web.Middleware.check_user_in_capsule_group
    capsule_proxy.Request.Http.resolve_user_and_groups
    capsule_proxy.Request.Http.get_user_and_groups capsule_proxy.Go.Text.trim_prefix
    capsule_proxy.Request.Impersonation.get_impersonating_groups capsule_proxy.Go.Text.join
    capsule_proxy.Request.Impersonation.get_impersonating_user capsule_proxy.Prelude.any
    capsule_proxy.Web.Routes.module_handler get_tenants_for_owner
    capsule_proxy.Filter.get_proxy_tenants_for_owner_kind capsule_proxy.Filter.collect
    capsule_proxy.Filter.global_tenants indexed capsule_proxy.Prelude.keep
    capsule_proxy.Go.Text.has_prefix capsule_proxy.Tenant.new_cluster_proxy
    capsule_proxy.Modules.ClusterScoped.handle_get
    capsule_proxy.Cluster.Scope.get_cluster_scope_requirements
    capsule_proxy.Modules.Gvk.get_gvk_from_url capsule_proxy.Go.Text.has_char
    capsule_proxy.Modules.ClusterScoped.handle_selector
    capsule_proxy.Modules.Gvk.replace_plural_with_kind capsule_proxy.Modules.Selector.first_matching
fast_passed = refl

module_chain-Opened_example :
    Opened whole_filter
      (indexed qa_store true)
      sample_api
      sample_discovery
      sample_reader
      "fast"
      sample_request
      narrowed
module_chain-Opened_example =
    module_chain-Opened whole_filter (indexed qa_store true) sample_api sample_discovery
      sample_reader "fast" (λ username groups. refl) sample_request narrowed fast_passed

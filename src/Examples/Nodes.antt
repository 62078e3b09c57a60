-- ===== src/Examples/Nodes.antt =====
-- A node that a tenant selects.
use capsule_proxy.Prelude.{String, ◌≡◌, refl, ok, none, some, List, [], ◌∷◌, ◌&&◌, any, contains}
use capsule_proxy.Errors.{GroupKind}
use capsule_proxy.Labels.{Selector}
use capsule_proxy.Tenant.{ProxyTenant}
use capsule_proxy.Modules.Nodes.{Node, get_node_selectors, get_node}
use capsule_proxy.Examples.Sample.{sample_api, sample_tenant, sample_request}

abbrev node_tenants : List ProxyTenant
node_tenants =
    record {
      tenant = record sample_tenant { node_selector = ("pool", "oil") ∷ [] };
      proxy_setting = none;
      cluster_resources = [];
    }
    ∷ []

abbrev node_kind : GroupKind
node_kind = record { group = ""; kind = "nodes" }

abbrev two_nodes : List Node
two_nodes =
    record { name = "n1"; labels = ("pool", "oil") ∷ [] }
    ∷ record { name = "n2"; labels = ("pool", "gas") ∷ [] }
    ∷ []

abbrev first_node : Selector
first_node = record { key = "kubernetes.io/hostname"; operator = "in"; values = "n1" ∷ [] } ∷ []

-- The first of the two nodes is the one that the tenant may use.
n1_is_asked_for :
    get_node sample_api node_kind node_tenants sample_request "n1" (ok two_nodes)
    ≡ ok (some first_node)
unfolding get_node capsule_proxy.Modules.Nodes.get_node_selector
    capsule_proxy.Modules.Nodes.all_node_names get_node_selectors
    capsule_proxy.Modules.Nodes.matches capsule_proxy.Prelude.lookup
n1_is_asked_for = refl

-- ===== src/Modules/Metrics.antt =====
-- internal/modules/metric/{list,get}.go: the metrics of nodes, which have the handlers of nodes with
-- another kind.
use capsule_proxy.Prelude.{String, List, Result}
use capsule_proxy.Errors.{Error, GroupKind}
use capsule_proxy.Labels.{LabelApi}
use capsule_proxy.Tenant.{ProxyTenant}
use capsule_proxy.Request.Http.{HttpRequest}
use capsule_proxy.Modules.ClusterScoped.{Answer}
use capsule_proxy.Modules.Nodes.{Node, list_nodes, get_node}

abbrev metrics_kind : GroupKind
metrics_kind = record { group = "metrics.k8s.io"; kind = "nodes" }

module _ (api : LabelApi) (pts : List ProxyTenant) where
  unfoldable pub list_node_metrics : Result Error (List Node) → Answer
  list_node_metrics = list_nodes api metrics_kind pts

  unfoldable pub get_node_metrics : HttpRequest → String → Result Error (List Node) → Answer
  get_node_metrics = get_node api metrics_kind pts

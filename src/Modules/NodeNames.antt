-- ===== src/Modules/NodeNames.antt =====
-- Which nodes a request for a node is narrowed to.
use mathlib.Core.List.{Memᴰ}
use capsule_proxy.Prelude.{true, All, ◌↔◌, String, ◌≡◌, List, contains, lookup, err}
use capsule_proxy.Errors.{Error}
use capsule_proxy.Labels.{Labels, LabelApi, Requirement, in_operator}
use capsule_proxy.Tenant.{ProxyTenant}
use capsule_proxy.Modules.Nodes.{Node, text_of, hostname_key}

-- The node's labels have every entry of the selector; a label that is missing has the empty value.
pub HasAll : Node → Labels → Type 0
HasAll node selector = All (λ entry. entry.1 ≡ text_of (lookup entry.0 node.labels)) selector

-- A listed node that some tenant of the subject may use, by its name.
pub record Usable (pts : List ProxyTenant) (nodes : List Node) (v : String) : Type 0 where
  pub node : Node
  pub tenant : ProxyTenant
  pub listed : Memᴰ node nodes
  pub named : node.name ≡ v
  pub of_subject : Memᴰ tenant pts
  pub has_all : HasAll node tenant.tenant.node_selector

-- A requirement on the host name whose values are exactly the names of the usable nodes.
pub record AsksForUsable (pts : List ProxyTenant) (nodes : List Node) (q : Requirement)
    : Type 0 where
  pub key : q.key ≡ "kubernetes.io/hostname"
  pub operator : q.operator ≡ "in"
  pub values : (v : String) → (contains q.values v ≡ true) ↔ Usable pts nodes v

-- No node is usable, or the labels library makes no requirement of the names of the usable nodes.
pub data Unnamed (api : LabelApi) (pts : List ProxyTenant) (nodes : List Node) : Type 0 where
  none_usable : ((v : String) → ¬ Usable pts nodes v) → Unnamed api pts nodes
  invalid :
      (names : List String) (e : Error)
      → ((v : String) → (contains names v ≡ true) ↔ Usable pts nodes v)
      → api.new_requirement hostname_key in_operator names ≡ err e
      → Unnamed api pts nodes

-- ===== src/Modules/Nodes.antt =====
-- internal/modules/utils/node.go and internal/modules/node/{get,list}.go: the nodes that the tenants
-- may be scheduled on.
use capsule_proxy.Prelude.{
  ℕ, suc, String, Bool, not, Option, none, some, List, [], ◌∷◌, ◌++◌, ◌==◌, map, eqb, length,
  lookup, if◌then◌else◌, Result, ok, err, is_empty,
}
use capsule_proxy.Errors.{Error, GroupKind, fault, new_bad_request, new_not_found_error}
use capsule_proxy.Labels.{Labels, LabelApi, Requirement, in_operator, exists_operator}
use capsule_proxy.Tenant.{ProxyTenant}
use capsule_proxy.Request.Http.{HttpRequest}
use capsule_proxy.Modules.ClusterScoped.{Answer, ignored_key, only}

pub record Node : Type 0 where
  pub name : String
  pub labels : Labels

abbrev pub text_of : Option String → String
text_of none = ""
text_of (some v) = v

-- How many entries of a selector the labels have; a missing label is the empty text.
unfoldable pub matches : Labels → Labels → ℕ
matches labels [] = 0
matches labels (entry ∷ selector) =
    let rest = matches labels selector in
    if entry.1 == text_of (lookup entry.0 labels) then suc rest else rest

abbrev pub is_selected : Node → Labels → Bool
is_selected node selector = eqb (matches node.labels selector) (length selector)

-- The inner loop, which adds the node once for every selector that it matches.
unfoldable pub node_names : Node → List Labels → List String
node_names node [] = []
node_names node (selector ∷ selectors) =
    let rest = node_names node selectors in
    if is_selected node selector then node.name ∷ rest else rest

unfoldable pub all_node_names : List Node → List Labels → List String
unfolding node_names
all_node_names [] selectors = []
all_node_names (node ∷ nodes) selectors =
    node_names node selectors ++ all_node_names nodes selectors

abbrev pub hostname_key : String
hostname_key = "kubernetes.io/hostname"

unfoldable pub get_node_selectors : List ProxyTenant → List Labels
get_node_selectors = map (λ (pt : ProxyTenant). pt.tenant.node_selector)

module _ (api : LabelApi) where
  unfoldable pub get_node_selector : List Node → List Labels → Result Error Requirement
  get_node_selector nodes selectors =
      if not (is_empty (all_node_names nodes selectors))
      then api.new_requirement hostname_key in_operator (all_node_names nodes selectors)
      else err (fault "cannot create LabelSelector for the requested Node requirement")

  -- `nodes` is `List` of the reader.
  unfoldable pub list_nodes : GroupKind → List ProxyTenant → Result Error (List Node) → Answer
  list_nodes gk pts (err e) = err (new_bad_request e gk)
  list_nodes gk pts (ok nodes) = elim (get_node_selector nodes (get_node_selectors pts)) [
    | ok r ↦ ok (some (r ∷ []))
    | err e ↦ only (api.new_requirement ignored_key exists_operator [])
  ]

  -- `nodes` is `List` of the reader by the label of the host's name.
  unfoldable pub get_node :
      GroupKind → List ProxyTenant → HttpRequest → String → Result Error (List Node) → Answer
  get_node gk pts r name (err e) = err (new_bad_request e gk)
  get_node gk pts r name (ok nodes) = elim (get_node_selector nodes (get_node_selectors pts)) [
    | ok q ↦ ok (some (q ∷ []))
    | err e ↦ if r.method == "GET" then err (new_not_found_error name gk) else ok none
  ]

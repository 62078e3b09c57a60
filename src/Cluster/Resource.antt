-- ===== src/Cluster/Resource.antt =====
-- api/v1beta1/clusterresoure.go. An operation is a text, as in the source.
use capsule_proxy.Prelude.{
  String, Bool, ◌&&◌, ◌||◌, Option, List, [], ◌∷◌, ◌++◌, ◌==◌, is_empty, any, if◌then◌else◌,
}
use capsule_proxy.Labels.{LabelSelector}

abbrev pub list_operation : String
list_operation = "List"

abbrev pub get_operation : String
get_operation = "Get"

pub record ClusterResource : Type 0 where
  pub api_groups : List String
  pub resources : List String
  pub operations : List String
  pub selector : Option LabelSelector

unfoldable pub allows_operation : ClusterResource → String → Bool
unfolding any
allows_operation r operation =
    if is_empty r.operations
    then operation == list_operation || operation == get_operation
    else any
        (λ configured.
          configured == operation || (operation == get_operation && configured == list_operation))
        r.operations

-- The loop of `EffectiveOperations`, over its flags `list` and `get`.
unfoldable pub effective_flags : Bool → Bool → List String → Bool × Bool
effective_flags list get [] = (list, get)
effective_flags list get (operation ∷ operations) =
    effective_flags (operation == list_operation || list)
      (operation == list_operation || operation == get_operation || get) operations

unfoldable pub effective_operations : ClusterResource → List String
unfolding effective_flags
effective_operations r =
    let (list, get) =
      effective_flags (is_empty r.operations) (is_empty r.operations) r.operations in
    (if list then list_operation ∷ [] else []) ++ (if get then get_operation ∷ [] else [])

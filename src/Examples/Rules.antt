-- ===== src/Examples/Rules.antt =====
-- A valid rule.
use mathlib.Core.List.{Memᴰ}
use capsule_proxy.Prelude.{String, ◌≡◌, refl, List, [], ◌∷◌, some, lookup}
use capsule_proxy.Cluster.Resource.{effective_operations}
use capsule_proxy.Validation.{
  DiscoveredClusterResource, Resources, Index, validate_cluster_resource_block,
}
use capsule_proxy.Validation.Blocks.{Supported, valid_block-Supported}
use capsule_proxy.Examples.Sample.{sample_rule}

abbrev storage_classes : DiscoveredClusterResource
storage_classes = record {
  api_group = "storage.k8s.io";
  resource = "storageclasses";
  kinds = "StorageClass" ∷ [];
  verbs = "list" ∷ "get" ∷ [];
}

abbrev sample_index : Index
sample_index = ("storage.k8s.io", ("storageclasses", storage_classes) ∷ []) ∷ []

abbrev in_order : List String → List String
in_order xs = xs

valid_block-Supported_example :
    (resources : Resources) × (d : DiscoveredClusterResource) × (lookup "storage.k8s.io"
        sample_index
      ≡ some resources)
    × (lookup "storageclasses" resources ≡ some d)
    × Supported (effective_operations sample_rule) d
unfolding validate_cluster_resource_block capsule_proxy.Validation.shape_errors
    capsule_proxy.Validation.has_wildcard capsule_proxy.Prelude.contains
    capsule_proxy.Validation.groups_errors capsule_proxy.Validation.group_errors lookup
    capsule_proxy.Validation.named_errors capsule_proxy.Validation.resource_errors
    capsule_proxy.Validation.validate_discovered capsule_proxy.Validation.verb_errors
    effective_operations capsule_proxy.Go.Text.to_lower
valid_block-Supported_example =
    valid_block-Supported in_order sample_rule sample_index refl refl refl "storage.k8s.io"
      "storageclasses" (Memᴰ.head refl) (Memᴰ.head refl)

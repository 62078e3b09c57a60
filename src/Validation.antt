-- ===== src/Validation.antt =====
-- internal/runtime/validation/cluster_resource.go: the check of a rule against what the API server
-- serves. An error is what its message tells apart; `errors.Join` is the list of the errors.
pub mod Blocks
use capsule_proxy.Prelude.{
  ℕ, suc, String, Bool, Result, ok, err, true, false, not, ◌&&◌, ◌||◌, Option, none, some, List, [],
  ◌∷◌, ◌++◌, ◌==◌, any, contains, map, if◌then◌else◌, lookup, insert, length, ltb, is_empty,
}
use capsule_proxy.Errors.{Error, fault}
use capsule_proxy.Go.Text.{has_char, to_lower}
use capsule_proxy.Cluster.Resource.{
  ClusterResource, list_operation, get_operation, effective_operations,
}

pub record DiscoveredClusterResource : Type 0 where
  pub api_group : String
  pub resource : String
  pub kinds : List String
  pub verbs : List String

-- The resources of each API group, by their names.
abbrev pub Resources : Type 0
Resources = List (String × DiscoveredClusterResource)

abbrev pub Index : Type 0
Index = List (String × Resources)

unfoldable pub append_unique : List String → List String → List String
append_unique values [] = values
append_unique values (c ∷ candidates) =
    append_unique (if contains values c then values else values ++ c ∷ []) candidates

-- `metav1.APIResource`
pub record ApiResource : Type 0 where
  pub name : String
  pub kind : String
  pub namespaced : Bool
  pub verbs : List String

abbrev current : Option DiscoveredClusterResource → DiscoveredClusterResource
current (some d) = d
current none = record { api_group = ""; resource = ""; kinds = []; verbs = [] }

-- One resource of a group; namespaced ones and subresources are left out.
unfoldable pub discover_resource : String → ApiResource → Resources → Resources
unfolding append_unique
discover_resource group r found =
    if r.namespaced || has_char b'/' r.name
    then found
    else insert r.name
        (record {
          api_group = group;
          resource = r.name;
          kinds = append_unique (current (lookup r.name found)).kinds (r.kind ∷ []);
          verbs = append_unique (current (lookup r.name found)).verbs r.verbs;
        })
        found

unfoldable pub discover_group : String → List ApiResource → Resources → Resources
unfolding discover_resource
discover_group group [] found = found
discover_group group (r ∷ rs) found = discover_group group rs (discover_resource group r found)

abbrev known : Option Resources → Resources
known none = []
known (some found) = found

-- The loop over the lists that `ServerPreferredResources` returns, each by its group version;
-- `parse_group` is the group of `schema.ParseGroupVersion`.
unfoldable pub discover_lists :
    (String → Option String) → List (String × List ApiResource) → Index → Result Error Index
unfolding discover_group
discover_lists parse_group [] index = ok index
discover_lists parse_group ((group_version, rs) ∷ lists) index = elim (parse_group group_version) [
  | none ↦ err (fault "cannot parse discovered groupVersion")
  | some group ↦
      discover_lists parse_group lists
        (insert group (discover_group group rs (known (lookup group index))) index)
]

unfoldable pub has_wildcard : List String → Bool
has_wildcard values = contains values "*"

pub data BlockError : Type 0 where
  no_api_groups no_resources groups_with_wildcard resources_with_wildcard : BlockError
  unsupported_operation : ℕ → String → BlockError
  unknown_group : String → BlockError
  unknown_resource : String → String → BlockError
  no_kind : String → String → BlockError
  unsupported_verb : String → String → String → BlockError

-- The operations, counted from `i`.
unfoldable pub validate_operations : ℕ → List String → List BlockError
validate_operations i [] = []
validate_operations i (o ∷ os) =
    let rest = validate_operations (suc i) os in
    if o == list_operation || o == get_operation then rest else unsupported_operation i o ∷ rest

module _ (group : String) where
  unfoldable pub verb_errors : String → DiscoveredClusterResource → List String → List BlockError
  verb_errors name d [] = []
  verb_errors name d (o ∷ os) =
      let rest = verb_errors name d os in
      if contains d.verbs (to_lower o) then rest else unsupported_verb group name o ∷ rest

  unfoldable pub validate_discovered :
      String → DiscoveredClusterResource → List String → List BlockError
  validate_discovered name d operations =
      (if is_empty d.kinds then no_kind group name ∷ [] else []) ++ verb_errors name d operations

  unfoldable pub resource_errors :
      String → Option DiscoveredClusterResource → List String → List BlockError
  resource_errors name none operations = unknown_resource group name ∷ []
  resource_errors name (some d) operations = validate_discovered name d operations

  unfoldable pub named_errors : Resources → List String → List String → List BlockError
  named_errors resources operations [] = []
  named_errors resources operations (name ∷ names) =
      resource_errors name (lookup name resources) operations
      ++ named_errors resources operations names

  unfoldable pub all_errors : List String → Resources → List BlockError
  all_errors operations [] = []
  all_errors operations ((name, d) ∷ resources) =
      validate_discovered name d operations ++ all_errors operations resources

unfoldable pub group_errors : ClusterResource → String → Option Resources → List BlockError
group_errors cr group none = unknown_group group ∷ []
group_errors cr group (some resources) =
    if has_wildcard cr.resources
    then all_errors group (effective_operations cr) resources
    else named_errors group resources (effective_operations cr) cr.resources

unfoldable pub groups_errors : Index → ClusterResource → List String → List BlockError
groups_errors index cr [] = []
groups_errors index cr (group ∷ groups) =
    group_errors cr group (lookup group index) ++ groups_errors index cr groups

abbrev when : Bool → BlockError → List BlockError
when true e = e ∷ []
when false e = []

unfoldable pub shape_errors : ClusterResource → List BlockError
unfolding validate_operations
shape_errors cr =
    when (is_empty cr.api_groups) no_api_groups
    ++ when (is_empty cr.resources) no_resources
    ++ validate_operations 0 cr.operations
    ++ when (has_wildcard cr.api_groups && ltb 1 (length cr.api_groups)) groups_with_wildcard
    ++ when (has_wildcard cr.resources && ltb 1 (length cr.resources)) resources_with_wildcard

-- `sort` is `slices.Sort`.
unfoldable pub validate_cluster_resource_block :
    (List String → List String) → ClusterResource → Index → List BlockError
validate_cluster_resource_block sort cr index =
    let shape = shape_errors cr in
    if not (is_empty shape)
    then shape
    else groups_errors index cr (
        if has_wildcard cr.api_groups
        then sort (map (λ (entry : String × Resources). entry.0) index)
        else cr.api_groups)

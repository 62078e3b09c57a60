-- ===== src/Validation/Blocks.antt =====
-- What a valid rule names.
use mathlib.Core.List.{Memᴰ}
use mathlib.Core.List.Memᴰ
use capsule_proxy.Prelude.{
  String, ◌≡◌, refl, ap, ◌∙◌, true, false, Option, none, some, List, [], ◌∷◌, ◌++◌, contains,
  lookup, is_empty, inl, inr, Bool-cases,
}
use capsule_proxy.Go.Text.{to_lower}
use capsule_proxy.Cluster.Resource.{ClusterResource, effective_operations}
use capsule_proxy.Validation.{
  DiscoveredClusterResource, Resources, Index, has_wildcard, verb_errors, validate_discovered,
  resource_errors, named_errors, group_errors, groups_errors, shape_errors,
  validate_cluster_resource_block,
}

append-none : {A : Type 0} (xs ys : List A) → xs ++ ys ≡ [] → (xs ≡ []) × (ys ≡ [])
append-none [] ys h = (refl, h)
append-none (x ∷ xs) ys h = absurd (cc h)

-- The resource has a kind and supports every operation.
pub record Supported (operations : List String) (d : DiscoveredClusterResource) : Type 0 where
  pub kinds : is_empty d.kinds ≡ false
  pub verbs : (o : String) → Memᴰ o operations → contains d.verbs (to_lower o) ≡ true

module _ (group : String) where
  verb_errors-contains :
      (name : String) (d : DiscoveredClusterResource) (os : List String)
      → verb_errors group name d os ≡ []
      → (o : String) → Memᴰ o os
      → contains d.verbs (to_lower o) ≡ true
  unfolding verb_errors
  verb_errors-contains name d [] h o m = elim m [ ]
  verb_errors-contains name d (x ∷ os) h o m =
      let later : verb_errors group name d os ≡ []
          → (o : String) → Memᴰ o os
          → contains d.verbs (to_lower o) ≡ true =
        verb_errors-contains name d os in
      elim (Bool-cases (contains d.verbs (to_lower x))) [
        | inr f ↦ absurd (cc (rw f at h))
        | inl t ↦ elim (Memᴰ.cases_cons m) [
          | inl same ↦ ap (λ y. contains d.verbs (to_lower y)) same ∙ t
          | inr there ↦ later (rw t at h) o there
        ]
      ]

  resource_errors-Supported :
      (name : String) (found : Option DiscoveredClusterResource) (os : List String)
      → resource_errors group name found os ≡ []
      → (d : DiscoveredClusterResource) × (found ≡ some d) × Supported os d
  unfolding resource_errors validate_discovered
  resource_errors-Supported name none os h = absurd (cc h)
  resource_errors-Supported name (some d) os h =
      let (first, rest) = append-none _ (verb_errors group name d os) h in
      (
        d,
        refl,
        record {
          kinds = elim (Bool-cases (is_empty d.kinds)) [
            | inl t ↦ absurd (cc (rw t at first))
            | inr f ↦ f
          ];
          verbs = verb_errors-contains name d os rest;
        },
      )

  named-Supported :
      (resources : Resources) (os names : List String)
      → named_errors group resources os names ≡ []
      → (name : String) → Memᴰ name names
      → (d : DiscoveredClusterResource) × (lookup name resources ≡ some d) × Supported os d
  unfolding named_errors
  named-Supported resources os [] h name m = elim m [ ]
  named-Supported resources os (x ∷ names) h name m =
      let (first, rest) = append-none (resource_errors group x (lookup x resources) os) _ h in
      elim (Memᴰ.cases_cons m) [
        | inr there ↦ named-Supported resources os names rest name there
        | inl same ↦
            let (d, found, good) = resource_errors-Supported x (lookup x resources) os first in
            (d, ap (λ n. lookup n resources) same ∙ found, good)
      ]

group_errors-named :
    (cr : ClusterResource) (group : String) (found : Option Resources)
    → has_wildcard cr.resources ≡ false
    → group_errors cr group found ≡ []
    → (resources : Resources) × (found ≡ some resources)
      × (named_errors group resources (effective_operations cr) cr.resources ≡ [])
unfolding group_errors
group_errors-named cr group none plain h = absurd (cc h)
group_errors-named cr group (some resources) plain h = (resources, refl, rw plain at h)

groups-known :
    (index : Index) (cr : ClusterResource) (groups : List String)
    → groups_errors index cr groups ≡ []
    → (group : String) → Memᴰ group groups
    → group_errors cr group (lookup group index) ≡ []
unfolding groups_errors
groups-known index cr [] h group m = elim m [ ]
groups-known index cr (x ∷ groups) h group m =
    let (first, rest) = append-none (group_errors cr x (lookup x index)) _ h in
    elim (Memᴰ.cases_cons m) [
      | inl same ↦ ap (λ g. group_errors cr g (lookup g index)) same ∙ first
      | inr there ↦ groups-known index cr groups rest group there
    ]

-- A rule without wildcards that is valid names discovered things only: each of its resources is
-- discovered in each of its groups, has a kind there, and supports the verbs of all the effective
-- operations of the rule.
pub valid_block-Supported :
    (sort : List String → List String) (cr : ClusterResource) (index : Index)
    → validate_cluster_resource_block sort cr index ≡ []
    → has_wildcard cr.api_groups ≡ false
    → has_wildcard cr.resources ≡ false
    → (group name : String) → Memᴰ group cr.api_groups
    → Memᴰ name cr.resources
    → (resources : Resources) × (d : DiscoveredClusterResource) × (lookup group index
        ≡ some resources)
      × (lookup name resources ≡ some d)
      × Supported (effective_operations cr) d
unfolding validate_cluster_resource_block
valid_block-Supported sort cr index h groups_plain plain group name g m =
    elim (Bool-cases (is_empty (shape_errors cr))) [
      | inr f ↦ let empty : shape_errors cr ≡ [] = rw f at h in absurd (cc (rw empty at f))
      | inl t ↦
          let known = groups-known index cr cr.api_groups (rw (t, groups_plain) at h) group g in
          let (resources, found, named) =
            group_errors-named cr group (lookup group index) plain known in
          let (d, there, good) =
            named-Supported group resources (effective_operations cr) cr.resources named name m in
          (resources, d, found, there, good)
    ]

-- ===== src/RoleBindings/Lookup.antt =====
-- The namespaces in which a subject is bound to a role that allows a verb on a resource.
use capsule_proxy.Prelude.{
  String, ◌≡◌, refl, ◌⊎◌, inl, inr, Bool, not, ◌&&◌, ◌||◌, Option, List, [], ◌∷◌, ◌==◌,
  if◌then◌else◌, Result, ok, err, is_empty, any, contains, insert, map,
}
use capsule_proxy.Errors.{Error, fault}
use capsule_proxy.Go.Text.{◌<>◌}
use capsule_proxy.Labels.{Labels}
use capsule_proxy.RoleBindings.Index.{RoleBinding, user_key, group_key}

-- `rbacv1.PolicyRule`
pub record PolicyRule : Type 0 where
  pub verbs : List String
  pub api_groups : List String
  pub resources : List String
  pub resource_names : List String

unfoldable pub matches_rbac_value : List String → String → Bool
unfolding any
matches_rbac_value values requested = any (λ v. v == "*" || v == requested) values

unfoldable pub policy_rule_allows : PolicyRule → String → String → String → Bool
unfolding matches_rbac_value
policy_rule_allows rule verb api_group resource =
    is_empty rule.resource_names
    && matches_rbac_value rule.verbs verb
    && matches_rbac_value rule.api_groups api_group
    && matches_rbac_value rule.resources resource

-- What a `Get` of the reader answers.
pub data Found (A : Type 0) : Type 0 where
  hit : A → Found A
  not_found : Found A
  failed : Error → Found A

pub Found-cases :
    {A : Type 0} (f : Found A)
    → ((a : A) × (f ≡ hit a)) ⊎ (f ≡ not_found) ⊎ ((e : Error) × (f ≡ failed e))
Found-cases (hit a) = inl (a, refl)
Found-cases not_found = inr (inl refl)
Found-cases (failed e) = inr (inr (e, refl))

-- A namespace, as far as its tenant is read from it.
pub record Namespace : Type 0 where
  pub labels : Labels
  pub owner_references : List (String × String)

pub record Reader : Type 0 where
  -- `List` of role bindings by an index and a key.
  pub bindings : String → String → Result Error (List RoleBinding)
  -- `Get` of a Role by namespace and name, and of a ClusterRole by name: the rules.
  pub role : String → String → Found (List PolicyRule)
  pub cluster_role : String → Found (List PolicyRule)
  pub namespace : String → Found Namespace
  -- `sets.List`: the members in order.
  pub sorted : List String → List String
  -- `serviceaccount.SplitUsername`
  pub split_username : String → Option (String × String)

-- What `sets.List` documents: it has the members of the set.
pub record KeepsMembers (sorted : List String → List String) : Type 0 where
  pub members : (xs : List String) (x : String) → contains (sorted xs) x ≡ contains xs x

abbrev pub Bindings : Type 0
Bindings = List (String × RoleBinding)

module _ (r : Reader) where
  -- `bindings[namespace/name] = binding` for each binding of a list.
  unfoldable pub add_bindings : List RoleBinding → Bindings → Bindings
  add_bindings [] found = found
  add_bindings (b ∷ bs) found = add_bindings bs (insert (b.namespace <> "/" <> b.name) b found)

  unfoldable pub bindings_of_keys : String → List String → Bindings → Result Error Bindings
  unfolding add_bindings
  bindings_of_keys index [] found = ok found
  bindings_of_keys index (key ∷ keys) found = elim (r.bindings index key) [
    | err e ↦ err (fault "Unable to find rolebindings in subject index")
    | ok items ↦ bindings_of_keys index keys (add_bindings items found)
  ]

  abbrev values_of : Bindings → List RoleBinding
  values_of = map (λ (kv : String × RoleBinding). kv.1)

  unfoldable pub get_role_bindings_for_subject :
      String → List String → String → Result Error (List RoleBinding)
  unfolding bindings_of_keys user_key group_key
  get_role_bindings_for_subject username groups index = elim (user_key r.split_username username) [
    | err e ↦ err e
    | ok key ↦ elim (bindings_of_keys index (key ∷ map group_key groups) []) [
      | err e ↦ err e
      | ok found ↦ ok (values_of found)
    ]
  ]

  -- The role that a binding refers to; `none` where the loop goes on to the next binding.
  unfoldable pub rules_of : RoleBinding → Result Error (List PolicyRule)
  rules_of b =
      let answer : Found (List PolicyRule) =
        (if not (b.role_ref.api_group == "rbac.authorization.k8s.io")
          then not_found
          else if b.role_ref.kind == "Role"
          then r.role b.namespace b.role_ref.name
          else if b.role_ref.kind == "ClusterRole"
          then r.cluster_role b.role_ref.name
          else not_found) in
      elim answer [
        | hit rules ↦ ok rules
        | not_found ↦ ok []
        | failed e ↦ err (fault "Unable to find role in cache")
      ]

  module _ (verb api_group resource : String) where
    abbrev pub allowed_by : List PolicyRule → Bool
    allowed_by = any (λ rule. policy_rule_allows rule verb api_group resource)

    -- The loop over the bindings, over the set of namespaces.
    unfoldable pub bound_namespaces : List RoleBinding → List String → Result Error (List String)
    unfolding rules_of policy_rule_allows
    bound_namespaces [] namespaces = ok namespaces
    bound_namespaces (b ∷ bs) namespaces = elim (rules_of b) [
      | err e ↦ err e
      | ok rules ↦
          bound_namespaces bs (if allowed_by rules then b.namespace ∷ namespaces else namespaces)
    ]

    unfoldable pub get_user_namespaces_for_resource :
        String → List String → Result Error (List String)
    get_user_namespaces_for_resource username groups =
        elim (get_role_bindings_for_subject username groups "reflectionSubjectIndex") [
          | err e ↦ err e
          | ok bindings ↦ elim (bound_namespaces bindings []) [
            | err e ↦ err e
            | ok namespaces ↦ ok (r.sorted namespaces)
          ]
        ]

  unfoldable pub get_user_namespaces : String → List String → Result Error (List String)
  get_user_namespaces username groups =
      elim (get_role_bindings_for_subject username groups "subjectIndex") [
        | err e ↦ err e
        | ok bindings ↦ ok (r.sorted (map (λ (b : RoleBinding). b.namespace) bindings))
      ]

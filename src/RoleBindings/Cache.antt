-- ===== src/RoleBindings/Cache.antt =====
-- The results of `GetUserTenantNamesForResource` that the reflector keeps, under a generation that
-- every event of the informers increments.
use Prim.Native.Nat.{◌%◌, ◌^◌}
use capsule_proxy.Prelude.{
  ℕ, ◌+◌, String, ◌≡◌, not, ◌&&◌, Option, none, some, List, [], ◌∷◌, ◌==◌, eqb, if◌then◌else◌,
  Result, ok, err, lookup, insert, arith, lookup-insert,
}
use capsule_proxy.Errors.{Error, fault}
use capsule_proxy.Go.Text.{join}
use capsule_proxy.Labels.{Labels}
use capsule_proxy.RoleBindings.Lookup.{
  Reader, Namespace, hit, not_found, failed, get_user_namespaces_for_resource,
}

pub record CachedReflectionResult : Type 0 where
  pub generation : ℕ
  pub tenants : List String

-- `resultsGeneration` is a `uint64`.
pub record Reflector : Type 0 where
  pub generation : ℕ
  pub results : List (String × CachedReflectionResult)

unfoldable pub cached_result : Reflector → String → Option (List String)
cached_result r key = elim (lookup key r.results) [
  | none ↦ none
  | some result ↦ if eqb result.generation r.generation then some result.tenants else none
]

unfoldable pub store_result : Reflector → String → List String → ℕ → Reflector
store_result r key result generation =
    if eqb generation r.generation
    then record r {
      results = insert key (record { generation = generation; tenants = result }) r.results;
    }
    else r

unfoldable pub invalidate_results : Reflector → Reflector
invalidate_results r = record { generation = (r.generation + 1) % 2 ^ 64; results = [] }

-- `sort` is `sort.Strings`, here and below.
unfoldable pub reflection_result_key :
    (List String → List String) → String → List String → String → String → String → String
unfolding join
reflection_result_key sort username groups verb api_group resource =
    join "\u{1}" (username ∷ join "\0" (sort groups) ∷ verb ∷ api_group ∷ resource ∷ [])

abbrev label : String → Labels → String
label key labels = elim (lookup key labels) [ none ↦ "" | some v ↦ v ]

unfoldable pub tenant_of_owners : List (String × String) → String
tenant_of_owners [] = ""
tenant_of_owners ((kind, name) ∷ owners) =
    if kind == "Tenant" then name else tenant_of_owners owners

-- The labels of `capsulemeta`, by which a namespace names its tenant.
pub record TenantLabels : Type 0 where
  pub new_tenant_label : String
  pub tenant_label : String

unfoldable pub reflected_tenant_name : TenantLabels → Namespace → String
unfolding tenant_of_owners
reflected_tenant_name l namespace =
    if not (label l.new_tenant_label namespace.labels == "")
    then label l.new_tenant_label namespace.labels
    else if not (label l.tenant_label namespace.labels == "")
    then label l.tenant_label namespace.labels
    else tenant_of_owners namespace.owner_references

module _ (sort : List String → List String) (r : Reader) (l : TenantLabels) where
  -- The loop over the namespaces, over the set of tenant names.
  unfoldable pub tenant_names : List String → List String → Result Error (List String)
  unfolding reflected_tenant_name
  tenant_names [] names = ok names
  tenant_names (n ∷ ns) names = elim (r.namespace n) [
    | failed e ↦ err (fault "Unable to find namespace in cache")
    | not_found ↦ tenant_names ns names
    | hit namespace ↦ tenant_names ns (
        if not (reflected_tenant_name l namespace == "")
        then reflected_tenant_name l namespace ∷ names
        else names)
  ]

  module _ (username : String) (groups : List String) (verb api_group resource : String) where
    -- The answer that is computed where none is kept.
    unfoldable pub resolve_tenant_names : Result Error (List String)
    resolve_tenant_names =
        elim (get_user_namespaces_for_resource r verb api_group resource username groups) [
          | err e ↦ err e
          | ok namespaces ↦ elim (tenant_names namespaces []) [
            | err e ↦ err e
            | ok names ↦ ok (r.sorted names)
          ]
        ]

    -- The whole call, where no event comes in between.
    unfoldable pub get_user_tenant_names_for_resource :
        Reflector → Result Error (List String) × Reflector
    get_user_tenant_names_for_resource reflector =
        let key = reflection_result_key sort username groups verb api_group resource in
        elim (cached_result reflector key) [
          | some result ↦ (ok result, reflector)
          | none ↦ elim resolve_tenant_names [
            | err e ↦ (err e, reflector)
            | ok result ↦ (ok result, store_result reflector key result reflector.generation)
          ]
        ]

-- What is stored under the current generation is found again, and changes no other key; what an
-- older generation computed changes nothing; and nothing is left after an invalidation.
pub cached-store :
    (r : Reflector) (key other : String) (result : List String) (generation : ℕ)
    → cached_result (store_result r key result generation) other
      ≡ (if eqb generation r.generation && key == other then some result else cached_result r other)
unfolding cached_result store_result
cached-store r key other result generation = grind (
  arith,
  lookup-insert key other (record { generation = generation; tenants = result }) r.results,
)

-- ===== src/Examples/Classes.antt =====
-- Storage classes that a tenant names.
use mathlib.Core.List.{Memᴰ}
use capsule_proxy.Prelude.{
  ℕ, zero, suc, String, ◌≡◌, refl, sym, ◌∙◌, ap, Bool, true, false, not, ◌&&◌, Option, none, some,
  List, [], ◌∷◌, ok, any, contains,
}
use capsule_proxy.Errors.{GroupKind}
use capsule_proxy.Labels.{LabelApi, KeepsFields, Requirement, in_operator}
use capsule_proxy.Tenant.{AllowedClasses, ProxyTenant, Operations}
use capsule_proxy.Go.Order.{less}
use capsule_proxy.Go.Sorting.{KeepsMembers}
use capsule_proxy.Modules.Classes.{
  ClassGrants, metadata_name, search_exact, collect_classes, class_selector,
}
use capsule_proxy.Modules.ClassHandlers.{list_classes}
use capsule_proxy.Modules.ExactClasses.{IsOrdered, search_exact-total}
use capsule_proxy.Modules.ClassAccess.{tenant_permits}
use capsule_proxy.Modules.ListedClasses.{list_classes-permitted, list_classes_complete}
use capsule_proxy.Examples.Sample.{sample_api, sample_tenant}

-- The exact names b, d and c are left as they are, and the search does not find the last.
unordered_test : search_exact ("b" ∷ "d" ∷ "c" ∷ []) "c" ≡ some false
unfolding search_exact capsule_proxy.Go.Searching.search_strings
unordered_test = refl

search_exact-total_example :
    (found : Bool) × (search_exact ("b" ∷ "d" ∷ "c" ∷ []) "c" ≡ some found)
    × ((found && not (contains ("b" ∷ "d" ∷ "c" ∷ []) "c")) ≡ false)
search_exact-total_example = search_exact-total ("b" ∷ "d" ∷ "c" ∷ []) "c"

abbrev class_api : LabelApi
class_api = record sample_api { as_selector = λ s. ok ([], true) }

class_api-KeepsFields : KeepsFields class_api
class_api-KeepsFields = record { fields = λ key operator vs r h. (cc h, cc h, λ v. cc h) }

abbrev no_patterns : String → Option (String → Bool)
no_patterns pattern = none

abbrev unmerged : List String → List String
unmerged xs = xs

unmerged-KeepsMembers : KeepsMembers unmerged
unmerged-KeepsMembers = record { members = λ xs v. refl }

abbrev fast_only : AllowedClasses
fast_only = record {
  exact = "fast" ∷ [];
  default = "";
  regex = "";
  label_selector = record { match_labels = []; match_expressions = [] };
}

abbrev may_list : Operations
may_list = record { list = true; update = false; delete = false }

abbrev class_tenants : List ProxyTenant
class_tenants =
    record {
      tenant = record sample_tenant { storage_classes = some fast_only };
      proxy_setting = some (("StorageClasses", may_list) ∷ []);
      cluster_resources = [];
    }
    ∷ []

abbrev class_kind : GroupKind
class_kind = record { group = "storage.k8s.io"; kind = "storageclasses" }

abbrev class_grants : ClassGrants
class_grants = record { allowed = true; exact = "fast" ∷ []; regex = []; requirements = [] }

abbrev two_classes : List String
two_classes = "slow" ∷ "fast" ∷ []

abbrev fast_requirement : Requirement
fast_requirement = record {
  key = "kubernetes.io/metadata.name";
  operator = "in";
  values = "fast" ∷ [];
}

classes_collected :
    collect_classes class_api no_patterns "GET" "StorageClasses"
      (λ t. t.storage_classes)
      unmerged
      class_tenants
    ≡ ok class_grants
unfolding collect_classes capsule_proxy.Modules.Classes.add_tenants
    capsule_proxy.Modules.Classes.add_tenant capsule_proxy.Tenant.request_allowed
    capsule_proxy.Prelude.lookup capsule_proxy.Modules.Classes.add_classes
    capsule_proxy.Modules.Classes.add_regex capsule_proxy.Go.Sorting.slice_stable
classes_collected = refl

fast_listed :
    list_classes class_api class_kind
      (class_selector class_api "none")
      (ok class_grants)
      (ok two_classes)
    ≡ ok (some (fast_requirement ∷ []))
unfolding list_classes class_selector capsule_proxy.Modules.Classes.class_names
    capsule_proxy.Modules.Classes.is_class_named any search_exact
    capsule_proxy.Go.Searching.search_strings capsule_proxy.Modules.ClassHandlers.listed_classes
fast_listed = refl

list_classes-permitted_example :
    (contains two_classes "fast" ≡ true)
    × (any
          (tenant_permits no_patterns "GET" "StorageClasses" (λ t. t.storage_classes) "fast")
          class_tenants
        ≡ true)
unfolding contains
list_classes-permitted_example =
    list_classes-permitted class_api class_api-KeepsFields no_patterns unmerged
      unmerged-KeepsMembers class_kind "none" "GET" "StorageClasses" (λ t. t.storage_classes)
      class_tenants class_grants classes_collected refl two_classes (fast_requirement ∷ [])
      (ap
          (λ c.
            list_classes class_api class_kind (class_selector class_api "none") c (ok two_classes))
          classes_collected
        ∙ fast_listed)
      fast_requirement (Memᴰ.head refl) "fast" refl

fast-IsOrdered : IsOrdered ("fast" ∷ [])
fast-IsOrdered zero zero v w below p q =
    let at_v : "fast" ≡ v = cc p in
    let at_w : "fast" ≡ w = cc q in
    ap (λ s. less s v) (sym at_w) ∙ ap (λ s. less "fast" s) (sym at_v)
fast-IsOrdered zero (suc j) v w below p q = absurd (cc q)
fast-IsOrdered (suc i) j v w below p q = absurd (cc p)

list_classes_complete_example :
    (q : Requirement) × (list_classes class_api class_kind
        (class_selector class_api "none")
        (collect_classes class_api no_patterns "GET" "StorageClasses"
          (λ t. t.storage_classes)
          unmerged
          class_tenants)
        (ok two_classes)
      ≡ ok (some (q ∷ [])))
    × (q.key ≡ metadata_name)
    × (q.operator ≡ in_operator)
    × (contains q.values "fast" ≡ true)
unfolding contains any capsule_proxy.Tenant.request_allowed capsule_proxy.Prelude.lookup
list_classes_complete_example =
    list_classes_complete class_api class_api-KeepsFields no_patterns unmerged unmerged-KeepsMembers
      class_kind "none" "GET" "StorageClasses" (λ t. t.storage_classes) class_tenants class_grants
      classes_collected refl fast-IsOrdered two_classes (λ vs inside full. (_, refl)) "fast" refl
      refl

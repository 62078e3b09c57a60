-- ===== src/Examples/Stores.antt =====
-- A cluster with a GlobalProxySettings, and a reflector after an event.
use mathlib.Core.List.{Memᴰ}
use capsule_proxy.Prelude.{ℕ, suc, String, ◌≡◌, refl, true, false, some, List, [], ◌∷◌, ok, arith}
use capsule_proxy.Tenant.{GlobalSubjectSpec, ProxyTenant, new_cluster_proxy}
use capsule_proxy.Filter.{GlobalProxySettings}
use capsule_proxy.Filter.Rules.{OfRule}
use capsule_proxy.Filter.Indexes.{Store, indexed}
use capsule_proxy.Filter.Complete.{group, get_tenants_for_owner_complete}
use capsule_proxy.Filter.{get_tenants_for_owner}
use capsule_proxy.RoleBindings.Cache.{cached_result}
use capsule_proxy.RoleBindings.Runs.{State, Reachable, start, change, initial}
use capsule_proxy.RoleBindings.Settling.{Quiet, quiet-known}
use capsule_proxy.Examples.Sample.{sample_rule}

abbrev devs_rule : GlobalSubjectSpec
devs_rule = record {
  subjects = record { kind = "Group"; name = "devs" } ∷ [];
  cluster_resources = sample_rule ∷ [];
}

abbrev devs_settings : GlobalProxySettings
devs_settings = record { rules = devs_rule ∷ [] }

abbrev devs_store : Store
devs_store = record { tenants = []; settings = []; globals = devs_settings ∷ [] }

abbrev collected : List ProxyTenant
collected = new_cluster_proxy "devs" "Group" (devs_rule ∷ []) ∷ []

devs_collected :
    get_tenants_for_owner (indexed devs_store true) "alice" ("devs" ∷ []) ≡ ok collected
unfolding get_tenants_for_owner capsule_proxy.Filter.get_proxy_tenants_for_owner_kind indexed
    capsule_proxy.Filter.collect capsule_proxy.Prelude.keep capsule_proxy.Filter.global_tenants
    capsule_proxy.Prelude.contains capsule_proxy.Go.Text.has_prefix
devs_collected = refl

devs-OfRule : OfRule "devs" "Group" (devs_rule ∷ []) sample_rule
devs-OfRule = record {
  rule = devs_rule;
  subject = record { kind = "Group"; name = "devs" };
  listed = Memᴰ.head refl;
  named = Memᴰ.head refl;
  is_subject = refl;
  given = Memᴰ.head refl;
}

get_tenants_for_owner_complete_example :
    (pt : ProxyTenant) × Memᴰ pt collected × Memᴰ sample_rule pt.cluster_resources
get_tenants_for_owner_complete_example =
    get_tenants_for_owner_complete devs_store "alice" ("devs" ∷ []) collected devs_settings
      sample_rule devs_collected (group (Memᴰ.head refl)) refl (Memᴰ.head refl) devs-OfRule

abbrev versions : ℕ → String → List String
versions v key = key ∷ []

abbrev changed : State
changed = record initial { version = 1; pending = 1 }

abbrev one_change : Reachable versions 0 changed
one_change = change start

quiet-known_example :
    (m : ℕ) × (t : State) × (g : Reachable versions m t) × Quiet versions one_change m t g
    × (t.version ≡ 1)
    × (t.pending ≡ 0)
    × (cached_result t.reflector "k" ≡ some (versions 1 "k"))
quiet-known_example = quiet-known versions "k" one_change (omega arith)

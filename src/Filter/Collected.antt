-- ===== src/Filter/Collected.antt =====
-- The rules that `getTenantsForOwner` collects.
use mathlib.Core.List.{Memᴰ}
use mathlib.Core.List.Memᴰ
use capsule_proxy.Prelude.{
  String, ◌≡◌, refl, sym, subst, ap, Bool, true, false, List, [], ◌∷◌, ◌++◌, Result, ok, err,
  >>=-eq-ok, ◌⊎◌, inl, inr, Bool-cases, Result-cases,
}
use capsule_proxy.Errors.{Error}
use capsule_proxy.Cluster.Resource.{ClusterResource}
use capsule_proxy.Tenant.{
  Tenant, OwnerSpec, ProxyTenant, owner_cluster_resources, new_proxy_tenant, new_cluster_proxy,
  allow_all, default_proxy_settings, owner_proxy_settings,
}
use capsule_proxy.Filter.Parts.{collect-Mem, kind_parts, request_parts}
use capsule_proxy.Filter.Rules.{OfOwner, OfRule, owner_resources-OfOwner, for_rules-OfRule}
use capsule_proxy.Filter.{
  Manager, ProxySetting, GlobalProxySettings, owner_from_capsule, logged, subject_key, one,
  setting_of_tenants, setting_tenant, owner_tenant, global_tenants, collect,
  get_proxy_tenants_for_owner_kind, of_group, user_kind, get_tenants_for_owner,
}

tenant_resources :
    (t : Tenant) (name kind : String) (owners : List OwnerSpec) (b : Bool) (pt : ProxyTenant)
    → new_proxy_tenant t name kind owners b ≡ ok pt
    → pt.cluster_resources ≡ owner_cluster_resources name kind [] owners
unfolding new_proxy_tenant
tenant_resources t name kind owners true pt h = cc h
tenant_resources t name kind owners false pt h =
    let (settings, _, e) =
      >>=-eq-ok (allow_all default_proxy_settings (owner_proxy_settings name kind [] owners)) _ h in
    cc e

module _ (m : Manager) where
  -- The settings that give a rule to a subject.
  pub data Given (kind name : String) (cr : ClusterResource) : Type 0 where
    by_setting :
        (settings : List ProxySetting) (s : ProxySetting)
        → m.settings_of_subject (subject_key m kind name) ≡ ok settings
        → Memᴰ s settings
        → OfOwner name kind s.subjects cr
        → Given kind name cr
    by_global :
        (globals : List GlobalProxySettings) (g : GlobalProxySettings)
        → m.proxy_cluster_scoped ≡ true
        → m.globals_of_subject (subject_key m kind name) ≡ ok globals
        → Memᴰ g globals
        → OfRule name kind g.rules cr
        → Given kind name cr

  module _ (kind name : String) where
    one-Mem :
        (r : Result Error ProxyTenant) (ys : List ProxyTenant) (pt : ProxyTenant)
        → one m kind name r ≡ ok ys
        → Memᴰ pt ys
        → r ≡ ok pt
    one-Mem (err e) ys pt h member = absurd (cc h)
    one-Mem (ok p) ys pt h member =
        let same : ys ≡ p ∷ [] = cc h in
        ap ok (sym (Memᴰ.eq_of_singleton (subst (λ l. Memᴰ pt l) same member)))

    of_tenants-OfOwner :
        (s : ProxySetting) (r : Result Error (List Tenant))
        → (ys : List ProxyTenant) (pt : ProxyTenant) (cr : ClusterResource)
        → setting_of_tenants m kind name s r ≡ ok ys
        → Memᴰ pt ys
        → Memᴰ cr pt.cluster_resources
        → OfOwner name kind s.subjects cr
    unfolding setting_of_tenants
    of_tenants-OfOwner s (err e) ys pt cr h member c =
        absurd (Memᴰ.not-nil (subst (λ l. Memᴰ pt l) (cc h) member))
    of_tenants-OfOwner s (ok []) ys pt cr h member c =
        absurd (Memᴰ.not-nil (subst (λ l. Memᴰ pt l) (cc h) member))
    of_tenants-OfOwner s (ok (t ∷ ts)) ys pt cr h member c =
        let built =
          one-Mem (new_proxy_tenant t name kind s.subjects m.proxy_cluster_scoped) ys pt h member in
        let resources = tenant_resources t name kind s.subjects m.proxy_cluster_scoped pt built in
        elim (owner_resources-OfOwner name kind s.subjects [] cr
          (subst (λ l. Memᴰ cr l) resources c)) [
            | inl empty ↦ absurd (Memᴰ.not-nil empty)
            | inr given ↦ given
          ]

    setting-Given :
        (s : ProxySetting) (settings : List ProxySetting) (ys : List ProxyTenant) (pt : ProxyTenant)
        (cr : ClusterResource)
        → m.settings_of_subject (subject_key m kind name) ≡ ok settings
        → Memᴰ s settings
        → setting_tenant m kind name s ≡ ok ys
        → Memᴰ pt ys
        → Memᴰ cr pt.cluster_resources
        → Given kind name cr
    unfolding setting_tenant
    setting-Given s settings ys pt cr got listed is member c =
        by_setting settings s got listed
          (of_tenants-OfOwner s (m.tenants_of_namespace s.namespace) ys pt cr is member c)

    owner_tenant-none :
        (t : Tenant) (ys : List ProxyTenant) (pt : ProxyTenant) (cr : ClusterResource)
        → owner_tenant m kind name t ≡ ok ys
        → Memᴰ pt ys
        → ¬ Memᴰ cr pt.cluster_resources
    unfolding owner_tenant owner_from_capsule
    owner_tenant-none t ys pt cr is member c =
        let owners : List OwnerSpec = owner_from_capsule t.owners in
        let built =
          one-Mem (new_proxy_tenant t name kind owners m.proxy_cluster_scoped) ys pt is member in
        let resources = tenant_resources t name kind owners m.proxy_cluster_scoped pt built in
        elim (owner_resources-OfOwner name kind owners [] cr (subst (λ l. Memᴰ cr l) resources c)) [
          | inl empty ↦ Memᴰ.not-nil empty
          | inr given ↦
              let (o, _, same) = Memᴰ.of_map _ t.owners given.listed in
              Memᴰ.not-nil (subst (λ x. Memᴰ cr x.cluster_resources) (sym same) given.given)
        ]

    global-Given :
        (pt : ProxyTenant) (cr : ClusterResource)
        → Memᴰ pt (global_tenants m kind name)
        → Memᴰ cr pt.cluster_resources
        → Given kind name cr
    unfolding global_tenants new_cluster_proxy
    global-Given pt cr member c = elim (Bool-cases m.proxy_cluster_scoped) [
      | inr off ↦ absurd (Memᴰ.not-nil (rw off at member))
      | inl on ↦ elim (Result-cases (m.globals_of_subject (subject_key m kind name))) [
        | inr (e, wrong) ↦ absurd (Memᴰ.not-nil (rw (on, wrong) at member))
        | inl (globals, got) ↦
            let (g, listed, same) = Memᴰ.of_map _ globals (rw (on, got) at member) in
            elim (for_rules-OfRule name kind g.rules [] cr
              (subst (λ x. Memᴰ cr x.cluster_resources) (sym same) c)) [
                | inl empty ↦ absurd (Memᴰ.not-nil empty)
                | inr given ↦ by_global globals g on got listed given
              ]
      ]
    ]

    listed-settings :
        (s : ProxySetting) (r : Result Error (List ProxySetting))
        → Memᴰ s (logged r)
        → (settings : List ProxySetting) × (r ≡ ok settings) × Memᴰ s settings
    listed-settings s (ok xs) h = (xs, refl, h)
    listed-settings s (err e) h = absurd (Memᴰ.not-nil h)

    parts-Given :
        (tenants : List Tenant) (settings owned : List ProxyTenant) (pt : ProxyTenant)
        (cr : ClusterResource)
        → collect
            (setting_tenant m kind name)
            (logged (m.settings_of_subject (subject_key m kind name)))
          ≡ ok settings
        → collect (owner_tenant m kind name) tenants ≡ ok owned
        → Memᴰ pt ((settings ++ global_tenants m kind name) ++ owned)
        → Memᴰ cr pt.cluster_resources
        → Given kind name cr
    parts-Given tenants settings owned pt cr collected all member c =
        elim (Memᴰ.append_cases (settings ++ global_tenants m kind name) member) [
          | inr in_owned ↦
              let (t, _, ys, is, there) =
                collect-Mem (owner_tenant m kind name) tenants owned pt all in_owned in
              absurd (owner_tenant-none t ys pt cr is there c)
          | inl before ↦ elim (Memᴰ.append_cases settings before) [
            | inr global ↦ global-Given pt cr global c
            | inl set ↦
                let (s, logged_s, ys, is, there) =
                  collect-Mem (setting_tenant m kind name)
                    (logged (m.settings_of_subject (subject_key m kind name))) settings pt collected
                    set in
                let (all_settings, got, listed) =
                  listed-settings s (m.settings_of_subject (subject_key m kind name)) logged_s in
                setting-Given s all_settings ys pt cr got listed is there c
          ]
        ]

    kind-Given :
        (pts : List ProxyTenant) (pt : ProxyTenant) (cr : ClusterResource)
        → get_proxy_tenants_for_owner_kind m kind name ≡ ok pts
        → Memᴰ pt pts
        → Memᴰ cr pt.cluster_resources
        → Given kind name cr
    kind-Given pts pt cr h member c =
        let (tenants, settings, owned, collected, all, same) = kind_parts kind name m pts h in
        parts-Given tenants settings owned pt cr collected all
          (subst (λ l. Memᴰ pt l) (sym same) member) c

  -- Every cluster-scoped rule that is collected for a request is given to its user, by its kind and
  -- name, or to one of its groups: by a ProxySetting that lists the subject as an owner with the rule,
  -- or, where cluster-scoped rules are on, by a GlobalProxySettings with the rule and the subject.
  pub get_tenants_for_owner-Given :
      (username : String) (groups : List String) (pts : List ProxyTenant) (pt : ProxyTenant)
      (cr : ClusterResource)
      → get_tenants_for_owner m username groups ≡ ok pts
      → Memᴰ pt pts
      → Memᴰ cr pt.cluster_resources
      → Given (user_kind m username) username cr
        ⊎ ((group : String) × Memᴰ group groups × Given "Group" group cr)
  get_tenants_for_owner-Given username groups pts pt cr h member c =
      let (own, of_groups, got, collected, same) = request_parts m username groups pts h in
      elim (Memᴰ.append_cases own (subst (λ l. Memᴰ pt l) (sym same) member)) [
        | inl mine ↦ inl (kind-Given (user_kind m username) username own pt cr got mine c)
        | inr theirs ↦
            let (group, listed, ys, is, there) =
              collect-Mem (of_group m) groups of_groups pt collected theirs in
            inr (group, listed, kind-Given "Group" group ys pt cr is there c)
      ]

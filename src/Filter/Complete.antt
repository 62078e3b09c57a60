-- ===== src/Filter/Complete.antt =====
-- Every rule of a GlobalProxySettings reaches the subjects that it names.
use mathlib.Core.List.{Memᴰ}
use mathlib.Core.List.Memᴰ
use capsule_proxy.Prelude.{
  String, ◌≡◌, refl, sym, ◌∙◌, subst, ap, Bool, true, false, ◌&&◌, List, [], ◌∷◌, ◌==◌, keep,
  contains, contains-append, ok, arith, inl, inr, Bool-cases, eq_iff, eq_refl,
}
use capsule_proxy.Go.Text.{◌<>◌, has_prefix}
use capsule_proxy.Cluster.Resource.{ClusterResource}
use capsule_proxy.Tenant.{GlobalSubject, GlobalSubjectSpec, ProxyTenant, new_cluster_proxy}
use capsule_proxy.RoleBindings.Index.{service_account_prefix}
use capsule_proxy.Filter.Rules.{OfRule}
use capsule_proxy.Filter.{
  Manager, GlobalProxySettings, global_tenants, get_proxy_tenants_for_owner_kind, of_group,
  user_kind, get_tenants_for_owner,
}
use capsule_proxy.Filter.Indexes.{Store, indexed, global_subject_keys, global_proxy_setting_index}
use capsule_proxy.Filter.Added.{for_rules-adds}
use capsule_proxy.Filter.Parts.{collect-member, kind_parts, request_parts}

keep-Mem :
    {A : Type 0} (p : A → Bool) (xs : List A) (x : A) → Memᴰ x xs → p x ≡ true → Memᴰ x (keep p xs)
unfolding keep
keep-Mem p [] x m h = elim m [ ]
keep-Mem p (y ∷ xs) x m h = elim (Memᴰ.cases_cons m) [
  | inl same ↦ let t : p y ≡ true = ap p (sym same) ∙ h in rw t (Memᴰ.head same)
  | inr later ↦
      let rest = keep-Mem p xs x later h in
      elim (Bool-cases (p y)) [ inl t ↦ rw t (Memᴰ.tail rest) | inr f ↦ rw f rest ]
]

module _ (name kind : String) where
  module _ (some_kind : (kind == "") ≡ false) (some_name : (name == "") ≡ false) where
    subject_keys-contains :
        (subjects : List GlobalSubject) (s : GlobalSubject)
        → Memᴰ s subjects
        → (s.name == name && s.kind == kind) ≡ true
        → contains (global_subject_keys subjects) (kind <> ":" <> name) ≡ true
    unfolding global_subject_keys contains
    subject_keys-contains [] s m is = elim m [ ]
    subject_keys-contains (x ∷ ss) s m is = elim (Memᴰ.cases_cons m) [
      | inr later ↦ let rest = subject_keys-contains ss s later is in ground (arith, rest)
      | inl same ↦
          let t : (x.name == name && x.kind == kind) ≡ true =
            ap (λ (y : GlobalSubject). y.name == name && y.kind == kind) (sym same) ∙ is in
          let at_name : x.name ≡ name = (eq_iff x.name name).0 (ground (arith, t)) in
          let at_kind : x.kind ≡ kind = (eq_iff x.kind kind).0 (ground (arith, t)) in
          let key = eq_refl (kind <> ":" <> name) in
          rw (at_name, at_kind) (ground (arith, some_kind, some_name, key))
    ]

    index-contains :
        (rules : List GlobalSubjectSpec) (rule : GlobalSubjectSpec) (s : GlobalSubject)
        → Memᴰ rule rules
        → Memᴰ s rule.subjects
        → (s.name == name && s.kind == kind) ≡ true
        → contains (global_proxy_setting_index rules) (kind <> ":" <> name) ≡ true
    unfolding global_proxy_setting_index
    index-contains [] rule s m n is = elim m [ ]
    index-contains (r ∷ rs) rule s m n is =
        contains-append (global_subject_keys r.subjects) (global_proxy_setting_index rs)
          (kind <> ":" <> name)
        ∙ elim (Memᴰ.cases_cons m) [
          | inl same ↦
              let here =
                subject_keys-contains r.subjects s (subst (λ x. Memᴰ s x.subjects) same n) is in
              ground (arith, here)
          | inr later ↦ let rest = index-contains rs rule s later n is in ground (arith, rest)
        ]

    kind-complete :
        (store : Store) (pts : List ProxyTenant) (g : GlobalProxySettings) (cr : ClusterResource)
        → get_proxy_tenants_for_owner_kind (indexed store true) kind name ≡ ok pts
        → Memᴰ g store.globals
        → OfRule name kind g.rules cr
        → (pt : ProxyTenant) × Memᴰ pt pts × Memᴰ cr pt.cluster_resources
    unfolding indexed global_tenants new_cluster_proxy
    kind-complete store pts g cr h m given =
        let listed =
          keep-Mem
            (λ (x : GlobalProxySettings).
              contains (global_proxy_setting_index x.rules) (kind <> ":" <> name))
            store.globals g m
            (index-contains g.rules given.rule given.subject given.listed given.named
              given.is_subject) in
        let (tenants, settings, owned, set, all, same) =
          kind_parts kind name (indexed store true) pts h in
        (
          new_cluster_proxy name kind g.rules,
          subst (λ l. Memᴰ (new_cluster_proxy name kind g.rules) l) same
              (Memᴰ.append_left owned (
                Memᴰ.append_right settings (
                  Memᴰ.map (λ (x : GlobalProxySettings). new_cluster_proxy name kind x.rules)
                    listed))),
          for_rules-adds name kind g.rules [] cr given.rule given.subject given.listed given.named
              given.is_subject given.given,
        )

-- The subjects of a request.
pub data Subject (username : String) (groups : List String) (m : Manager)
    : String → String → Type 0 where
  user : Subject username groups m (user_kind m username) username
  group : {name : String} → Memᴰ name groups → Subject username groups m "Group" name

some_user_kind : (m : Manager) (username : String) → (user_kind m username == "") ≡ false
some_user_kind m username = elim (Bool-cases (has_prefix username service_account_prefix)) [
  | inl t ↦ rw t refl
  | inr f ↦ rw f refl
]

-- Over a cluster whose reader lists by the index functions and where cluster-scoped rules are on, every
-- resource of a rule of a GlobalProxySettings that names the user of a request, by its kind and a name
-- that is not empty, or one of its groups, is among the cluster resources that are collected for the
-- request.
pub get_tenants_for_owner_complete :
    (store : Store) (username : String) (groups : List String) (pts : List ProxyTenant)
    {kind name : String} (g : GlobalProxySettings) (cr : ClusterResource)
    → get_tenants_for_owner (indexed store true) username groups ≡ ok pts
    → Subject username groups (indexed store true) kind name
    → (name == "") ≡ false
    → Memᴰ g store.globals
    → OfRule name kind g.rules cr
    → (pt : ProxyTenant) × Memᴰ pt pts × Memᴰ cr pt.cluster_resources
get_tenants_for_owner_complete store username groups pts g cr h user some_name m given =
    let manager = indexed store true in
    let (own, of_groups, got, collected, same) = request_parts manager username groups pts h in
    let (pt, mine, rule) =
      kind-complete username (user_kind manager username) (some_user_kind manager username)
        some_name store own g cr got m given in
    (pt, subst (λ l. Memᴰ pt l) same (Memᴰ.append_left of_groups mine), rule)
get_tenants_for_owner_complete store username groups pts {name = name} g cr h (group listed)
      some_name m given =
    let manager = indexed store true in
    let (own, of_groups, got, collected, same) = request_parts manager username groups pts h in
    let (ys, is, all) = collect-member (of_group manager) groups of_groups name collected listed in
    let (pt, theirs, rule) = kind-complete name "Group" refl some_name store ys g cr is m given in
    (pt, subst (λ l. Memᴰ pt l) same (Memᴰ.append_right own (all pt theirs)), rule)

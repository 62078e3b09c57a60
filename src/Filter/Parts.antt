-- ===== src/Filter/Parts.antt =====
-- What `getTenantsForOwner` of internal/webserver/webserver.go puts together.
use mathlib.Core.List.{Memᴰ}
use mathlib.Core.List.Memᴰ
use capsule_proxy.Prelude.{
  String, ◌≡◌, refl, sym, ◌∙◌, subst, ap, List, [], ◌∷◌, ◌++◌, Result, ok, inl, inr, Result-cases,
}
use capsule_proxy.Errors.{Error}
use capsule_proxy.Tenant.{Tenant, ProxyTenant}
use capsule_proxy.Filter.{
  Manager, subject_key, logged, global_tenants, setting_tenant, owner_tenant, collect,
  get_proxy_tenants_for_owner_kind, of_group, user_kind, get_tenants_for_owner,
}

-- A collected proxy tenant is one of some element.
pub collect-Mem :
    {A : Type 0} (f : A → Result Error (List ProxyTenant)) (xs : List A)
    → (pts : List ProxyTenant) (pt : ProxyTenant) → collect f xs ≡ ok pts
    → Memᴰ pt pts
    → (x : A) × Memᴰ x xs × (ys : List ProxyTenant) × (f x ≡ ok ys) × Memᴰ pt ys
unfolding collect
collect-Mem f [] pts pt h m = absurd (Memᴰ.not-nil (subst (λ l. Memᴰ pt l) (sym (cc h)) m))
collect-Mem f (x ∷ xs) pts pt h m = elim (Result-cases (f x)) [
  | inr (e, wrong) ↦ absurd (cc (rw (wrong, collect) at h))
  | inl (first, done) ↦ elim (Result-cases (collect f xs)) [
    | inr (e, wrong) ↦ absurd (cc (rw (done, wrong, collect) at h))
    | inl (rest, later) ↦
        let same : first ++ rest ≡ pts = cc (rw (done, later, collect) at h) in
        elim (Memᴰ.append_cases first (subst (λ l. Memᴰ pt l) (sym same) m)) [
          | inl here ↦ (x, Memᴰ.head refl, first, done, here)
          | inr there ↦
              let (y, listed, ys, is, member) = collect-Mem f xs rest pt later there in
              (y, Memᴰ.tail listed, ys, is, member)
        ]
  ]
]

-- Every element of a list that is collected has its proxy tenants in the answer.
pub collect-member :
    {A : Type 0} (f : A → Result Error (List ProxyTenant)) (xs : List A) (pts : List ProxyTenant)
    (x : A)
    → collect f xs ≡ ok pts
    → Memᴰ x xs
    → (ys : List ProxyTenant) × (f x ≡ ok ys) × ((pt : ProxyTenant) → Memᴰ pt ys → Memᴰ pt pts)
unfolding collect
collect-member f [] pts x h m = elim m [ ]
collect-member f (y ∷ xs) pts x h m = elim (Result-cases (f y)) [
  | inr (e, wrong) ↦ absurd (cc (rw (wrong, collect) at h))
  | inl (first, done) ↦ elim (Result-cases (collect f xs)) [
    | inr (e, wrong) ↦ absurd (cc (rw (done, wrong, collect) at h))
    | inl (rest, later) ↦
        let same : first ++ rest ≡ pts = cc (rw (done, later, collect) at h) in
        elim (Memᴰ.cases_cons m) [
          | inl here ↦ (
            first,
            ap f here ∙ done,
            λ pt t. subst (λ l. Memᴰ pt l) same (Memᴰ.append_left rest t),
          )
          | inr there ↦
              let (ys, is, all) = collect-member f xs rest x later there in
              (ys, is, λ pt t. subst (λ l. Memᴰ pt l) same (Memᴰ.append_right first (all pt t)))
        ]
  ]
]

-- The parts of the answer for a kind and a name.
pub kind_parts :
    (kind name : String) (m : Manager) (pts : List ProxyTenant)
    → get_proxy_tenants_for_owner_kind m kind name ≡ ok pts
    → (tenants : List Tenant) × (settings owned : List ProxyTenant) × (collect
          (setting_tenant m kind name)
          (logged (m.settings_of_subject (subject_key m kind name)))
        ≡ ok settings)
      × (collect (owner_tenant m kind name) tenants ≡ ok owned)
      × ((settings ++ global_tenants m kind name) ++ owned ≡ pts)
unfolding get_proxy_tenants_for_owner_kind
kind_parts kind name m pts h = elim (Result-cases (m.tenants_of_owner (subject_key m kind name))) [
  | inr (e, wrong) ↦ absurd (cc (rw (wrong, get_proxy_tenants_for_owner_kind) at h))
  | inl (tenants, got) ↦
      let set =
        collect (setting_tenant m kind name)
          (logged (m.settings_of_subject (subject_key m kind name))) in
      elim (Result-cases set) [
        | inr (e, wrong) ↦ absurd (cc (rw (got, wrong, get_proxy_tenants_for_owner_kind) at h))
        | inl (settings, collected) ↦
            elim (Result-cases (collect (owner_tenant m kind name) tenants)) [
              | inr (e, wrong) ↦
                  absurd (cc (rw (got, collected, wrong, get_proxy_tenants_for_owner_kind) at h))
              | inl (owned, all) ↦ (
                tenants,
                settings,
                owned,
                collected,
                all,
                cc (rw (got, collected, all, get_proxy_tenants_for_owner_kind) at h),
              )
            ]
      ]
]

-- The parts of the answer for a request.
pub request_parts :
    (m : Manager) (username : String) (groups : List String) (pts : List ProxyTenant)
    → get_tenants_for_owner m username groups ≡ ok pts
    → (own of_groups : List ProxyTenant) × (get_proxy_tenants_for_owner_kind m
          (user_kind m username)
          username
        ≡ ok own)
      × (collect (of_group m) groups ≡ ok of_groups)
      × (own ++ of_groups ≡ pts)
unfolding get_tenants_for_owner
request_parts m username groups pts h =
    elim (Result-cases (get_proxy_tenants_for_owner_kind m (user_kind m username) username)) [
      | inr (e, wrong) ↦ absurd (cc (rw (wrong, get_tenants_for_owner) at h))
      | inl (own, got) ↦ elim (Result-cases (collect (of_group m) groups)) [
        | inr (e, wrong) ↦ absurd (cc (rw (got, wrong, get_tenants_for_owner) at h))
        | inl (of_groups, collected) ↦
            (own, of_groups, got, collected, cc (rw (got, collected, get_tenants_for_owner) at h))
      ]
    ]

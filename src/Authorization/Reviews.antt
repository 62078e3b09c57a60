-- ===== src/Authorization/Reviews.antt =====
-- What a self review says after the proxy.
use mathlib.Core.List.{Memᴰ}
use capsule_proxy.Prelude.{
  String, ◌≡◌, refl, Bool, true, false, some, List, [], ◌∷◌, is_empty, ok, arith, ◌⊎◌, inl, inr,
  ◌↔◌, Bool-cases, Option-cases, ◌==◌, eq_iff, contains-Mem, sym, ap, ◌∙◌,
}
use capsule_proxy.Go.Text.{◌<>◌, equal_fold}
use capsule_proxy.Labels.{LabelApi, Requirement}
use capsule_proxy.Tenant.{ProxyTenant}
use capsule_proxy.Cluster.Scope.{get_cluster_scope_requirements}
use capsule_proxy.Cluster.Grants.{Granted, requirements_iff}
use capsule_proxy.Authorization.{
  ResourceAttributes, AccessStatus, access_review, grant_access, cluster_resource_operation, gvk_of,
  is_namespaces_list, is_cross_namespace_list, is_cross_namespace_list_verb,
  namespaced_resource_key, mutate_cluster_access, mutate_access, mutate_authorization,
}

not_empty-lem : (pts : List ProxyTenant) → ¬ (pts ≡ []) → is_empty pts ≡ false
not_empty-lem [] owns = absurd (owns refl)
not_empty-lem (p ∷ pts) owns = refl

module _ (api : LabelApi) (cluster_scoped : Bool) (pts : List ProxyTenant)
    (namespaced : List String) where
  -- What the proxy itself lets the subject do: list the namespaces; list or watch a proxied resource in
  -- no namespace in particular, if it has a tenant; and, where cluster-scoped rules are on, list or
  -- get what a rule with that operation grants a requirement for.
  pub data Served (a : ResourceAttributes) : Type 0 where
    own_namespaces : a.resource ≡ "namespaces" → equal_fold a.verb "list" ≡ true → Served a
    across_namespaces :
        ¬ (pts ≡ [])
        → a.namespace ≡ ""
        → (equal_fold a.verb "list" ≡ true) ⊎ (equal_fold a.verb "watch" ≡ true)
        → Memᴰ (a.group <> "/" <> a.resource) namespaced
        → Served a
    by_rule :
        (operation : String) (req : Requirement)
        → cluster_scoped ≡ true
        → ((operation ≡ "List") × (equal_fold a.verb "list" ≡ true))
          ⊎ ((operation ≡ "Get")
              × (equal_fold a.verb "get" ≡ true)
              × (equal_fold a.verb "list" ≡ false))
        → Granted api
            (some (record { group = a.group; version = a.version; kind = a.resource }))
            operation
            pts
            req
        → Served a

  is_namespaces_list-true :
      (a : ResourceAttributes)
      → is_namespaces_list api cluster_scoped pts namespaced a ≡ true
      → Served a
  unfolding is_namespaces_list
  is_namespaces_list-true a h = elim (Bool-cases (a.resource == "namespaces")) [
    | inr f ↦ absurd (cc (rw (f, is_namespaces_list) at h))
    | inl t ↦
        own_namespaces ((eq_iff a.resource "namespaces").0 t) (rw (t, is_namespaces_list) at h)
  ]

  is_cross_namespace_list-true :
      (a : ResourceAttributes)
      → is_cross_namespace_list api cluster_scoped pts namespaced a ≡ true
      → Served a
  unfolding is_cross_namespace_list is_cross_namespace_list_verb namespaced_resource_key
  is_cross_namespace_list-true a h =
      let key = a.group <> "/" <> a.resource in
      let owns : is_empty pts ≡ false = ground (arith, h) in
      across_namespaces (λ none_owned. absurd (cc (sym (ap is_empty none_owned) ∙ owns)))
        ((eq_iff a.namespace "").0 (ground (arith, h)))
        (elim (Bool-cases (equal_fold a.verb "list")) [
          | inl t ↦ inl t
          | inr f ↦ inr (ground (arith, f, h))
        ])
        ((contains-Mem namespaced key).0 (ground (arith, h)))

  cluster_resource_operation-some :
      (verb operation : String)
      → cluster_resource_operation verb ≡ some operation
      → ((operation ≡ "List") × (equal_fold verb "list" ≡ true))
        ⊎ ((operation ≡ "Get") × (equal_fold verb "get" ≡ true) × (equal_fold verb "list" ≡ false))
  unfolding cluster_resource_operation
  cluster_resource_operation-some verb operation h = elim (Bool-cases (equal_fold verb "list")) [
    | inl t ↦ inl (cc (rw (t, cluster_resource_operation) at h), t)
    | inr f ↦ elim (Bool-cases (equal_fold verb "get")) [
      | inl t ↦ inr (cc (rw (f, t, cluster_resource_operation) at h), t, f)
      | inr g ↦ absurd (cc (rw (f, g, cluster_resource_operation) at h))
    ]
  ]

  some-requirement :
      (operation : String) (a : ResourceAttributes)
      → (xs : List Requirement) → is_empty xs ≡ false
      → (q : Requirement) × Memᴰ q xs
  some-requirement operation a [] h = absurd (cc h)
  some-requirement operation a (x ∷ xs) h = (x, Memᴰ.head refl)

  not_empty-of : (q : Requirement) (xs : List Requirement) → Memᴰ q xs → is_empty xs ≡ false
  not_empty-of q [] m = elim m [ ]
  not_empty-of q (x ∷ xs) m = refl

  allowed-Served :
      (a : ResourceAttributes) (status : AccessStatus)
      → (mutate_access api cluster_scoped pts namespaced a status).allowed ≡ true
      → (status.allowed ≡ true) ⊎ Served a
  unfolding mutate_access mutate_cluster_access
  allowed-Served a status h =
      elim (Bool-cases (is_namespaces_list api cluster_scoped pts namespaced a)) [
        | inl t ↦ inr (is_namespaces_list-true a t)
        | inr f ↦ elim (Bool-cases (is_cross_namespace_list api cluster_scoped pts namespaced a)) [
          | inl t ↦ inr (is_cross_namespace_list-true a t)
          | inr g ↦ elim (Bool-cases cluster_scoped) [
            | inr off ↦ inl (rw (f, g, off, mutate_access) at h)
            | inl on ↦ elim (Option-cases (cluster_resource_operation a.verb)) [
              | inl unsupported ↦
                  inl (rw (f, g, on, unsupported, mutate_access, mutate_cluster_access) at h)
              | inr (operation, supported) ↦
                  elim (Bool-cases (
                    is_empty
                      (get_cluster_scope_requirements api (some (gvk_of a)) operation pts))) [
                        | inl nothing ↦ inl (
                            rw (f, g, on, supported, nothing, mutate_access, mutate_cluster_access)
                              at h)
                        | inr granted ↦
                            let (q, m) =
                              some-requirement operation a
                                (get_cluster_scope_requirements api (some (gvk_of a)) operation pts)
                                granted in
                            inr (
                              by_rule operation q on
                                (cluster_resource_operation-some a.verb operation supported)
                                ((requirements_iff api (some (gvk_of a)) operation pts q).0 m))
                      ]
            ]
          ]
        ]
      ]

  listed_namespaces :
      (a : ResourceAttributes)
      → a.resource ≡ "namespaces"
      → equal_fold a.verb "list" ≡ true
      → is_namespaces_list api cluster_scoped pts namespaced a ≡ true
  unfolding is_namespaces_list
  listed_namespaces a of verb = rw (of, verb) refl

  listed_across :
      (a : ResourceAttributes)
      → ¬ (pts ≡ [])
      → a.namespace ≡ ""
      → (equal_fold a.verb "list" ≡ true) ⊎ (equal_fold a.verb "watch" ≡ true)
      → Memᴰ (a.group <> "/" <> a.resource) namespaced
      → is_cross_namespace_list api cluster_scoped pts namespaced a ≡ true
  unfolding is_cross_namespace_list is_cross_namespace_list_verb namespaced_resource_key
  listed_across a owns nowhere verb proxied =
      let key = (contains-Mem namespaced (a.group <> "/" <> a.resource)).1 proxied in
      let some_tenant = not_empty-lem pts owns in
      elim verb [
        | inl l ↦ rw (some_tenant, nowhere, l, key) refl
        | inr w ↦ elim (Bool-cases (equal_fold a.verb "list")) [
          | inl l ↦ rw (some_tenant, nowhere, l, key) refl
          | inr f ↦ rw (some_tenant, nowhere, f, w, key) refl
        ]
      ]

  operation_of_verb :
      (verb operation : String)
      → ((operation ≡ "List") × (equal_fold verb "list" ≡ true))
        ⊎ ((operation ≡ "Get") × (equal_fold verb "get" ≡ true) × (equal_fold verb "list" ≡ false))
      → cluster_resource_operation verb ≡ some operation
  unfolding cluster_resource_operation
  operation_of_verb verb operation (inl (is, t)) = rw (t, is) refl
  operation_of_verb verb operation (inr (is, t, f)) = rw (f, t, is) refl

  granted_access :
      (a : ResourceAttributes) (status : AccessStatus) (operation : String)
      → cluster_scoped ≡ true
      → cluster_resource_operation a.verb ≡ some operation
      → is_empty (get_cluster_scope_requirements api (some (gvk_of a)) operation pts) ≡ false
      → mutate_access api cluster_scoped pts namespaced a status ≡ grant_access status
  unfolding mutate_access mutate_cluster_access
  granted_access a status operation on supported filled =
      elim (Bool-cases (is_namespaces_list api cluster_scoped pts namespaced a)) [
        | inl s ↦ rw s refl
        | inr f ↦ elim (Bool-cases (is_cross_namespace_list api cluster_scoped pts namespaced a)) [
          | inl t ↦ rw (f, t) refl
          | inr g ↦ rw (f, g, on, supported, filled, mutate_access, mutate_cluster_access) refl
        ]
      ]

  Served-allowed :
      (a : ResourceAttributes) (status : AccessStatus)
      → Served a
      → mutate_access api cluster_scoped pts namespaced a status ≡ grant_access status
  unfolding mutate_access
  Served-allowed a status (own_namespaces of verb) = rw (listed_namespaces a of verb) refl
  Served-allowed a status (across_namespaces owns nowhere verb proxied) =
      let t = listed_across a owns nowhere verb proxied in
      elim (Bool-cases (is_namespaces_list api cluster_scoped pts namespaced a)) [
        | inl s ↦ rw s refl
        | inr f ↦ rw (f, t) refl
      ]
  Served-allowed a status (by_rule operation req on verb granted) =
      granted_access a status operation on (operation_of_verb a.verb operation verb) (
        not_empty-of req (get_cluster_scope_requirements api (some (gvk_of a)) operation pts)
          ((requirements_iff api (some (gvk_of a)) operation pts req).1 granted))

  kept-allowed :
      (a : ResourceAttributes) (status : AccessStatus)
      → status.allowed ≡ true
      → (mutate_access api cluster_scoped pts namespaced a status).allowed ≡ true
  unfolding mutate_access mutate_cluster_access grant_access
  kept-allowed a status h = elim (Option-cases (cluster_resource_operation a.verb)) [
    | inl unsupported ↦ ground (arith, unsupported, h)
    | inr (operation, supported) ↦ ground (arith, supported, h)
  ]

  -- After the proxy an access review of a resource is allowed exactly where it was allowed before or
  -- the proxy serves the request: a list of namespaces; a list or watch of a proxied resource with no
  -- namespace named, by a subject with a tenant; or, where cluster-scoped rules are on, a list or get
  -- for which a rule with that operation grants a requirement. Verbs are compared without case.
  pub access_review-allowed :
      (a : ResourceAttributes) (status : AccessStatus)
      → (after : AccessStatus) × (mutate_authorization api cluster_scoped pts namespaced
            (access_review (some a) status)
          ≡ ok (access_review (some a) after))
        × ((after.allowed ≡ true) ↔ ((status.allowed ≡ true) ⊎ Served a))
  unfolding mutate_authorization grant_access
  access_review-allowed a status = (
    mutate_access api cluster_scoped pts namespaced a status,
    refl,
    (
      allowed-Served a status,
      λ e. elim e [
        | inl before ↦ kept-allowed a status before
        | inr served ↦ rw (Served-allowed a status served) refl
      ],
    ),
  )

-- ===== src/Modules/NamespaceAccess.antt =====
-- Which namespaces and tenants a subject sees.
use capsule_proxy.Prelude.{
  any-Mem, String, ◌≡◌, refl, ◌∙◌, ap, Bool, true, false, not, ◌&&◌, ◌||◌, Option, some, List, [],
  ◌∷◌, ◌++◌, ◌==◌, any, contains, contains-append, map, if◌then◌else◌, Result, ok, is_empty, arith,
  ◌⊎◌, inl, inr, Result-cases, Bool-cases, eq_iff,
}
use capsule_proxy.Errors.{Error, GroupKind}
use capsule_proxy.Labels.{
  Labels, Requirement, Selector, LabelApi, KeepsFields, in_operator, exists_operator,
}
use capsule_proxy.Tenant.{ProxyTenant}
use capsule_proxy.Request.Http.{HttpRequest}
use capsule_proxy.Cluster.Resource.{get_operation}
use capsule_proxy.Cluster.Scope.{GroupVersionKind, get_cluster_scope_requirements}
use capsule_proxy.Cluster.Grants.{Granted, requirements_iff}
use capsule_proxy.RoleBindings.Lookup.{Found, Found-cases, hit, not_found, Namespace}
use capsule_proxy.Modules.ClusterScoped.{ignored_key}
use capsule_proxy.Modules.Named.{AsksFor, made-AsksFor}
use capsule_proxy.Modules.Namespaces.{
  name_key, namespaces_gvk, tenants_gvk, get_tenant, namespaces_kind, tenant_name_of,
  matches_cluster_scoped, cluster_scoped_names, names_answer, tenant_namespaces,
  reflected_namespaces, list_namespaces, owned_namespace, first_owner, get_namespace,
}

tenant_namespaces-contains :
    (pts : List ProxyTenant) (v : String)
    → contains (tenant_namespaces pts) v ≡ any (λ p. contains p.tenant.namespaces v) pts
unfolding tenant_namespaces contains any
tenant_namespaces-contains [] v = refl
tenant_namespaces-contains (p ∷ ps) v =
    contains-append p.tenant.namespaces (tenant_namespaces ps) v
    ∙ ap (λ b. contains p.tenant.namespaces v || b) (tenant_namespaces-contains ps v)

not_empty-contains :
    (xs : List String) (v : String) → (not (is_empty xs) && contains xs v) ≡ contains xs v
unfolding contains
not_empty-contains [] v = refl
not_empty-contains (x ∷ xs) v = refl

module _ (api : LabelApi) (sorted : List String → List String) where
  names_answer-values :
      KeepsFields api
      → (gk : GroupKind) (pts : List ProxyTenant)
      → (no_names : Bool) (names : List String) (selector : Selector)
      → names_answer api sorted pts gk no_names names ≡ ok (some selector)
      → (q : Requirement) × (selector ≡ q ∷ [])
        × (q.key ≡ (if no_names then ignored_key else name_key))
        × (q.operator ≡ (if no_names then exists_operator else in_operator))
        × ((v : String) → contains q.values v ≡ (not no_names && contains names v))
  unfolding names_answer contains
  names_answer-values fields gk pts true names selector h =
      elim (Result-cases (api.new_requirement ignored_key exists_operator [])) [
        | inr (e, wrong) ↦ absurd (cc (rw (wrong, names_answer) at h))
        | inl (q, made) ↦
            let kept = fields.fields ignored_key exists_operator [] q made in
            (q, cc (rw (made, names_answer) at h), kept.0, kept.1, λ v. kept.2 v)
      ]
  names_answer-values fields gk pts false names selector h =
      elim (Result-cases (api.new_requirement name_key in_operator names)) [
        | inr (e, wrong) ↦ absurd (cc (rw (wrong, names_answer) at h))
        | inl (q, made) ↦
            let kept = fields.fields name_key in_operator names q made in
            (q, cc (rw (made, names_answer) at h), kept.0, kept.1, λ v. kept.2 v)
      ]

  matches_cluster_scoped-Granted :
      (pts : List ProxyTenant) (gvk : GroupVersionKind) (labels : Labels)
      → matches_cluster_scoped api sorted pts gvk labels ≡ true
      → (q : Requirement) × Granted api (some gvk) get_operation pts q
        × (api.matches q labels ≡ true)
  unfolding matches_cluster_scoped
  matches_cluster_scoped-Granted pts gvk labels m =
      let (q, listed, match) =
        (any-Mem (λ q. api.matches q labels)
            (get_cluster_scope_requirements api (some gvk) get_operation pts)).0
          m in
      (q, (requirements_iff api (some gvk) get_operation pts q).0 listed, match)

  module _ (pts : List ProxyTenant) (r : HttpRequest)
      (reflector : Option (HttpRequest → Result Error (List String))) where
    -- A list of namespaces is answered by one requirement, whose values are exactly the namespaces of
    -- the subject's tenants, those that the reflector answers and those that `cluster_scoped_names`
    -- answers: it asks for the label kubernetes.io/metadata.name to be in them, if there are any, and for
    -- the label dontexistsignoreme to exist otherwise.
    pub list_namespaces-values :
        KeepsFields api
        → ((xs : List String) (x : String) → contains (sorted xs) x ≡ contains xs x)
        → (names : Selector → Result Error (List String)) (selector : Selector)
        → list_namespaces api sorted pts reflector r names ≡ ok (some selector)
        → (reflected granted : List String) × (q : Requirement) × (reflected_namespaces api sorted
              pts reflector r
            ≡ ok reflected)
          × (cluster_scoped_names api sorted pts names namespaces_gvk ≡ ok granted)
          × (selector ≡ q ∷ [])
          × AsksFor "kubernetes.io/metadata.name" q
          × ((v : String)
              → contains q.values v ≡ (
                  any (λ p. contains p.tenant.namespaces v) pts
                  || contains reflected v
                  || contains granted v))
    unfolding list_namespaces
    list_namespaces-values fields keeps names selector h =
        elim (Result-cases (reflected_namespaces api sorted pts reflector r)) [
          | inr (e, wrong) ↦ absurd (cc (rw (wrong, list_namespaces) at h))
          | inl (reflected, asked) ↦
              elim (Result-cases (cluster_scoped_names api sorted pts names namespaces_gvk)) [
                | inr (e, wrong) ↦ absurd (cc (rw (asked, wrong, list_namespaces) at h))
                | inl (granted, selected) ↦
                    let found : List String = (tenant_namespaces pts ++ reflected) ++ granted in
                    let (q, same, key, operator, values) =
                      names_answer-values fields namespaces_kind pts (is_empty found) (sorted found)
                        selector (rw (asked, selected, list_namespaces) at h) in
                    let all : (v : String) → contains q.values v ≡ contains found v = λ v.
                      values v
                      ∙ ap (λ b. not (is_empty found) && b) (keeps found v)
                      ∙ not_empty-contains found v in
                    (
                      reflected,
                      granted,
                      q,
                      asked,
                      selected,
                      same,
                      made-AsksFor name_key q found key operator all,
                      λ v.
                          all v
                          ∙ ground (
                            arith,
                            contains-append (tenant_namespaces pts ++ reflected) granted v,
                            contains-append (tenant_namespaces pts) reflected v,
                            tenant_namespaces-contains pts v,
                          ),
                    )
              ]
        ]

    abbrev Opened : Namespace → String → List String → String → Type 0
    Opened ns owner reflected name =
        (contains (map tenant_name_of pts) owner ≡ true)
        ⊎ (contains reflected name ≡ true)
        ⊎ ((q : Requirement) × Granted api (some namespaces_gvk) get_operation pts q
            × (api.matches q ns.labels ≡ true))

    owned_namespace-opens :
        (ns : Namespace) (owner name : String) (selector : Selector)
        → owned_namespace api sorted pts reflector r ns owner name ≡ ok (some selector)
        → (reflected : List String) × (reflected_namespaces api sorted pts reflector r
            ≡ ok reflected)
          × Opened ns owner reflected name
    unfolding owned_namespace
    owned_namespace-opens ns owner name selector h =
        elim (Result-cases (reflected_namespaces api sorted pts reflector r)) [
          | inr (e, wrong) ↦ absurd (cc (rw (wrong, owned_namespace) at h))
          | inl (reflected, asked) ↦ (
            reflected,
            asked,
            elim (Bool-cases (contains (map tenant_name_of pts) owner)) [
              | inl t ↦ inl t
              | inr f ↦ elim (Bool-cases (contains reflected name)) [
                | inl t ↦ inr (inl t)
                | inr g ↦
                    elim (Bool-cases
                      (matches_cluster_scoped api sorted pts namespaces_gvk ns.labels)) [
                        | inr m ↦ absurd (cc (rw (asked, f, g, m, owned_namespace) at h))
                        | inl m ↦
                            inr
                              (inr (matches_cluster_scoped-Granted pts namespaces_gvk ns.labels m))
                      ]
              ]
            ],
          )
        ]

    first_owner-opens :
        (ns : Namespace) (all : List (String × String)) (name : String) (selector : Selector)
        → first_owner api sorted pts reflector r ns all name ≡ ok (some selector)
        → (owner : String) × (owners : List (String × String)) × (reflected : List String) × (all
            ≡ ("Tenant", owner) ∷ owners)
          × (reflected_namespaces api sorted pts reflector r ≡ ok reflected)
          × Opened ns owner reflected name
    unfolding first_owner
    first_owner-opens ns [] name selector h = absurd (cc h)
    first_owner-opens ns ((kind, owner) ∷ owners) name selector h =
        elim (Bool-cases (kind == "Tenant")) [
          | inr f ↦ absurd (cc (rw (f, first_owner) at h))
          | inl t ↦
              let (reflected, asked, opened) =
                owned_namespace-opens ns owner name selector (rw (t, first_owner) at h) in
              (
                owner,
                owners,
                reflected,
                ap (λ k. (k, owner) ∷ owners) ((eq_iff kind "Tenant").0 t),
                asked,
                opened,
              )
        ]

    -- A namespace is passed on only where it does not exist, or its first owner is a tenant of the
    -- subject, or the role bindings open it, or a requirement that is granted for GET matches its
    -- labels; in the last three cases its first owner is a tenant. A failing read opens nothing.
    pub get_namespace-opens :
        (reader : String → Found Namespace) (name : String) (selector : Selector)
        → get_namespace api sorted pts reflector r reader name ≡ ok (some selector)
        → (reader name ≡ not_found)
          ⊎ ((ns : Namespace) × (owner : String) × (owners : List (String × String))
              × (reflected : List String) × (reader name ≡ hit ns)
              × (ns.owner_references ≡ ("Tenant", owner) ∷ owners)
              × (reflected_namespaces api sorted pts reflector r ≡ ok reflected)
              × ((contains (map tenant_name_of pts) owner ≡ true)
                  ⊎ (contains reflected name ≡ true)
                  ⊎ ((q : Requirement) × Granted api (some namespaces_gvk) get_operation pts q
                      × (api.matches q ns.labels ≡ true))))
    unfolding get_namespace
    get_namespace-opens reader name selector h = elim (Found-cases (reader name)) [
      | inr (inl missing) ↦ inl missing
      | inr (inr (e, wrong)) ↦ absurd (cc (rw (wrong, get_namespace) at h))
      | inl (ns, read) ↦
          let (owner, owners, reflected, is, asked, opened) =
            first_owner-opens ns ns.owner_references name selector
              (rw (read, get_namespace) at h) in
          inr (ns, owner, owners, reflected, read, is, asked, opened)
    ]

  -- A tenant is passed on only where it is one of the subject's, or it exists and a requirement that is
  -- granted for GET matches its labels.
  pub get_tenant-opens :
      (pts : List ProxyTenant) (reader : String → Found Labels) (name : String)
      (selector : Selector)
      → get_tenant api sorted pts reader name ≡ ok (some selector)
      → (contains (map tenant_name_of pts) name ≡ true)
        ⊎ ((labels : Labels) × (q : Requirement) × (reader name ≡ hit labels)
            × Granted api (some tenants_gvk) get_operation pts q
            × (api.matches q labels ≡ true))
  unfolding get_tenant
  get_tenant-opens pts reader name selector h =
      elim (Bool-cases (contains (map tenant_name_of pts) name)) [
        | inl t ↦ inl t
        | inr f ↦ elim (Found-cases (reader name)) [
          | inr (inl missing) ↦ absurd (cc (rw (f, missing, get_tenant) at h))
          | inr (inr (e, wrong)) ↦ absurd (cc (rw (f, wrong, get_tenant) at h))
          | inl (labels, read) ↦
              elim (Bool-cases (matches_cluster_scoped api sorted pts tenants_gvk labels)) [
                | inr m ↦ absurd (cc (rw (f, read, m, get_tenant) at h))
                | inl m ↦
                    let (q, granted, match) =
                      matches_cluster_scoped-Granted pts tenants_gvk labels m in
                    inr (labels, q, read, granted, match)
              ]
        ]
      ]

-- ===== src/Cluster/Grants.antt =====
-- Which operations a rule enables, and which requirements the rules of a subject add up to.
use mathlib.Core.List.{Memᴰ}
use mathlib.Core.List.Memᴰ
use capsule_proxy.Prelude.{
  String, ◌≡◌, refl, Bool, true, false, ◌||◌, ◌&&◌, List, [], ◌∷◌, ◌==◌, Option, is_empty, any,
  any-cong, contains, arith, Result, ok, err, Bool-cases, inl, inr, ◌↔◌, subst,
}
use capsule_proxy.Errors.{Error}
use capsule_proxy.Labels.{LabelApi, Requirement}
use capsule_proxy.Tenant.{ProxyTenant}
use capsule_proxy.Cluster.Scope.{
  GroupVersionKind, match_resource, selectable_requirements, rule_requirements, rules_requirements,
  get_cluster_scope_requirements,
}
use capsule_proxy.Cluster.Resource.{
  ClusterResource, list_operation, get_operation, allows_operation, effective_operations,
  effective_flags,
}

effective_flags-any :
    (list get : Bool) (ops : List String)
    → (effective_flags list get ops ≡ (
      any (λ o. o == list_operation) ops || list,
      any (λ o. o == get_operation || o == list_operation) ops || get,
    ))
unfolding effective_flags any
effective_flags-any list get [] = refl
effective_flags-any list get (o ∷ ops) = ground (
  arith,
  effective_flags-any (o == list_operation || list)
      (o == list_operation || o == get_operation || get) ops,
)

-- A rule allows a LIST or a GET exactly when that is one of its effective operations.
allows-effective :
    (r : ClusterResource)
    → (allows_operation r list_operation ≡ contains (effective_operations r) list_operation)
      × (allows_operation r get_operation ≡ contains (effective_operations r) get_operation)
unfolding allows_operation effective_operations contains
allows-effective r = (
  ground (
    arith,
    effective_flags-any (is_empty r.operations) (is_empty r.operations) r.operations,
    any-cong (λ o. o == list_operation || (list_operation == get_operation && o == list_operation))
        (λ o. o == list_operation) r.operations (λ o. ground arith),
  ),
  ground (
    arith,
    effective_flags-any (is_empty r.operations) (is_empty r.operations) r.operations,
    any-cong (λ o. o == get_operation || (get_operation == get_operation && o == list_operation))
        (λ o. o == get_operation || o == list_operation) r.operations (λ o. ground arith),
  ),
)

-- Where a requirement comes from: a rule of one of the tenants that matches the resource, allows the
-- operation, and has a valid and selectable selector with this requirement.
pub record Granted (api : LabelApi) (gvk : Option GroupVersionKind) (operation : String)
    (pts : List ProxyTenant) (req : Requirement) : Type 0 where
  pub tenant : ProxyTenant
  pub rule : ClusterResource
  pub requirements : List Requirement
  pub tenant_listed : Memᴰ tenant pts
  pub rule_listed : Memᴰ rule tenant.cluster_resources
  pub matched : match_resource gvk rule ≡ true
  pub allowed : allows_operation rule operation ≡ true
  pub selectable : api.as_selector rule.selector ≡ ok (requirements, true)
  pub required : Memᴰ req requirements

module _ (api : LabelApi) (gvk : Option GroupVersionKind) (operation : String) where
  -- The same for one rule and for the rules of one tenant.
  record OfRule (cr : ClusterResource) (req : Requirement) : Type 0 where
    requirements : List Requirement
    matched : match_resource gvk cr ≡ true
    allowed : allows_operation cr operation ≡ true
    selectable : api.as_selector cr.selector ≡ ok (requirements, true)
    required : Memᴰ req requirements

  mem-selectable :
      (req : Requirement) (r : Result Error (List Requirement × Bool))
      → Memᴰ req (selectable_requirements api r)
      → (reqs : List Requirement) × (r ≡ ok (reqs, true)) × Memᴰ req reqs
  mem-selectable req (err e) h = absurd (Memᴰ.not-nil h)
  mem-selectable req (ok (reqs, true)) h = (reqs, refl, h)
  mem-selectable req (ok (reqs, false)) h = absurd (Memᴰ.not-nil h)

  OfRule-sound :
      (cr : ClusterResource) (req : Requirement)
      → Memᴰ req (rule_requirements api gvk operation cr)
      → OfRule cr req
  unfolding rule_requirements
  OfRule-sound cr req h = elim (Bool-cases (match_resource gvk cr)) [
    | inr other ↦ absurd (Memᴰ.not-nil (rw other at h))
    | inl matched ↦ elim (Bool-cases (allows_operation cr operation)) [
      | inr denied ↦ absurd (Memᴰ.not-nil (rw (matched, denied) at h))
      | inl allowed ↦
          let (reqs, e, m) =
            mem-selectable req (api.as_selector cr.selector) (rw (matched, allowed) at h) in
          record {
            requirements = reqs;
            matched = matched;
            allowed = allowed;
            selectable = e;
            required = m;
          }
    ]
  ]

  OfRule_complete :
      (cr : ClusterResource) (req : Requirement)
      → OfRule cr req
      → Memᴰ req (rule_requirements api gvk operation cr)
  unfolding rule_requirements
  OfRule_complete cr req g = rw (g.matched, g.allowed, g.selectable) (g.required)

  record OfRules (crs : List ClusterResource) (req : Requirement) : Type 0 where
    rule : ClusterResource
    listed : Memᴰ rule crs
    of_rule : OfRule rule req

  OfRules-sound :
      (crs : List ClusterResource) (req : Requirement)
      → Memᴰ req (rules_requirements api gvk operation crs)
      → OfRules crs req
  unfolding rules_requirements
  OfRules-sound [] req h = absurd (Memᴰ.not-nil h)
  OfRules-sound (cr ∷ crs) req h =
      elim (Memᴰ.append_cases (rule_requirements api gvk operation cr) h) [
        | inl m ↦ record { rule = cr; listed = Memᴰ.head refl; of_rule = OfRule-sound cr req m }
        | inr m ↦
            let rest = OfRules-sound crs req m in
            record { rule = rest.rule; listed = Memᴰ.tail rest.listed; of_rule = rest.of_rule }
      ]

  OfRules_complete :
      (crs : List ClusterResource) (req : Requirement) (rule : ClusterResource)
      → Memᴰ rule crs
      → OfRule rule req
      → Memᴰ req (rules_requirements api gvk operation crs)
  unfolding rules_requirements
  OfRules_complete [] req rule m g = elim m [ ]
  OfRules_complete (cr ∷ crs) req rule (Memᴰ.head e) g =
      Memᴰ.append_left (rules_requirements api gvk operation crs)
        (OfRule_complete cr req (subst (λ x. OfRule x req) e g))
  OfRules_complete (cr ∷ crs) req rule (Memᴰ.tail m) g =
      Memᴰ.append_right (rule_requirements api gvk operation cr) (OfRules_complete crs req rule m g)

  requirements_sound :
      (pts : List ProxyTenant) (req : Requirement)
      → Memᴰ req (get_cluster_scope_requirements api gvk operation pts)
      → Granted api gvk operation pts req
  unfolding get_cluster_scope_requirements
  requirements_sound [] req h = absurd (Memᴰ.not-nil h)
  requirements_sound (pt ∷ pts) req h =
      elim (Memᴰ.append_cases (rules_requirements api gvk operation pt.cluster_resources) h) [
        | inl m ↦
            let g = OfRules-sound pt.cluster_resources req m in
            record {
              tenant = pt;
              rule = g.rule;
              requirements = g.of_rule.requirements;
              tenant_listed = Memᴰ.head refl;
              rule_listed = g.listed;
              matched = g.of_rule.matched;
              allowed = g.of_rule.allowed;
              selectable = g.of_rule.selectable;
              required = g.of_rule.required;
            }
        | inr m ↦
            let g = requirements_sound pts req m in
            record {
              tenant = g.tenant;
              rule = g.rule;
              requirements = g.requirements;
              tenant_listed = Memᴰ.tail g.tenant_listed;
              rule_listed = g.rule_listed;
              matched = g.matched;
              allowed = g.allowed;
              selectable = g.selectable;
              required = g.required;
            }
      ]

  requirements_complete :
      (pts : List ProxyTenant) (req : Requirement) (pt : ProxyTenant) (rule : ClusterResource)
      → Memᴰ pt pts
      → Memᴰ rule pt.cluster_resources
      → OfRule rule req
      → Memᴰ req (get_cluster_scope_requirements api gvk operation pts)
  unfolding get_cluster_scope_requirements
  requirements_complete [] req pt rule n m g = elim n [ ]
  requirements_complete (p ∷ pts) req pt rule (Memᴰ.head e) m g =
      Memᴰ.append_left (get_cluster_scope_requirements api gvk operation pts) (
        OfRules_complete p.cluster_resources req rule
          (subst (λ x. Memᴰ rule x.cluster_resources) e m) g)
  requirements_complete (p ∷ pts) req pt rule (Memᴰ.tail n) m g =
      Memᴰ.append_right (rules_requirements api gvk operation p.cluster_resources)
        (requirements_complete pts req pt rule n m g)

  -- The requirements that are collected for a resource and an operation are exactly those of the
  -- rules of the tenants that match the resource, allow the operation, and have a valid and
  -- selectable selector.
  pub requirements_iff :
      (pts : List ProxyTenant) (req : Requirement)
      → Memᴰ req (get_cluster_scope_requirements api gvk operation pts)
        ↔ Granted api gvk operation pts req
  requirements_iff pts req = (
    requirements_sound pts req,
    λ g. requirements_complete pts req g.tenant g.rule g.tenant_listed g.rule_listed (record {
      requirements = g.requirements;
      matched = g.matched;
      allowed = g.allowed;
      selectable = g.selectable;
      required = g.required;
    }),
  )

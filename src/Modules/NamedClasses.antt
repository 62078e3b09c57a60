-- ===== src/Modules/NamedClasses.antt =====
-- Which listed classes the packages storageclass, priorityclass and ingressclass of internal/modules
-- name.
use capsule_proxy.Prelude.{
  String, ◌≡◌, refl, sym, ◌∙◌, ap, subst, Bool, true, ◌&&◌, Option, List, [], ◌∷◌, ◌==◌, any,
  contains, arith, if◌then◌else◌, Bool-cases, ok, >>=-eq-ok, ok_injective, inl, inr, eq_iff,
}
use capsule_proxy.Labels.{LabelApi}
use capsule_proxy.Tenant.{AllowedClasses, Tenant, ProxyTenant}
use capsule_proxy.Go.Sorting.{slice_stable-contains, KeepsMembers}
use capsule_proxy.Modules.Classes.{
  ClassGrants, no_classes, add_tenants, collect_classes, is_class_named, class_names,
}
use capsule_proxy.Modules.ExactClasses.{IsOrdered, search_exact-total, search_exact-eq-contains}
use capsule_proxy.Modules.ClassAccess.{accepts, is_ok_true, tenant_permits, add_tenants-accepts}

pub named_sound :
    (g : ClassGrants) (v : String) → is_ok_true (is_class_named g v) ≡ true → accepts g v ≡ true
unfolding is_class_named
named_sound g v h = elim (Bool-cases (any (λ m. m v) g.regex)) [
  | inl t ↦ rw t refl
  | inr f ↦
      let (found, answered, sound) = search_exact-total g.exact v in
      let yes_found : found ≡ true = rw (f, answered, is_class_named) at h in
      ground (arith, f, sound, yes_found)
]

pub named_exactly :
    (g : ClassGrants) (v : String)
    → IsOrdered g.exact
    → is_ok_true (is_class_named g v) ≡ accepts g v
unfolding is_class_named
named_exactly g v ordered = elim (Bool-cases (any (λ m. m v) g.regex)) [
  | inl t ↦ rw (t, is_class_named) refl
  | inr f ↦ rw (f, search_exact-eq-contains g.exact v ordered, is_class_named) refl
]

pub class_names-contains :
    (g : ClassGrants) (listed names : List String) (v : String)
    → class_names g listed ≡ ok names
    → contains names v ≡ (contains listed v && is_ok_true (is_class_named g v))
unfolding class_names contains
class_names-contains g [] names v h = sym (ap (λ ns. contains ns v) (ok_injective h))
class_names-contains g (n ∷ listed) names v h =
    let (named, known, later) = >>=-eq-ok (is_class_named g n) _ h in
    let (rest, others, made) = >>=-eq-ok (class_names g listed) _ later in
    let ih = class_names-contains g listed rest v others in
    sym (ap (λ ns. contains ns v) (ok_injective made)) ∙ elim (Bool-cases (n == v)) [
      | inl same ↦
          let here : is_ok_true (is_class_named g v) ≡ named =
            subst (λ u. is_ok_true (is_class_named g u) ≡ named) ((eq_iff n v).0 same)
              (ap is_ok_true known) in
          ground (arith, here, same, ih)
      | inr other ↦ ground (arith, other, ih)
    ]

pub class_names-total :
    (g : ClassGrants) (listed : List String)
    → (names : List String) × (class_names g listed ≡ ok names)
unfolding class_names is_class_named
class_names-total g [] = ([], refl)
class_names-total g (n ∷ listed) =
    let (rest, others) = class_names-total g listed in
    elim (Bool-cases (any (λ m. m n) g.regex)) [
      | inl t ↦ (n ∷ rest, rw (t, others, class_names, is_class_named) refl)
      | inr f ↦
          let (found, answered, sound) = search_exact-total g.exact n in
          (
            if found then n ∷ rest else rest,
            rw (f, answered, others, class_names, is_class_named) refl,
          )
    ]

-- What is collected from the tenants accepts exactly what they permit.
pub collected_accepts :
    (api : LabelApi) (compile : String → Option (String → Bool))
    (merged : List String → List String)
    → KeepsMembers merged
    → (method kind : String) (classes : Tenant → Option AllowedClasses) (pts : List ProxyTenant)
      (g : ClassGrants) (v : String)
    → collect_classes api compile method kind classes merged pts ≡ ok g
    → accepts g v ≡ any (tenant_permits compile method kind classes v) pts
unfolding collect_classes any contains
collected_accepts api compile merged keeps method kind classes pts g v h =
    let (g0, collected, made) =
      >>=-eq-ok (add_tenants api compile method kind classes pts no_classes) _ h in
    sym (ap (λ x. accepts x v) (ok_injective made))
    ∙ rw (slice_stable-contains merged keeps g0.exact v) refl
    ∙ add_tenants-accepts compile api method kind classes pts no_classes g0 v collected

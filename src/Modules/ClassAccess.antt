-- ===== src/Modules/ClassAccess.antt =====
-- Which classes internal/modules/{storageclass,priorityclass,ingressclass} let a subject list.
use capsule_proxy.Prelude.{
  String, ◌≡◌, refl, sym, ◌∙◌, ap, Bool, false, not, ◌&&◌, ◌||◌, Option, none, some, List, [], ◌∷◌,
  ◌++◌, ◌==◌, any, contains, contains-append, arith, if◌then◌else◌, Bool-cases, Option-cases,
  Result, ok, err, Result-cases, >>=-eq-ok, ok_injective, inl, inr,
}
use capsule_proxy.Errors.{Error}
use capsule_proxy.Labels.{LabelApi}
use capsule_proxy.Tenant.{AllowedClasses, Tenant, ProxyTenant, request_allowed}
use capsule_proxy.Modules.Classes.{ClassGrants, add_regex, add_classes, add_tenant, add_tenants}

pub any-append :
    {A : Type 0} (p : A → Bool) (xs ys : List A) → any p (xs ++ ys) ≡ (any p xs || any p ys)
unfolding any
any-append p [] ys = refl
any-append p (x ∷ xs) ys = ground (arith, any-append p xs ys)

regrouped : (a r b c d : Bool) → ((a || r) || ((b || c) || d)) ≡ ((a || b) || (c || d || r))
regrouped a r b c d = ground arith

-- What the collected names and matchers accept.
abbrev pub accepts : ClassGrants → String → Bool
accepts g v = any (λ matcher. matcher v) g.regex || contains g.exact v

abbrev pub is_ok_true : Result Error Bool → Bool
is_ok_true (ok b) = b
is_ok_true (err e) = false

abbrev pub matches_pattern : Option (String → Bool) → String → Bool
matches_pattern none v = false
matches_pattern (some matcher) v = matcher v

module _ (compile : String → Option (String → Bool)) where
  -- The classes that a tenant names: exactly, as its default, or by a pattern.
  abbrev pub permits : AllowedClasses → String → Bool
  permits c v =
      contains c.exact v
      || (not (c.default == "") && c.default == v)
      || (not (c.regex == "") && matches_pattern (compile c.regex) v)

  abbrev pub permits_option : Option AllowedClasses → String → Bool
  permits_option none v = false
  permits_option (some c) v = permits c v

  abbrev pub tenant_permits :
      String → String → (Tenant → Option AllowedClasses) → String → ProxyTenant → Bool
  tenant_permits method kind classes v pt =
      is_ok_true (request_allowed pt method kind) && permits_option (classes pt.tenant) v

  add_regex-any :
      (pattern : String) (regex regex' : List (String → Bool)) (v : String)
      → add_regex compile pattern regex ≡ ok regex'
      → any (λ m. m v) regex'
        ≡ (any (λ m. m v) regex || (not (pattern == "") && matches_pattern (compile pattern) v))
  unfolding add_regex any
  add_regex-any pattern regex regex' v h = elim (Bool-cases (pattern == "")) [
    | inl t ↦
        let same : regex ≡ regex' = cc (rw (t, add_regex) at h) in
        rw (t) (ground (arith, ap (any (λ m. m v)) same))
    | inr f ↦ elim (Option-cases (compile pattern)) [
      | inl wrong ↦ absurd (cc (rw (f, wrong, add_regex) at h))
      | inr (m, made) ↦
          let same : (regex ++ m ∷ []) ≡ regex' = cc (rw (f, made, add_regex) at h) in
          rw (f, made)
            (sym (ap (any (λ m. m v)) same) ∙ any-append (λ m. m v) regex (m ∷ []) ∙ ground arith)
    ]
  ]

  default-contains :
      (d v : String) → contains (if d == "" then [] else d ∷ []) v ≡ (not (d == "") && d == v)
  unfolding contains
  default-contains d v = ground arith

  module _ (api : LabelApi) where
    add_classes-accepts :
        (c : AllowedClasses) (g g' : ClassGrants) (v : String)
        → add_classes api compile c g ≡ ok g'
        → accepts g' v ≡ (accepts g v || permits c v)
    unfolding add_classes
    add_classes-accepts c g g' v h =
        let (regex, added, made) = >>=-eq-ok (add_regex compile c.regex g.regex) _ h in
        sym (ap (λ x. accepts x v) (ok_injective made))
        ∙ rw
            (
              add_regex-any c.regex g.regex regex v added,
              contains-append (g.exact ++ c.exact) (if c.default == "" then [] else c.default ∷ [])
                  v,
              contains-append g.exact c.exact v,
              default-contains c.default v,
            )
            (regrouped (any (λ m. m v) g.regex)
              (not (c.regex == "") && matches_pattern (compile c.regex) v) (contains g.exact v)
              (contains c.exact v) (not (c.default == "") && c.default == v))

    module _ (method kind : String) (classes : Tenant → Option AllowedClasses) where
      add_tenant-accepts :
          (pt : ProxyTenant) (g g' : ClassGrants) (v : String)
          → add_tenant api compile method kind classes pt g ≡ ok g'
          → accepts g' v ≡ (accepts g v || tenant_permits method kind classes v pt)
      unfolding add_tenant
      add_tenant-accepts pt g g' v h = elim (Result-cases (request_allowed pt method kind)) [
        | inr (e, wrong) ↦ absurd (cc (rw (wrong, add_tenant) at h))
        | inl (allowed, known) ↦ elim (Bool-cases allowed) [
          | inr f ↦
              let refused = known ∙ ap ok f in
              let same = ap (λ x. accepts x v) (ok_injective (rw (refused, add_tenant) at h)) in
              rw refused (sym same ∙ ground arith)
          | inl t ↦
              let granted = known ∙ ap ok t in
              elim (Option-cases (classes pt.tenant)) [
                | inl nothing ↦
                    let same =
                      ap (λ x. accepts x v)
                        (ok_injective (rw (granted, nothing, add_tenant) at h)) in
                    rw (granted, nothing) (sym same ∙ ground arith)
                | inr (c, there) ↦
                    rw (granted, there)
                      (add_classes-accepts c g g' v (rw (granted, there, add_tenant) at h))
              ]
        ]
      ]

      pub add_tenants-accepts :
          (pts : List ProxyTenant) (g g' : ClassGrants) (v : String)
          → add_tenants api compile method kind classes pts g ≡ ok g'
          → accepts g' v ≡ (accepts g v || any (tenant_permits method kind classes v) pts)
      unfolding add_tenants any
      add_tenants-accepts [] g g' v h = sym (ap (λ x. accepts x v) (ok_injective h)) ∙ ground arith
      add_tenants-accepts (pt ∷ pts) g g' v h =
          let (g1, first, rest) = >>=-eq-ok (add_tenant api compile method kind classes pt g) _ h in
          add_tenants-accepts pts g1 g' v rest ∙ ground (arith, add_tenant-accepts pt g g1 v first)

-- ===== src/RoleBindings/Namespaces.antt =====
-- Which namespaces the lookup returns.
use mathlib.Core.List.{Memᴰ}
use capsule_proxy.Prelude.{
  ◌↔◌, eq_iff, any-Mem, String, ◌≡◌, ap, ◌∙◌, sym, Bool, true, false, ◌&&◌, ◌||◌, List, [], ◌∷◌,
  ◌==◌, if◌then◌else◌, Result, ok, err, any, contains, arith, Result-cases, inl, inr,
}
use capsule_proxy.Errors.{Error}
use capsule_proxy.RoleBindings.Index.{RoleBinding}
use capsule_proxy.RoleBindings.Lookup.{
  PolicyRule, policy_rule_allows, Reader, KeepsMembers, rules_of, allowed_by, bound_namespaces,
  get_role_bindings_for_subject, get_user_namespaces_for_resource,
}
use capsule_proxy.RoleBindings.Roles.{
  Opens, policy_rule_allows-Allows, rules_of-RoleRules, RoleRules-rules_of,
}

module _ (r : Reader) (verb api_group resource : String) where
  abbrev allowed : Result Error (List PolicyRule) → Bool
  allowed (err e) = false
  allowed (ok rules) = allowed_by r verb api_group resource rules

  -- The role of the binding is found and one of its rules allows the verb on the resource.
  unfoldable pub opens : RoleBinding → Bool
  opens b = allowed (rules_of r b)

  contains_cons :
      (t : Bool) (n : String) (acc : List String) (x : String)
      → contains (if t then n ∷ acc else acc) x ≡ ((n == x && t) || contains acc x)
  unfolding contains any
  contains_cons true n acc x = ground arith
  contains_cons false n acc x = ground arith

  bound_namespaces-contains :
      (bs : List RoleBinding) (acc ns : List String) (x : String)
      → bound_namespaces r verb api_group resource bs acc ≡ ok ns
      → contains ns x ≡ (any (λ b. b.namespace == x && opens b) bs || contains acc x)
  unfolding bound_namespaces opens any
  bound_namespaces-contains [] acc ns x h = cc h
  bound_namespaces-contains (b ∷ bs) acc ns x h = elim (Result-cases (rules_of r b)) [
    | inr (e, wrong) ↦ absurd (ground (arith, h, wrong))
    | inl (rules, got) ↦
        let next : List String =
          (if allowed_by r verb api_group resource rules then b.namespace ∷ acc else acc) in
        let rest : contains ns x ≡ (any (λ b. b.namespace == x && opens b) bs || contains next x) =
          bound_namespaces-contains bs next ns x (rw (got, bound_namespaces) at h) in
        rest
        ∙ grind (
          arith,
          contains_cons (allowed_by r verb api_group resource rules) b.namespace acc x,
          got,
        )
  ]

  opens-Opens :
      (b : RoleBinding) (x : String)
      → ((b.namespace == x && opens b) ≡ true) ↔ Opens r verb api_group resource x b
  unfolding opens
  opens-Opens b x = (
    λ h.
        let here = (eq_iff b.namespace x).0 (ground (arith, h)) in
        elim (Result-cases (rules_of r b)) [
          | inr (e, wrong) ↦
              let open_here : opens b ≡ true = ground (arith, h) in
              absurd (cc (rw wrong at open_here))
          | inl (rules, got) ↦
              let open_here : opens b ≡ true = ground (arith, h) in
              let (rule, m, allowing) =
                (any-Mem (λ rule. policy_rule_allows rule verb api_group resource) rules).0
                  (rw got at open_here) in
              record {
                here = here;
                rules = rules;
                of_role = rules_of-RoleRules r b rules rule got m;
                rule = rule;
                listed = m;
                allows = (policy_rule_allows-Allows verb api_group resource rule).0 allowing;
              }
        ],
    λ o.
        let name : (b.namespace == x) ≡ true = (eq_iff b.namespace x).1 o.here in
        let got = RoleRules-rules_of r b o.rules o.of_role in
        let allowing : allowed_by r verb api_group resource o.rules ≡ true =
          (any-Mem (λ rule. policy_rule_allows rule verb api_group resource) o.rules).1 (
            o.rule,
            o.listed,
            (policy_rule_allows-Allows verb api_group resource o.rule).1 o.allows,
          ) in
        rw (name, got) allowing,
  )

  -- The namespaces that are returned are exactly those of the bindings that the lookup answers for the
  -- subject, by the index of the reflected bindings, whose Role or ClusterRole can be read and has a
  -- rule without resource names that lists the verb, the API group and the resource, or a star for any
  -- of them.
  pub get_user_namespaces-contains :
      KeepsMembers r.sorted
      → (username : String) (groups ns : List String)
      → get_user_namespaces_for_resource r verb api_group resource username groups ≡ ok ns
      → (bs : List RoleBinding) × (get_role_bindings_for_subject r username groups
            "reflectionSubjectIndex"
          ≡ ok bs)
        × ((x : String)
            → (contains ns x ≡ true)
              ↔ ((b : RoleBinding) × Memᴰ b bs × Opens r verb api_group resource x b))
  unfolding get_user_namespaces_for_resource contains
  get_user_namespaces-contains keeps username groups ns h =
      elim (Result-cases
        (get_role_bindings_for_subject r username groups "reflectionSubjectIndex")) [
          | inr (e, wrong) ↦ absurd (cc (rw (wrong, get_user_namespaces_for_resource) at h))
          | inl (bs, got) ↦ elim (Result-cases (bound_namespaces r verb api_group resource bs [])) [
            | inr (e, wrong) ↦ absurd (cc (rw (got, wrong, get_user_namespaces_for_resource) at h))
            | inl (raw, walked) ↦ (
              bs,
              got,
              λ x.
                  let answer : r.sorted raw ≡ ns =
                    cc (rw (got, walked, get_user_namespaces_for_resource) at h) in
                  let whole : contains raw x
                      ≡ (any (λ b. b.namespace == x && opens b) bs || contains [] x) =
                    bound_namespaces-contains bs [] raw x walked in
                  let wanted : RoleBinding → Bool = λ b. b.namespace == x && opens b in
                  let exactly : contains ns x ≡ any wanted bs =
                    ap (λ l. contains l x) (sym answer)
                    ∙ keeps.members raw x
                    ∙ whole
                    ∙ ground arith in
                  (
                    λ t.
                        let (b, m, both) = (any-Mem wanted bs).0 (sym exactly ∙ t) in
                        (b, m, (opens-Opens b x).0 both),
                    λ (b, m, o). exactly ∙ (any-Mem wanted bs).1 (b, m, (opens-Opens b x).1 o),
                  ),
            )
          ]
        ]

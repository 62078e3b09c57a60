-- ===== src/RoleBindings/Roles.antt =====
-- What a role allows, and the role of a binding.
use mathlib.Core.List.{Memᴰ}
use mathlib.Core.List.Memᴰ
use capsule_proxy.Prelude.{
  refl, ◌⊎◌, ◌↔◌, subst, eq_iff, eq_refl, ok_injective, is_empty, is_empty-nil, any-Mem, Bool-cases,
  String, ◌≡◌, ap, sym, Bool, true, ◌||◌, List, [], ◌==◌, Result, ok, err, arith, inl, inr,
}
use capsule_proxy.Errors.{Error, fault}
use capsule_proxy.RoleBindings.Index.{RoleBinding}
use capsule_proxy.RoleBindings.Lookup.{
  PolicyRule, Found, hit, not_found, failed, matches_rbac_value, policy_rule_allows, Reader,
  rules_of,
}

-- A list of values of a rule has the value or a star.
abbrev pub Lists : List String → String → Type 0
Lists values requested = Memᴰ "*" values ⊎ Memᴰ requested values

-- A rule that names no objects allows the verb on the resource of the group.
pub record Allows (verb api_group resource : String) (rule : PolicyRule) : Type 0 where
  pub no_names : rule.resource_names ≡ []
  pub verb_listed : Lists rule.verbs verb
  pub group_listed : Lists rule.api_groups api_group
  pub resource_listed : Lists rule.resources resource

-- The role that the binding refers to is read, with its rules.
pub data RoleRules (r : Reader) (b : RoleBinding) (rules : List PolicyRule) : Type 0 where
  role :
      b.role_ref.api_group ≡ "rbac.authorization.k8s.io"
      → b.role_ref.kind ≡ "Role"
      → r.role b.namespace b.role_ref.name ≡ hit rules
      → RoleRules r b rules
  cluster_role :
      b.role_ref.api_group ≡ "rbac.authorization.k8s.io"
      → b.role_ref.kind ≡ "ClusterRole"
      → r.cluster_role b.role_ref.name ≡ hit rules
      → RoleRules r b rules

-- A binding of the namespace whose role has a rule that allows the verb on the resource.
pub record Opens (r : Reader) (verb api_group resource namespace : String) (b : RoleBinding)
    : Type 0 where
  pub here : b.namespace ≡ namespace
  pub rules : List PolicyRule
  pub of_role : RoleRules r b rules
  pub rule : PolicyRule
  pub listed : Memᴰ rule rules
  pub allows : Allows verb api_group resource rule

matches-Lists :
    (values : List String) (requested : String)
    → (matches_rbac_value values requested ≡ true) ↔ Lists values requested
unfolding matches_rbac_value
matches-Lists values requested =
    let test : String → Bool = λ v. v == "*" || v == requested in
    (
      λ h.
          let (v, m, either) = (any-Mem test values).0 h in
          elim (Bool-cases (v == "*")) [
            | inl star ↦ inl (subst (λ x. Memᴰ x values) ((eq_iff v "*").0 star) m)
            | inr f ↦
                inr (
                  subst (λ x. Memᴰ x values) ((eq_iff v requested).0 (ground (arith, either, f))) m)
          ],
      λ e. elim e [
        | inl star ↦ (any-Mem test values).1 ("*", star, refl)
        | inr m ↦
            let same = eq_refl requested in
            (any-Mem test values).1 (requested, m, ground (arith, same))
      ],
    )

pub policy_rule_allows-Allows :
    (verb api_group resource : String) (rule : PolicyRule)
    → (policy_rule_allows rule verb api_group resource ≡ true) ↔ Allows verb api_group resource rule
unfolding policy_rule_allows
policy_rule_allows-Allows verb api_group resource rule = (
  λ h. record {
    no_names = is_empty-nil rule.resource_names (ground (arith, h));
    verb_listed = (matches-Lists rule.verbs verb).0 (ground (arith, h));
    group_listed = (matches-Lists rule.api_groups api_group).0 (ground (arith, h));
    resource_listed = (matches-Lists rule.resources resource).0 (ground (arith, h));
  },
  λ a.
      let none_named : is_empty rule.resource_names ≡ true = ap is_empty a.no_names in
      let of_verb = (matches-Lists rule.verbs verb).1 a.verb_listed in
      let of_group = (matches-Lists rule.api_groups api_group).1 a.group_listed in
      let of_resource = (matches-Lists rule.resources resource).1 a.resource_listed in
      rw (none_named, of_verb, of_group, of_resource) refl,
)

read_rules :
    (f : Found (List PolicyRule)) (rules : List PolicyRule) (rule : PolicyRule)
    → ◌≡◌ {A = Result Error (List PolicyRule)}
        (elim f [
          | hit found ↦ ok found
          | not_found ↦ ok []
          | failed e ↦ err (fault "Unable to find role in cache")
        ])
        (ok rules)
    → Memᴰ rule rules
    → f ≡ hit rules
read_rules (hit found) rules rule h m = ap hit (ok_injective h)
read_rules not_found rules rule h m =
    absurd (Memᴰ.not-nil (subst (λ l. Memᴰ rule l) (sym (ok_injective h)) m))
read_rules (failed e) rules rule h m = absurd (cc h)

pub rules_of-RoleRules :
    (r : Reader) (b : RoleBinding) (rules : List PolicyRule) (rule : PolicyRule)
    → rules_of r b ≡ ok rules
    → Memᴰ rule rules
    → RoleRules r b rules
unfolding rules_of
rules_of-RoleRules r b rules rule h m =
    let nothing : ok [] ≡ ok rules → RoleRules r b rules = λ e.
      let missing : ◌≡◌ {A = Found (List PolicyRule)} not_found (hit rules) =
        read_rules not_found rules rule e m in
      absurd (cc missing) in
    elim (Bool-cases (b.role_ref.api_group == "rbac.authorization.k8s.io")) [
      | inr f ↦ nothing (rw (f, rules_of) at h)
      | inl t ↦
          let group = (eq_iff b.role_ref.api_group "rbac.authorization.k8s.io").0 t in
          elim (Bool-cases (b.role_ref.kind == "Role")) [
            | inl k ↦ role group ((eq_iff b.role_ref.kind "Role").0 k) (
                read_rules (r.role b.namespace b.role_ref.name) rules rule
                  (rw (t, k, rules_of) at h) m)
            | inr n ↦ elim (Bool-cases (b.role_ref.kind == "ClusterRole")) [
              | inr o ↦ nothing (rw (t, n, o, rules_of) at h)
              | inl k ↦ cluster_role group ((eq_iff b.role_ref.kind "ClusterRole").0 k) (
                  read_rules (r.cluster_role b.role_ref.name) rules rule
                    (rw (t, n, k, rules_of) at h) m)
            ]
          ]
    ]

pub RoleRules-rules_of :
    (r : Reader) (b : RoleBinding) (rules : List PolicyRule)
    → RoleRules r b rules
    → rules_of r b ≡ ok rules
unfolding rules_of
RoleRules-rules_of r b rules (role group kind found) = rw (group, kind, found) refl
RoleRules-rules_of r b rules (cluster_role group kind found) = rw (group, kind, found) refl

-- ===== src/Filter/Added.antt =====
-- The resources that `NewClusterProxy` of internal/tenant/proxytenant.go adds for a subject.
use mathlib.Core.List.{Memᴰ}
use mathlib.Core.List.Memᴰ
use capsule_proxy.Prelude.{
  String, ◌≡◌, sym, ◌∙◌, subst, ap, true, ◌&&◌, List, [], ◌∷◌, ◌==◌, inl, inr, Bool-cases,
}
use capsule_proxy.Cluster.Resource.{ClusterResource}
use capsule_proxy.Tenant.{GlobalSubject, GlobalSubjectSpec, add_for_subjects, add_for_rules}

module _ (name kind : String) where
  for_subjects-keeps :
      (granted : List ClusterResource) (subjects : List GlobalSubject)
      (found : List ClusterResource) (cr : ClusterResource)
      → Memᴰ cr found
      → Memᴰ cr (add_for_subjects name kind granted subjects found)
  unfolding add_for_subjects
  for_subjects-keeps granted [] found cr m = m
  for_subjects-keeps granted (s ∷ ss) found cr m =
      for_subjects-keeps granted ss _ cr (elim (Bool-cases (s.name == name && s.kind == kind)) [
        | inl t ↦ rw t (Memᴰ.append_left granted m)
        | inr f ↦ rw f m
      ])

  for_subjects-adds :
      (granted : List ClusterResource) (subjects : List GlobalSubject)
      (found : List ClusterResource) (cr : ClusterResource) (s : GlobalSubject)
      → Memᴰ s subjects
      → (s.name == name && s.kind == kind) ≡ true
      → Memᴰ cr granted
      → Memᴰ cr (add_for_subjects name kind granted subjects found)
  unfolding add_for_subjects
  for_subjects-adds granted [] found cr s m is c = elim m [ ]
  for_subjects-adds granted (x ∷ ss) found cr s m is c = elim (Memᴰ.cases_cons m) [
    | inr later ↦ for_subjects-adds granted ss _ cr s later is c
    | inl same ↦
        let t : (x.name == name && x.kind == kind) ≡ true =
          ap (λ (y : GlobalSubject). y.name == name && y.kind == kind) (sym same) ∙ is in
        for_subjects-keeps granted ss _ cr (rw t (Memᴰ.append_right found c))
  ]

  for_rules-keeps :
      (rules : List GlobalSubjectSpec) (found : List ClusterResource) (cr : ClusterResource)
      → Memᴰ cr found
      → Memᴰ cr (add_for_rules name kind rules found)
  unfolding add_for_rules
  for_rules-keeps [] found cr m = m
  for_rules-keeps (r ∷ rs) found cr m =
      for_rules-keeps rs _ cr (for_subjects-keeps r.cluster_resources r.subjects found cr m)

  pub for_rules-adds :
      (rules : List GlobalSubjectSpec) (found : List ClusterResource) (cr : ClusterResource)
      (rule : GlobalSubjectSpec) (s : GlobalSubject)
      → Memᴰ rule rules
      → Memᴰ s rule.subjects
      → (s.name == name && s.kind == kind) ≡ true
      → Memᴰ cr rule.cluster_resources
      → Memᴰ cr (add_for_rules name kind rules found)
  unfolding add_for_rules
  for_rules-adds [] found cr rule s m n is c = elim m [ ]
  for_rules-adds (r ∷ rs) found cr rule s m n is c = elim (Memᴰ.cases_cons m) [
    | inr later ↦ for_rules-adds rs _ cr rule s later n is c
    | inl same ↦ for_rules-keeps rs _ cr (
        for_subjects-adds r.cluster_resources r.subjects found cr s
          (subst (λ x. Memᴰ s x.subjects) same n) is
          (subst (λ x. Memᴰ cr x.cluster_resources) same c))
  ]

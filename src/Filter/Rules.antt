-- ===== src/Filter/Rules.antt =====
-- Where the cluster-scoped rules of a subject come from.
use mathlib.Core.List.{Memᴰ}
use mathlib.Core.List.Memᴰ
use capsule_proxy.Prelude.{
  String, ◌≡◌, refl, true, ◌&&◌, List, [], ◌∷◌, ◌++◌, ◌==◌, if◌then◌else◌, ◌⊎◌, inl, inr,
  Bool-cases,
}
use capsule_proxy.Cluster.Resource.{ClusterResource}
use capsule_proxy.Tenant.{
  OwnerSpec, GlobalSubject, GlobalSubjectSpec, selected, owner_cluster_resources, add_for_subjects,
  add_for_rules,
}

-- An owner of a list that is the subject has the rule.
pub record OfOwner (name kind : String) (owners : List OwnerSpec) (cr : ClusterResource)
    : Type 0 where
  pub owner : OwnerSpec
  pub listed : Memᴰ owner owners
  pub is_subject : selected name kind owner ≡ true
  pub given : Memᴰ cr owner.cluster_resources

-- A rule of a list has the resource and names the subject.
pub record OfRule (name kind : String) (rules : List GlobalSubjectSpec) (cr : ClusterResource)
    : Type 0 where
  pub rule : GlobalSubjectSpec
  pub subject : GlobalSubject
  pub listed : Memᴰ rule rules
  pub named : Memᴰ subject rule.subjects
  pub is_subject : (subject.name == name && subject.kind == kind) ≡ true
  pub given : Memᴰ cr rule.cluster_resources

module _ (name kind : String) where
  pub owner_resources-OfOwner :
      (owners : List OwnerSpec) (found : List ClusterResource) (cr : ClusterResource)
      → Memᴰ cr (owner_cluster_resources name kind found owners)
      → Memᴰ cr found ⊎ OfOwner name kind owners cr
  unfolding owner_cluster_resources
  owner_resources-OfOwner [] found cr m = inl m
  owner_resources-OfOwner (o ∷ os) found cr m =
      elim (owner_resources-OfOwner os (if selected name kind o then o.cluster_resources else found)
        cr m) [
          | inr g ↦ inr (record {
            owner = g.owner;
            listed = Memᴰ.tail g.listed;
            is_subject = g.is_subject;
            given = g.given;
          })
          | inl before ↦ elim (Bool-cases (selected name kind o)) [
            | inl t ↦ inr (record {
              owner = o;
              listed = Memᴰ.head refl;
              is_subject = t;
              given = rw t at before;
            })
            | inr f ↦ inl (rw f at before)
          ]
        ]

  for_subjects-named :
      (granted : List ClusterResource) (subjects : List GlobalSubject)
      → (found : List ClusterResource) (cr : ClusterResource)
      → Memᴰ cr (add_for_subjects name kind granted subjects found)
      → Memᴰ cr found
        ⊎ ((s : GlobalSubject) × Memᴰ s subjects
            × ((s.name == name && s.kind == kind) ≡ true)
            × Memᴰ cr granted)
  unfolding add_for_subjects
  for_subjects-named granted [] found cr m = inl m
  for_subjects-named granted (s ∷ ss) found cr m =
      elim (for_subjects-named granted ss
        (if s.name == name && s.kind == kind then found ++ granted else found) cr m) [
          | inr (x, listed, is, given) ↦ inr (x, Memᴰ.tail listed, is, given)
          | inl before ↦ elim (Bool-cases (s.name == name && s.kind == kind)) [
            | inr f ↦ inl (rw f at before)
            | inl t ↦ elim (Memᴰ.append_cases found (rw t at before)) [
              | inl old ↦ inl old
              | inr new ↦ inr (s, Memᴰ.head refl, t, new)
            ]
          ]
        ]

  pub for_rules-OfRule :
      (rules : List GlobalSubjectSpec) (found : List ClusterResource) (cr : ClusterResource)
      → Memᴰ cr (add_for_rules name kind rules found)
      → Memᴰ cr found ⊎ OfRule name kind rules cr
  unfolding add_for_rules
  for_rules-OfRule [] found cr m = inl m
  for_rules-OfRule (r ∷ rs) found cr m =
      elim (for_rules-OfRule rs (add_for_subjects name kind r.cluster_resources r.subjects found) cr
        m) [
          | inr g ↦ inr (record {
            rule = g.rule;
            subject = g.subject;
            listed = Memᴰ.tail g.listed;
            named = g.named;
            is_subject = g.is_subject;
            given = g.given;
          })
          | inl before ↦ elim (for_subjects-named r.cluster_resources r.subjects found cr before) [
            | inl old ↦ inl old
            | inr (s, named, is, given) ↦ inr (record {
              rule = r;
              subject = s;
              listed = Memᴰ.head refl;
              named = named;
              is_subject = is;
              given = given;
            })
          ]
        ]

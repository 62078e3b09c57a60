-- ===== src/Modules/ListedClasses.antt =====
-- The answers to a list of storage, priority or ingress classes, of the body that the three packages
-- of internal/modules share.
use mathlib.Core.List.{Memᴰ}
use mathlib.Core.List.Memᴰ
use capsule_proxy.Prelude.{
  String, ◌≡◌, refl, sym, ◌∙◌, subst, Bool, true, false, ◌&&◌, Option, some, List, [], ◌∷◌, any,
  contains, is_empty, arith, if◌then◌else◌, Bool-cases, ok, err, Result-cases, >>=-eq-ok,
  ok_injective, inl, inr,
}
use capsule_proxy.Errors.{Error, GroupKind, fault}
use capsule_proxy.Labels.{
  LabelApi, Requirement, Selector, KeepsFields, in_operator, exists_operator,
}
use capsule_proxy.Tenant.{AllowedClasses, Tenant, ProxyTenant}
use capsule_proxy.Go.Sorting.{KeepsMembers}
use capsule_proxy.Modules.Classes.{
  ClassGrants, metadata_name, collect_classes, is_class_named, class_names, class_selector,
}
use capsule_proxy.Modules.ClassHandlers.{listed_classes, list_classes}
use capsule_proxy.Modules.ClusterScoped.{ignored_key}
use capsule_proxy.Modules.ExactClasses.{IsOrdered}
use capsule_proxy.Modules.ClassAccess.{accepts, is_ok_true, tenant_permits}
use capsule_proxy.Modules.NamedClasses.{
  named_sound, named_exactly, class_names-contains, class_names-total, collected_accepts,
}

member-nonempty : (xs : List String) (v : String) → contains xs v ≡ true → is_empty xs ≡ false
unfolding contains
member-nonempty [] v h = absurd (cc h)
member-nonempty (x ∷ xs) v h = refl

module _ (api : LabelApi) (gk : GroupKind) (message : String) where
  list_classes-inner :
      (g : ClassGrants) (listed : List String) (selector : Selector)
      → is_empty g.requirements ≡ true
      → list_classes api gk (class_selector api message) (ok g) (ok listed) ≡ ok (some selector)
      → (names : List String) × (class_names g listed ≡ ok names)
        × (listed_classes api gk g.allowed (
              if is_empty names
              then err (fault message)
              else api.new_requirement metadata_name in_operator names)
            ≡ ok (some selector))
  unfolding list_classes class_selector
  list_classes-inner g listed selector free h =
      let (inner, selected, answered) =
        >>=-eq-ok (class_selector api message g listed) _ (rw (free, list_classes) at h) in
      let (names, named, made) = >>=-eq-ok (class_names g listed) _ selected in
      (
        names,
        named,
        subst (λ r. listed_classes api gk g.allowed r ≡ ok (some selector))
            (sym (ok_injective made)) answered,
      )

  module _ (fields : KeepsFields api) (q : Requirement) (v : String) where
    ignored_value :
        (allowed : Bool) (e : Error) (selector : Selector)
        → listed_classes api gk allowed (err e) ≡ ok (some selector)
        → Memᴰ q selector
        → ¬ (contains q.values v ≡ true)
    unfolding listed_classes contains
    ignored_value allowed e selector h m there = elim (Bool-cases allowed) [
      | inr f ↦ absurd (cc (rw (f, listed_classes) at h))
      | inl t ↦ elim (Result-cases (api.new_requirement ignored_key exists_operator [])) [
        | inr (e', wrong) ↦ absurd (cc (rw (t, wrong, listed_classes) at h))
        | inl (r, made) ↦
            let alone : r ∷ [] ≡ selector = cc (rw (t, made, listed_classes) at h) in
            let same = Memᴰ.eq_of_singleton (subst (λ s. Memᴰ q s) (sym alone) m) in
            let nothing = (fields.fields ignored_key exists_operator [] r made).2 v in
            let here : contains r.values v ≡ true =
              subst (λ x. contains x.values v ≡ true) same there in
            cc (nothing, here)
      ]
    ]

    listed_value :
        (allowed : Bool) (names : List String) (selector : Selector)
        → listed_classes api gk allowed (
            if is_empty names
            then err (fault message)
            else api.new_requirement metadata_name in_operator names)
          ≡ ok (some selector)
        → Memᴰ q selector
        → contains q.values v ≡ true
        → contains names v ≡ true
    unfolding listed_classes
    listed_value allowed names selector h m there = elim (Bool-cases (is_empty names)) [
      | inl none_named ↦
          absurd (ignored_value allowed (fault message) selector (rw none_named at h) m there)
      | inr some_named ↦ elim (Result-cases (api.new_requirement metadata_name in_operator names)) [
        | inr (e, wrong) ↦
            absurd (ignored_value allowed e selector (rw (some_named, wrong) at h) m there)
        | inl (r, made) ↦
            let alone : r ∷ [] ≡ selector = cc (rw (some_named, made, listed_classes) at h) in
            let same = Memᴰ.eq_of_singleton (subst (λ s. Memᴰ q s) (sym alone) m) in
            let here : contains r.values v ≡ true =
              subst (λ x. contains x.values v ≡ true) same there in
            sym ((fields.fields metadata_name in_operator names r made).2 v) ∙ here
      ]
    ]

-- Where no tenant has a selector of classes, a name among the values of the requirement that answers a
-- list of storage, priority or ingress classes is the name of a listed class that some tenant which
-- allows the request permits: exactly, as its default, or by its pattern.
pub list_classes-permitted :
    (api : LabelApi)
    → KeepsFields api
    → (compile : String → Option (String → Bool)) (merged : List String → List String)
    → KeepsMembers merged
    → (gk : GroupKind) (message method kind : String) (classes : Tenant → Option AllowedClasses)
      (pts : List ProxyTenant) (g : ClassGrants)
    → collect_classes api compile method kind classes merged pts ≡ ok g
    → is_empty g.requirements ≡ true
    → (listed : List String) (selector : Selector)
    → list_classes api gk
        (class_selector api message)
        (collect_classes api compile method kind classes merged pts)
        (ok listed)
      ≡ ok (some selector)
    → (q : Requirement) → Memᴰ q selector
    → (v : String) → contains q.values v ≡ true
    → (contains listed v ≡ true) × (any (tenant_permits compile method kind classes v) pts ≡ true)
list_classes-permitted api fields compile merged keeps gk message method kind classes pts g
      collected free listed selector h q m v there =
    let answered =
      subst
        (λ c. list_classes api gk (class_selector api message) c (ok listed) ≡ ok (some selector))
        collected h in
    let (names, named, made) = list_classes-inner api gk message g listed selector free answered in
    let member = listed_value api gk message fields q v g.allowed names selector made m there in
    let both = sym (class_names-contains g listed names v named) ∙ member in
    let accepted : accepts g v ≡ true = named_sound g v (ground (arith, both)) in
    (
      ground (arith, both),
      sym (collected_accepts api compile merged keeps method kind classes pts g v collected)
          ∙ accepted,
    )

-- Where no tenant has a selector of classes, the collected exact names are in order and requirements can
-- be made from listed names, a listed class that some tenant which allows the request permits is among
-- the values of the one requirement that answers a list of storage, priority or ingress classes.
pub list_classes_complete :
    (api : LabelApi)
    → KeepsFields api
    → (compile : String → Option (String → Bool)) (merged : List String → List String)
    → KeepsMembers merged
    → (gk : GroupKind) (message method kind : String) (classes : Tenant → Option AllowedClasses)
      (pts : List ProxyTenant) (g : ClassGrants)
    → collect_classes api compile method kind classes merged pts ≡ ok g
    → is_empty g.requirements ≡ true
    → IsOrdered g.exact
    → (listed : List String)
    → ((vs : List String)
        → ((u : String) → contains vs u ≡ true → contains listed u ≡ true)
        → is_empty vs ≡ false
        → (r : Requirement) × (api.new_requirement metadata_name in_operator vs ≡ ok r))
    → (v : String) → contains listed v ≡ true
    → any (tenant_permits compile method kind classes v) pts ≡ true
    → (q : Requirement) × (list_classes api gk
          (class_selector api message)
          (collect_classes api compile method kind classes merged pts)
          (ok listed)
        ≡ ok (some (q ∷ [])))
      × (q.key ≡ metadata_name)
      × (q.operator ≡ in_operator)
      × (contains q.values v ≡ true)
unfolding list_classes class_selector listed_classes
list_classes_complete api fields compile merged keeps gk message method kind classes pts g collected
      free ordered listed makes v there permitted =
    let accepted : accepts g v ≡ true =
      collected_accepts api compile merged keeps method kind classes pts g v collected
      ∙ permitted in
    let (names, named) = class_names-total g listed in
    let values : (u : String)
        → contains names u ≡ (contains listed u && is_ok_true (is_class_named g u)) =
      λ u. class_names-contains g listed names u named in
    let exactly = named_exactly g v ordered in
    let member : contains names v ≡ true = values v ∙ ground (arith, there, exactly, accepted) in
    let some_named = member-nonempty names v member in
    let (q, made) =
      makes names (λ u mu. let both = sym (values u) ∙ mu in ground (arith, both)) some_named in
    let kept = fields.fields metadata_name in_operator names q made in
    (
      q,
      rw (collected, free, named, some_named, made, list_classes, class_selector) refl,
      kept.0,
      kept.1,
      kept.2 v ∙ member,
    )

-- ===== src/Modules/ClusterAccess.antt =====
-- What a list and a GET of a cluster-scoped resource are answered with.
use mathlib.Core.List.{Memᴰ}
use mathlib.Core.List.Memᴰ
use capsule_proxy.Prelude.{
  String, ◌≡◌, refl, true, Option, none, some, List, [], ◌∷◌, ◌==◌, ok, is_empty, inl, inr,
  Result-cases, Option-cases, Bool-cases,
}
use capsule_proxy.Labels.{Labels, Requirement, Selector, LabelApi}
use capsule_proxy.Tenant.{ProxyTenant}
use capsule_proxy.Request.Http.{HttpRequest}
use capsule_proxy.Cluster.Resource.{get_operation}
use capsule_proxy.Cluster.Scope.{GroupVersionKind, get_cluster_scope_requirements}
use capsule_proxy.Cluster.Grants.{Granted, requirements_iff}
use capsule_proxy.RoleBindings.Lookup.{Found, Found-cases, hit}
use capsule_proxy.Modules.ClusterScoped.{handle_selector, handle_get}
use capsule_proxy.Modules.Gvk.{get_gvk_from_url, replace_plural_with_kind, Discovery}
use capsule_proxy.Modules.Selector.{first_matching}
use capsule_proxy.Modules.Matching.{first_matching_sound}

module _ (api : LabelApi) (pts : List ProxyTenant) (r : HttpRequest) where
  abbrev Grants : String → Requirement → Type 0
  Grants operation req = Granted api (get_gvk_from_url r.path) operation pts req

  abbrev found : String → List Requirement
  found operation = get_cluster_scope_requirements api (get_gvk_from_url r.path) operation pts

  selected :
      (discovery : Discovery) (reader : GroupVersionKind → String → Found Labels)
      → (url : Option GroupVersionKind) (rs : List Requirement) (name : String)
        (selector : Selector)
      → handle_selector api pts r discovery reader url rs name ≡ ok (some selector)
      → (gvk kind : GroupVersionKind) × (labels : Labels) × (req : Requirement) × (url ≡ some gvk)
        × (replace_plural_with_kind discovery gvk ≡ ok kind)
        × (reader kind name ≡ hit labels)
        × (selector ≡ req ∷ [])
        × Memᴰ req rs
        × (api.matches req labels ≡ true)
  unfolding handle_selector
  selected discovery reader none rs name selector h = absurd (cc h)
  selected discovery reader (some gvk) rs name selector h =
      elim (Result-cases (replace_plural_with_kind discovery gvk)) [
        | inr (e, wrong) ↦ absurd (cc (rw (wrong, handle_selector) at h))
        | inl (kind, replaced) ↦ elim (Found-cases (reader kind name)) [
          | inr (inl missing) ↦ absurd (cc (rw (replaced, missing, handle_selector) at h))
          | inr (inr (e, wrong)) ↦ absurd (cc (rw (replaced, wrong, handle_selector) at h))
          | inl (labels, read) ↦ elim (Option-cases (first_matching api rs labels)) [
            | inl nothing ↦ absurd (cc (rw (replaced, read, nothing, handle_selector) at h))
            | inr (q, first) ↦
                let sound = first_matching_sound api rs labels q first in
                (
                  gvk,
                  kind,
                  labels,
                  q,
                  refl,
                  replaced,
                  read,
                  cc (rw (replaced, read, first, handle_selector) at h),
                  sound.0,
                  sound.1,
                )
          ]
        ]
      ]

  -- A GET of an object is answered by a selector only where the object exists, and then by one
  -- requirement that is granted for GET and that the labels of the object match.
  pub handle_get-granted :
      (discovery : Discovery) (reader : GroupVersionKind → String → Found Labels)
      → (name : String) (selector : Selector)
      → handle_get api pts r discovery reader name ≡ ok (some selector)
      → (gvk kind : GroupVersionKind) × (labels : Labels) × (req : Requirement) × (get_gvk_from_url
            r.path
          ≡ some gvk)
        × (replace_plural_with_kind discovery gvk ≡ ok kind)
        × (reader kind name ≡ hit labels)
        × (selector ≡ req ∷ [])
        × Grants get_operation req
        × (api.matches req labels ≡ true)
  unfolding handle_get
  handle_get-granted discovery reader name selector h =
      elim (Bool-cases (is_empty (found get_operation))) [
        | inl none_found ↦ absurd (cc (rw (none_found, handle_get) at h))
        | inr some_found ↦ elim (Bool-cases (r.method == "GET")) [
          | inr other ↦ absurd (cc (rw (some_found, other, handle_get) at h))
          | inl get ↦
              let (gvk, kind, labels, q, is, replaced, read, same, listed_q, match) =
                selected discovery reader (get_gvk_from_url r.path) (found get_operation) name
                  selector (rw (some_found, get, handle_get) at h) in
              (
                gvk,
                kind,
                labels,
                q,
                is,
                replaced,
                read,
                same,
                (requirements_iff api (get_gvk_from_url r.path) get_operation pts q).0 listed_q,
                match,
              )
        ]
      ]

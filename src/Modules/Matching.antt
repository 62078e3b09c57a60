-- ===== src/Modules/Matching.antt =====
-- The answers of a read, and the first requirement that matches labels.
use mathlib.Core.List.{Memᴰ}
use capsule_proxy.Prelude.{◌≡◌, sym, subst, true, some, List, [], ◌∷◌, inl, inr, Bool-cases}
use capsule_proxy.Labels.{Labels, Requirement, LabelApi}
use capsule_proxy.Modules.Selector.{first_matching}

pub first_matching_sound :
    (api : LabelApi) (rs : List Requirement) (labels : Labels) (q : Requirement)
    → first_matching api rs labels ≡ some q
    → Memᴰ q rs × (api.matches q labels ≡ true)
unfolding first_matching
first_matching_sound api [] labels q h = absurd (cc h)
first_matching_sound api (r ∷ rs) labels q h = elim (Bool-cases (api.matches r labels)) [
  | inl t ↦
      let same : r ≡ q = cc (rw (t, first_matching) at h) in
      (Memᴰ.head (sym same), subst (λ x. api.matches x labels ≡ true) same t)
  | inr f ↦
      let rest = first_matching_sound api rs labels q (rw (f, first_matching) at h) in
      (Memᴰ.tail rest.0, rest.1)
]

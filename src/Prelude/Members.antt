-- ===== src/Prelude/Members.antt =====
-- Members of lists, and the Boolean tests on them.
use Prim.Native.String.{String}
use mathlib.Core.Path.{◌≡◌, refl, sym, ap, ◌∙◌}
use mathlib.Core.Logic.{◌↔◌, inl, inr}
use mathlib.Core.Bool.{Bool, true}
use mathlib.Core.List.{List, [], ◌∷◌, Memᴰ}
use mathlib.Core.List.Memᴰ
use native.Mathlib.Omega.{arith}
use text.Mathlib.Text.{◌==◌}
use text.Mathlib.TextEquality.{eq_iff}
use capsule_proxy.Prelude.Tests.{Bool-cases}
use capsule_proxy.Prelude.Lists.{any, contains, is_empty}

pub is_empty-nil : {A : Type 0} (xs : List A) → is_empty xs ≡ true → xs ≡ []
is_empty-nil [] h = refl
is_empty-nil (x ∷ xs) h = absurd (cc h)

pub any-Mem :
    {A : Type 0} (p : A → Bool) (xs : List A)
    → (any p xs ≡ true) ↔ ((x : A) × Memᴰ x xs × (p x ≡ true))
unfolding any
any-Mem p [] = ((λ h. absurd (cc h)), λ (x, m, e). elim m [ ])
any-Mem p (x ∷ xs) = (
  λ h. elim (Bool-cases (p x)) [
    | inl t ↦ (x, Memᴰ.head refl, t)
    | inr f ↦
        let rest = (any-Mem p xs).0 (ground (arith, h, f)) in (rest.0, Memᴰ.tail rest.1, rest.2)
  ],
  λ (y, m, e). elim (Memᴰ.cases_cons m) [
    | inl same ↦ let t : p x ≡ true = ap p (sym same) ∙ e in ground (arith, t)
    | inr later ↦ let t = (any-Mem p xs).1 (y, later, e) in ground (arith, t)
  ],
)

-- A text is contained where it is a member.
pub contains-Mem : (xs : List String) (x : String) → (contains xs x ≡ true) ↔ Memᴰ x xs
unfolding contains
contains-Mem [] x = ((λ h. absurd (cc h)), λ m. elim m [ ])
contains-Mem (y ∷ xs) x = (
  λ h. elim (Bool-cases (y == x)) [
    | inl t ↦ Memᴰ.head (sym ((eq_iff y x).0 t))
    | inr f ↦ Memᴰ.tail ((contains-Mem xs x).0 (ground (arith, h, f)))
  ],
  λ m. elim (Memᴰ.cases_cons m) [
    | inl same ↦ let t : (y == x) ≡ true = (eq_iff y x).1 (sym same) in ground (arith, t)
    | inr later ↦ let t = (contains-Mem xs x).1 later in ground (arith, t)
  ],
)

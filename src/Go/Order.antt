-- ===== src/Go/Order.antt =====
-- The order of texts, Go's `<`: by their characters, which is the order of their UTF-8 bytes.
use Prim.Native.Nat.compare as compare_ℕ
use Prim.Native.Nat.{Ordering, compare as compare_ℕ}
use Prim.Native.String.compare
use Prim.Native.String.{compare, then}
use text.Mathlib.Text.{is_lt}
use text.Mathlib.TextEquality.{path_by_compare}
use capsule_proxy.Prelude.{ℕ, zero, suc, code, String, ◌≡◌, refl, sym, ap, ◌∙◌, Bool, true, false}
use Prim.Native.String.{[], ◌∷◌}

abbrev pub less : String → String → Bool
less s t = is_lt (compare s t)

abbrev reversed : Ordering → Ordering
reversed Ordering.lt = Ordering.gt
reversed Ordering.eq = Ordering.eq
reversed Ordering.gt = Ordering.lt

numbers_reversed : (m n : ℕ) → compare_ℕ n m ≡ reversed (compare_ℕ m n)
numbers_reversed zero zero = compare_ℕ.zero-zero ∙ sym (ap reversed compare_ℕ.zero-zero)
numbers_reversed zero (suc n) = compare_ℕ.suc-zero n ∙ sym (ap reversed (compare_ℕ.zero-suc n))
numbers_reversed (suc m) zero = compare_ℕ.zero-suc m ∙ sym (ap reversed (compare_ℕ.suc-zero m))
numbers_reversed (suc m) (suc n) =
    compare_ℕ.suc-suc n m ∙ numbers_reversed m n ∙ sym (ap reversed (compare_ℕ.suc-suc m n))

reversed-then : (o p : Ordering) → then (reversed o) (reversed p) ≡ reversed (then o p)
reversed-then Ordering.lt p = refl
reversed-then Ordering.eq p = refl
reversed-then Ordering.gt p = refl

texts_reversed : (s t : String) → compare t s ≡ reversed (compare s t)
texts_reversed [] [] = compare.nil-nil ∙ sym (ap reversed compare.nil-nil)
texts_reversed [] (d ∷ t) = compare.cons-nil d t ∙ sym (ap reversed (compare.nil-cons d t))
texts_reversed (c ∷ s) [] = compare.nil-cons c s ∙ sym (ap reversed (compare.cons-nil c s))
texts_reversed (c ∷ s) (d ∷ t) =
    compare.cons-cons d c t s
    ∙ ap (λ o. then o (compare t s)) (numbers_reversed (code c) (code d))
    ∙ ap (then (reversed (compare_ℕ (code c) (code d)))) (texts_reversed s t)
    ∙ reversed-then (compare_ℕ (code c) (code d)) (compare s t)
    ∙ sym (ap reversed (compare.cons-cons c d s t))

lt_is_not-reversed : (o : Ordering) → is_lt o ≡ true → is_lt (reversed o) ≡ false
lt_is_not-reversed Ordering.lt h = refl
lt_is_not-reversed Ordering.eq h = absurd (cc h)
lt_is_not-reversed Ordering.gt h = absurd (cc h)

neither : (o : Ordering) → is_lt o ≡ false → is_lt (reversed o) ≡ false → o ≡ Ordering.eq
neither Ordering.lt h k = absurd (cc h)
neither Ordering.eq h k = refl
neither Ordering.gt h k = absurd (cc k)

pub less-asymmetric : (s t : String) → less s t ≡ true → less t s ≡ false
less-asymmetric s t h = ap is_lt (texts_reversed s t) ∙ lt_is_not-reversed (compare s t) h

-- Of two texts that are not the same one is less.
pub less-total : (s t : String) → less s t ≡ false → less t s ≡ false → s ≡ t
less-total s t h k =
    path_by_compare s t (neither (compare s t) h (sym (ap is_lt (texts_reversed s t)) ∙ k))

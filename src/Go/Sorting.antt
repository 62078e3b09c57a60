-- ===== src/Go/Sorting.antt =====
-- `sort.SliceStable` of Go's standard library, as the program calls it: with a test that compares an
-- element with the first one of the slice, which is not an order. Up to twenty elements are sorted by
-- insertion, and how the blocks of a longer slice are merged is a parameter.
use capsule_proxy.Prelude.{
  ℕ, zero, suc, String, ◌≡◌, refl, ◌∙◌, Bool, true, false, none, some, List, [], ◌∷◌, length,
  get_elem?, leb, contains, if◌then◌else◌, arith, Bool-cases, inl, inr,
}
use capsule_proxy.Go.Order.{less}

-- `exact[i] < exact[0]`
unfoldable pub less_than_first : List String → ℕ → Bool
less_than_first [] i = false
less_than_first (x ∷ xs) i = elim (get_elem? (x ∷ xs) i) [ none ↦ false | some y ↦ less y x ]

-- The elements at an index and the next one change places.
unfoldable pub swap_at : ℕ → List String → List String
swap_at i [] = []
swap_at i (x ∷ []) = x ∷ []
swap_at zero (x ∷ y ∷ xs) = y ∷ x ∷ xs
swap_at (suc i) (x ∷ y ∷ xs) = x ∷ swap_at i (y ∷ xs)

-- `for j := i; j > 0 && less(j, j-1); j-- { swap(j, j-1) }`
unfoldable pub sift : ℕ → List String → List String
unfolding less_than_first swap_at
sift zero xs = xs
sift (suc j) xs = elim (less_than_first xs (suc j)) [ true ↦ sift j (swap_at j xs) | false ↦ xs ]

-- As many rounds of `for i := a + 1; i < b; i++` as its first argument says.
unfoldable pub insertion_rounds : ℕ → ℕ → List String → List String
unfolding sift
insertion_rounds zero i xs = xs
insertion_rounds (suc n) i xs = insertion_rounds n (suc i) (sift i xs)

unfoldable pub slice_stable : (List String → List String) → List String → List String
unfolding insertion_rounds
slice_stable merged xs = if leb (length xs) 20 then insertion_rounds (length xs) 0 xs else merged xs

-- What `SliceStable` documents of the slice: it only permutes the elements.
pub record KeepsMembers (merged : List String → List String) : Type 0 where
  pub members : (xs : List String) (v : String) → contains (merged xs) v ≡ contains xs v

swap_at-contains :
    (i : ℕ) (xs : List String) (v : String) → contains (swap_at i xs) v ≡ contains xs v
unfolding swap_at contains
swap_at-contains i [] v = refl
swap_at-contains i (x ∷ []) v = refl
swap_at-contains zero (x ∷ y ∷ xs) v = ground arith
swap_at-contains (suc i) (x ∷ y ∷ xs) v = ground (arith, swap_at-contains i (y ∷ xs) v)

sift-contains : (j : ℕ) (xs : List String) (v : String) → contains (sift j xs) v ≡ contains xs v
unfolding sift
sift-contains zero xs v = refl
sift-contains (suc j) xs v = elim (Bool-cases (less_than_first xs (suc j))) [
  | inl t ↦ rw (t, sift) (sift-contains j (swap_at j xs) v ∙ swap_at-contains j xs v)
  | inr f ↦ rw (f, sift) refl
]

insertion_rounds-contains :
    (n i : ℕ) (xs : List String) (v : String) → contains (insertion_rounds n i xs) v ≡ contains xs v
unfolding insertion_rounds
insertion_rounds-contains zero i xs v = refl
insertion_rounds-contains (suc n) i xs v =
    insertion_rounds-contains n (suc i) (sift i xs) v ∙ sift-contains i xs v

pub slice_stable-contains :
    (merged : List String → List String)
    → KeepsMembers merged
    → (xs : List String) (v : String) → contains (slice_stable merged xs) v ≡ contains xs v
unfolding slice_stable
slice_stable-contains merged keeps xs v = elim (Bool-cases (leb (length xs) 20)) [
  | inl t ↦ rw t (insertion_rounds-contains (length xs) 0 xs v)
  | inr f ↦ rw f (keeps.members xs v)
]

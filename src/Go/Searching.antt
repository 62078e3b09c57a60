-- ===== src/Go/Searching.antt =====
-- `sort.SearchStrings` of Go's standard library, a binary search by halving. An index is far below the
-- largest `int`, so the sum of two of them does not wrap.
use Prim.Native.Nat.{◌/◌}
use capsule_proxy.Prelude.{
  ℕ, zero, suc, ◌+◌, ◌-◌, ◌≤◌, ◌<◌, String, ◌≡◌, refl, ap, subst, true, false, Option, none, some,
  List, [], ◌∷◌, length, get_elem?, ltb, if◌then◌else◌, arith, Bool-cases, inl, inr,
}
use capsule_proxy.Go.Order.{less}

past_end : (xs : List String) (v : String) → ¬ (get_elem? xs (length xs) ≡ some v)
past_end [] v h = cc h
past_end (y ∷ xs) v h = past_end xs v h

pub get_elem?-inside :
    (xs : List String) (i : ℕ) → i < length xs → (v : String) × (get_elem? xs i ≡ some v)
get_elem?-inside [] i h = absurd (omega arith)
get_elem?-inside (y ∷ xs) zero h = (y, refl)
get_elem?-inside (y ∷ xs) (suc i) h = get_elem?-inside xs i (omega arith)

module _ (a : List String) (x : String) where
  -- `none` is a read out of range, or a loop that has not ended.
  unfoldable pub search_loop : ℕ → ℕ → ℕ → Option ℕ
  search_loop zero i j = if ltb i j then none else some i
  search_loop (suc fuel) i j = elim (ltb i j) [
    | false ↦ some i
    | true ↦ elim (get_elem? a ((i + j) / 2)) [
      | none ↦ none
      | some v ↦ elim (less v x) [
        | true ↦ search_loop fuel ((i + j) / 2 + 1) j
        | false ↦ search_loop fuel i ((i + j) / 2)
      ]
    ]
  ]

  unfoldable pub search_strings : Option ℕ
  unfolding search_loop
  search_strings = search_loop (length a) 0 (length a)

  -- Everything just before the index is less than the text, and nothing just at it is.
  pub record IsBoundary (low high : ℕ) : Type 0 where
    pub ordered : low ≤ high
    pub inside : high ≤ length a
    pub before : (k : ℕ) (v : String) → suc k ≡ low → get_elem? a k ≡ some v → less v x ≡ true
    pub after : (v : String) → get_elem? a high ≡ some v → less v x ≡ false

  same_value :
      (v w : String) (k h : ℕ) → k ≡ h → get_elem? a h ≡ some v → get_elem? a k ≡ some w → v ≡ w
  same_value v w k h e p q = cc (p, q, ap (get_elem? a) e)

  upper-IsBoundary :
      (i j h : ℕ) (v : String)
      → IsBoundary i j
      → h < j
      → get_elem? a h ≡ some v
      → less v x ≡ true
      → IsBoundary (h + 1) j
  upper-IsBoundary i j h v b below read small = record {
    ordered = omega arith;
    inside = b.inside;
    before =
        λ k w e p. subst (λ u. less u x ≡ true) (same_value v w k h (omega arith) read p) small;
    after = b.after;
  }

  lower-IsBoundary :
      (i j h : ℕ) (v : String)
      → IsBoundary i j
      → i ≤ h
      → h < j
      → get_elem? a h ≡ some v
      → less v x ≡ false
      → IsBoundary i h
  lower-IsBoundary i j h v b above below read large = record {
    ordered = above;
    inside = let inner = b.inside in omega arith;
    before = b.before;
    after = λ w p. subst (λ u. less u x ≡ false) (same_value v w h h refl read p) large;
  }

  search_loop-IsBoundary :
      (fuel i j : ℕ)
      → IsBoundary i j
      → j - i ≤ fuel
      → (r : ℕ) × (search_loop fuel i j ≡ some r) × IsBoundary r r
  unfolding search_loop
  search_loop-IsBoundary zero i j b enough =
      let inner = b.ordered in
      let same : j ≡ i = omega arith in
      let none_left : ltb i j ≡ false = ground arith in
      (i, rw none_left refl, subst (λ k. IsBoundary i k) same b)
  search_loop-IsBoundary (suc fuel) i j b enough =
      let inner = b.ordered in
      let inside = b.inside in
      elim (Bool-cases (ltb i j)) [
        | inr empty ↦
            let same : j ≡ i = ground arith in
            (i, rw (empty, search_loop) refl, subst (λ k. IsBoundary i k) same b)
        | inl some_left ↦
            let room : i < j = ground arith in
            let (v, read) = get_elem?-inside a ((i + j) / 2) (omega arith) in
            elim (Bool-cases (less v x)) [
              | inl small ↦
                  let (r, found, at) =
                    search_loop-IsBoundary fuel ((i + j) / 2 + 1) j
                      (upper-IsBoundary i j ((i + j) / 2) v b (omega arith) read small)
                      (omega arith) in
                  (r, rw (some_left, read, small, search_loop) found, at)
              | inr large ↦
                  let (r, found, at) =
                    search_loop-IsBoundary fuel i ((i + j) / 2)
                      (lower-IsBoundary i j ((i + j) / 2) v b (omega arith) (omega arith) read
                        large)
                      (omega arith) in
                  (r, rw (some_left, read, large, search_loop) found, at)
            ]
      ]

  -- The binary search ends on every list, sorted or not, within as many rounds as the list is long, and
  -- reads no element out of range: it answers an index that is at most the length of the list, such that
  -- the element just before it, if any, is less than the text and the element at it, if any, is not.
  pub search_strings-IsBoundary : (r : ℕ) × (search_strings ≡ some r) × IsBoundary r r
  unfolding search_strings
  search_strings-IsBoundary =
      search_loop-IsBoundary (length a) 0 (length a)
        (record {
          ordered = omega arith;
          inside = omega arith;
          before = λ k v e p. absurd (omega arith);
          after = λ v p. absurd (past_end a v p);
        })
        (omega arith)

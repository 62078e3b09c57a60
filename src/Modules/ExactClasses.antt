-- ===== src/Modules/ExactClasses.antt =====
-- The search of a class among the exact names of internal/modules/{storageclass,priorityclass,ingressclass}.
use capsule_proxy.Prelude.{
  ℕ, zero, suc, ◌≤◌, ◌<◌, String, ◌≡◌, refl, ap, subst, Bool, true, false, not, ◌&&◌, none, some,
  List, [], ◌∷◌, ◌==◌, length, get_elem?, contains, ltb, arith, Bool-cases, Option-cases, eq_iff,
  inl, inr,
}
use capsule_proxy.Go.Order.{less, less-total}
use capsule_proxy.Go.Searching.{search_strings-IsBoundary, IsBoundary, get_elem?-inside}
use capsule_proxy.Modules.Classes.{search_exact}

-- No element is less than one before it.
abbrev pub IsOrdered : List String → Type 0
IsOrdered xs =
    (i j : ℕ) (v w : String)
    → i ≤ j
    → get_elem? xs i ≡ some v
    → get_elem? xs j ≡ some w
    → less w v ≡ false

index_of :
    (xs : List String) (v : String)
    → contains xs v ≡ true
    → (i : ℕ) × (i < length xs) × (get_elem? xs i ≡ some v)
unfolding contains
index_of [] v h = absurd (cc h)
index_of (x ∷ xs) v h = elim (Bool-cases (x == v)) [
  | inl t ↦ (0, omega arith, ap some ((eq_iff x v).0 t))
  | inr f ↦
      let (i, inside, read) = index_of xs v (ground (arith, f, h)) in
      (suc i, omega (arith, inside), read)
]

get_elem?-bound : (xs : List String) (i : ℕ) (v : String) → get_elem? xs i ≡ some v → i < length xs
get_elem?-bound [] i v h = absurd (cc h)
get_elem?-bound (x ∷ xs) zero v h = omega arith
get_elem?-bound (x ∷ xs) (suc i) v h = let rest = get_elem?-bound xs i v h in omega arith

contains-at :
    (xs : List String) (i : ℕ) (v : String) → get_elem? xs i ≡ some v → contains xs v ≡ true
unfolding contains
contains-at [] i v h = absurd (cc h)
contains-at (x ∷ xs) zero v h =
    let same : x ≡ v = cc h in let t = (eq_iff x v).1 same in ground (arith, t)
contains-at (x ∷ xs) (suc i) v h = let rest = contains-at xs i v h in ground (arith, rest)

module _ (exact : List String) (name : String) where
  -- The search of a name in the exact names always ends within range with an answer, and a name that it
  -- finds is one of them, whether or not they are in order.
  pub search_exact-total :
      (found : Bool) × (search_exact exact name ≡ some found)
      × ((found && not (contains exact name)) ≡ false)
  unfolding search_exact
  search_exact-total =
      let (r, answered, boundary) = search_strings-IsBoundary exact name in
      elim (Option-cases (get_elem? exact r)) [
        | inl out ↦ (false, rw (answered, out, search_exact) refl, ground arith)
        | inr (v, read) ↦ (
          v == name,
          rw (answered, read, search_exact) refl,
          elim (Bool-cases (v == name)) [
            | inr other ↦ rw other refl
            | inl same ↦
                let there = contains-at exact r v read in
                let v_is_name = (eq_iff v name).0 same in
                let member = subst (λ u. contains exact u ≡ true) v_is_name there in
                ground (arith, member)
          ],
        )
      ]

  module _ (ordered : IsOrdered exact) (r : ℕ) (boundary : IsBoundary exact name r r) where
    not_before : (i : ℕ) → get_elem? exact i ≡ some name → i < r → ⊥
    not_before i read before =
        let inside = boundary.inside in
        elim r as (λ k. k ≡ r → ⊥) [
          | zero ↦ λ e. absurd (omega arith)
          | suc m ↦ λ e.
              let (u, last) = get_elem?-inside exact m (omega arith) in
              cc (ordered i m name u (omega arith) read last, boundary.before m u e last)
        ]
          refl

    -- Where the search ends at another element or past the end, the name is not there.
    not_there : ((i : ℕ) → get_elem? exact i ≡ some name → r ≤ i → ⊥) → contains exact name ≡ false
    not_there not_after = elim (Bool-cases (contains exact name)) [
      | inr absent ↦ absent
      | inl member ↦
          let (i, inside, read) = index_of exact name member in
          elim (Bool-cases (ltb i r)) [
            | inl t ↦ absurd (not_before i read (ground (arith, t)))
            | inr f ↦ absurd (not_after i read (ground (arith, f)))
          ]
    ]

    past_the_end : get_elem? exact r ≡ none → contains exact name ≡ false
    past_the_end out = not_there (λ i read after. elim (Bool-cases (ltb r (length exact))) [
      | inl t ↦ let (u, there) = get_elem?-inside exact r (ground (arith, t)) in cc (out, there)
      | inr f ↦ let inside = get_elem?-bound exact i name read in ground (arith, f, inside, after)
    ])

    at_another :
        (v : String)
        → get_elem? exact r ≡ some v
        → (v == name) ≡ false
        → contains exact name ≡ false
    at_another v read other = not_there (λ i found after.
        let same =
          less-total v name (boundary.after v read) (ordered r i v name after read found) in
        let t = (eq_iff v name).1 same in cc (t, other))

  -- In ordered exact names the search finds exactly the names that are among them.
  pub search_exact-eq-contains :
      IsOrdered exact → search_exact exact name ≡ some (contains exact name)
  unfolding search_exact
  search_exact-eq-contains ordered =
      let (r, answered, boundary) = search_strings-IsBoundary exact name in
      elim (Option-cases (get_elem? exact r)) [
        | inl out ↦
            let absent = past_the_end ordered r boundary out in
            rw (answered, out, absent, search_exact) refl
        | inr (v, read) ↦ elim (Bool-cases (v == name)) [
          | inl same ↦
              let there = contains-at exact r v read in
              let member = subst (λ u. contains exact u ≡ true) ((eq_iff v name).0 same) there in
              rw (answered, read, same, member, search_exact) refl
          | inr other ↦
              let absent = at_another ordered r boundary v read other in
              rw (answered, read, other, absent, search_exact) refl
        ]
      ]

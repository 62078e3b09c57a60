-- ===== src/Modules/Named.antt =====
-- The requirement that a list of names is answered by.
use capsule_proxy.Prelude.{
  String, ◌≡◌, ◌∙◌, true, false, List, [], ◌∷◌, contains, if◌then◌else◌, is_empty, eq_refl, arith,
}
use capsule_proxy.Labels.{Requirement, in_operator, exists_operator}
use capsule_proxy.Modules.ClusterScoped.{ignored_key}

-- The requirement has some value and asks for the key to be among its values, or it has none and asks
-- for a label that no object has.
pub data AsksFor (key : String) (q : Requirement) : Type 0 where
  asks : (v : String) → contains q.values v ≡ true → q.key ≡ key → q.operator ≡ "in" → AsksFor key q
  asks_nothing :
      ((v : String) → contains q.values v ≡ false)
      → q.key ≡ "dontexistsignoreme"
      → q.operator ≡ "exists"
      → AsksFor key q

first-contained : (x : String) (xs : List String) → contains (x ∷ xs) x ≡ true
unfolding contains
first-contained x xs = ground (arith, eq_refl x)

-- The requirement that is made of a list of names, by whether it is empty.
pub made-AsksFor :
    (key : String) (q : Requirement) (names : List String)
    → (q.key ≡ (if is_empty names then ignored_key else key))
    → (q.operator ≡ (if is_empty names then exists_operator else in_operator))
    → ((v : String) → contains q.values v ≡ contains names v)
    → AsksFor key q
unfolding contains
made-AsksFor key q [] k o values = asks_nothing values k o
made-AsksFor key q (x ∷ xs) k o values = asks x (values x ∙ first-contained x xs) k o

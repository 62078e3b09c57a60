-- ===== src/Go/Splitting.antt =====
-- `Split` and `Join` at a separator of one character.
use Prim.Native.String.{[], ◌∷◌}
use text.Mathlib.TextLemmas.{nil-append, cons-append}
use capsule_proxy.Prelude.{ℕ, String, Char, code, ◌≡◌, refl, false, ◌||◌, List, arith}
use capsule_proxy.Go.Text.{◌<>◌, has_char, split}

-- A text without the separator.
abbrev pub Lacks : ℕ → String → Type 0
Lacks sep s = has_char sep s ≡ false

pub split_of_Lacks : (sep : ℕ) (s : String) → Lacks sep s → split sep s ≡ List.◌∷◌ s List.[]
unfolding split has_char
split_of_Lacks sep [] h = refl
split_of_Lacks sep (c ∷ s) h = ground (arith, split_of_Lacks sep s)

-- The text before the first separator is the first part.
pub split-append :
    (sep : ℕ) (p : String) (c : Char) (s : String)
    → code c ≡ sep
    → Lacks sep p
    → split sep (p <> c ∷ s) ≡ List.◌∷◌ p (split sep s)
unfolding split has_char
split-append sep [] c s e h = rw nil-append (ground arith)
split-append sep (d ∷ p) c s e h = rw cons-append (ground (arith, split-append sep p c s e))

pub has_char-append :
    (sep : ℕ) (s t : String) → has_char sep (s <> t) ≡ (has_char sep s || has_char sep t)
unfolding has_char
has_char-append sep [] t = rw nil-append refl
has_char-append sep (c ∷ s) t = rw cons-append (ground (arith, has_char-append sep s t))

-- A text that is one character in front of another.
pub one-append : (c : Char) (s : String) → (c ∷ "") <> s ≡ c ∷ s
one-append c s = rw cons-append (λ i. c ∷ nil-append s i)

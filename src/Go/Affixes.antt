-- ===== src/Go/Affixes.antt =====
-- Prefixes, suffixes and the first occurrence of a part, as equations between texts.
use Prim.Native.String.{[], ◌∷◌, count}
use text.Mathlib.TextLemmas.{
  nil-append, cons-append, append_assoc, length-nil, length-cons, length-append, tail-eq_of_cons-eq,
}
use text.Mathlib.TextEquality.{Char-path}
use capsule_proxy.Prelude.{
  String, Char, code, ◌≡◌, refl, sym, ap, ◌∙◌, ◌≤◌, inl, inr, true, none, some, arith, eqb, ◌==◌,
  eq_iff, Option-cases, Bool-cases,
}
use capsule_proxy.Go.Text.{◌<>◌, strip_prefix, has_prefix, has_suffix, after_first}

cons_path : {c d : Char} {s t : String} → c ≡ d → s ≡ t → Path String (c ∷ s) (d ∷ t)
cons_path p q = λ i. p i ∷ q i

pub strip_prefix_sound : (s p r : String) → strip_prefix s p ≡ some r → s ≡ p <> r
unfolding strip_prefix
strip_prefix_sound s [] r h = rw nil-append (ground arith)
strip_prefix_sound [] (d ∷ p) r h = absurd (cc h)
strip_prefix_sound (c ∷ s) (d ∷ p) r h = elim (Bool-cases (eqb (code c) (code d))) [
  | inl same ↦
      rw cons-append
        (cons_path (Char-path c d (ground arith)) (strip_prefix_sound s p r (ground arith)))
  | inr other ↦ absurd (ground arith)
]

pub strip_prefix-append : (p r : String) → strip_prefix (p <> r) p ≡ some r
unfolding strip_prefix
strip_prefix-append [] r = rw nil-append refl
strip_prefix-append (d ∷ p) r = rw cons-append (ground (arith, strip_prefix-append p r))

-- `HasPrefix` finds exactly the texts that begin with the prefix.
pub has_prefix_sound : (s p : String) → has_prefix s p ≡ true → (r : String) × (s ≡ p <> r)
unfolding has_prefix
has_prefix_sound s p h = elim (Option-cases (strip_prefix s p)) [
  | inl missed ↦ absurd (ground arith)
  | inr (r, found) ↦ (r, strip_prefix_sound s p r found)
]

pub has_prefix-append : (p r : String) → has_prefix (p <> r) p ≡ true
unfolding has_prefix
has_prefix-append p r = ground (arith, strip_prefix-append p r)

pub has_suffix_sound : (s p : String) → has_suffix s p ≡ true → (l : String) × (s ≡ l <> p)
unfolding has_suffix
has_suffix_sound [] p h = ("", rw nil-append ((eq_iff "" p).0 h))
has_suffix_sound (c ∷ s) p h = elim (Bool-cases ((c ∷ s) == p)) [
  | inl same ↦ ("", rw nil-append ((eq_iff (c ∷ s) p).0 same))
  | inr other ↦
      let (l, e) = has_suffix_sound s p (ground arith) in (c ∷ l, rw cons-append (cons_path refl e))
]

has_suffix_refl : (p : String) → has_suffix p p ≡ true
unfolding has_suffix
has_suffix_refl [] = refl
has_suffix_refl (c ∷ p) = ground (arith, eq_iff (c ∷ p) (c ∷ p))

pub has_suffix-append : (l p : String) → has_suffix (l <> p) p ≡ true
unfolding has_suffix
has_suffix-append [] p = rw nil-append (has_suffix_refl p)
has_suffix-append (c ∷ l) p = rw cons-append (ground (arith, has_suffix-append l p))

pub after_first_sound :
    (s part r : String) → after_first s part ≡ some r → (l : String) × (s ≡ l <> part <> r)
unfolding after_first
after_first_sound [] part r h = ("", rw nil-append (strip_prefix_sound "" part r h))
after_first_sound (c ∷ s) part r h = elim (Option-cases (strip_prefix (c ∷ s) part)) [
  | inr (rest, found) ↦ ("", rw nil-append (strip_prefix_sound (c ∷ s) part r (ground arith)))
  | inl missed ↦
      let (l, e) = after_first_sound s part r (ground arith) in
      (c ∷ l, rw cons-append (cons_path refl e))
]

-- Two ways to cut one text: what lies behind the earlier cut ends in what lies behind the later.
later_cut : (a b c d : String) → a <> b ≡ c <> d → count a ≤ count c → (k : String) × (b ≡ k <> d)
later_cut [] b c d e h = (c, sym (nil-append b) ∙ e)
later_cut (x ∷ a) b [] d e h = absurd (omega (arith, length-cons x a, length-nil))
later_cut (x ∷ a) b (y ∷ c) d e h =
    later_cut a b c d (tail-eq_of_cons-eq (sym (cons-append x a b) ∙ e ∙ cons-append y c d))
      (omega (arith, length-cons x a, length-cons y c))

after_first_of_prefix :
    (s part r : String) → strip_prefix s part ≡ some r → after_first s part ≡ some r
unfolding after_first
after_first_of_prefix [] part r h = h
after_first_of_prefix (c ∷ s) part r h = ground (arith, h)

after_first_of_tail :
    (c : Char) (s part r : String)
    → strip_prefix (c ∷ s) part ≡ none
    → after_first s part ≡ some r
    → after_first (c ∷ s) part ≡ some r
unfolding after_first
after_first_of_tail c s part r missed h = ground (arith, missed, h)

-- Behind any occurrence of the part lies a suffix of what lies behind the first one.
pub after_first_complete :
    (l part r : String) → (k : String) × (after_first (l <> part <> r) part ≡ some (k <> r))
after_first_complete [] part r =
    ("", simp nil-append (after_first_of_prefix _ part r (strip_prefix-append part r)))
after_first_complete (c ∷ l) part r =
    elim (Option-cases (strip_prefix ((c ∷ l) <> part <> r) part)) [
      | inr (rest, found) ↦
          let (k, e) =
            later_cut part rest ((c ∷ l) <> part) r
              (sym (strip_prefix_sound _ part rest found) ∙ sym (append_assoc (c ∷ l) part r))
              (omega (arith, length-append (c ∷ l) part)) in
          (k, after_first_of_prefix _ part _ (found ∙ ap some e))
      | inl missed ↦
          let (k, e) = after_first_complete l part r in
          (k, rw cons-append (after_first_of_tail c _ part _ (rw cons-append at missed) e))
    ]

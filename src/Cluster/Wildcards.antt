-- ===== src/Cluster/Wildcards.antt =====
-- What a pattern with stars matches.
use text.Mathlib.TextLemmas.{nil-append, append-nil, append_assoc}
use capsule_proxy.Prelude.{
  String, Char, ◌≡◌, ◌↔◌, refl, sym, ap, ◌∙◌, true, false, some, List, [], ◌∷◌, ◌==◌, eq_iff, arith,
  Bool-cases, Option-cases, inl, inr, if◌then◌else◌,
}
use capsule_proxy.Go.Text.{◌<>◌, is_blank, has_char, split, after_first}
use capsule_proxy.Go.Affixes.{
  has_prefix_sound, has_prefix-append, has_suffix_sound, has_suffix-append, after_first_sound,
  after_first_complete,
}
use capsule_proxy.Go.Splitting.{Lacks, split_of_Lacks, split-append, one-append, has_char-append}
use capsule_proxy.Cluster.Pattern.{match_parts, match_split, match_pattern}

-- The parts stand in the text in this order, without overlaps and with anything around them.
abbrev pub InOrder : List String → String → Type 0
InOrder [] v = Unit
InOrder (p ∷ ps) v = (l : String) × (r : String) × (v ≡ l <> p <> r) × InOrder ps r

InOrder-extend : (ps : List String) (k v : String) → InOrder ps v → InOrder ps (k <> v)
InOrder-extend [] k v h = tt
InOrder-extend (p ∷ ps) k v (l, r, e, h) =
    (k <> l, r, ap (λ t. k <> t) e ∙ sym (append_assoc k l (p <> r)), h)

eq-nil_of_blank : (s : String) → is_blank s ≡ true → s ≡ ""
eq-nil_of_blank String.[] h = refl
eq-nil_of_blank (String.◌∷◌ c s) h = absurd (cc h)

match_parts_sound : (ps : List String) (v : String) → match_parts ps v ≡ true → InOrder ps v
unfolding match_parts
match_parts_sound [] v h = tt
match_parts_sound (p ∷ ps) v h = elim (Bool-cases (is_blank p)) [
  | inl blank ↦
      ("", v, rw (eq-nil_of_blank p blank) (simp nil-append), match_parts_sound ps v (ground arith))
  | inr filled ↦ elim (Option-cases (after_first v p)) [
    | inl missed ↦ absurd (ground arith)
    | inr (r, found) ↦
        let (l, e) = after_first_sound v p r found in
        (l, r, e, match_parts_sound ps r (ground arith))
  ]
]

match_parts_found :
    (p : String) (ps : List String) (v r : String)
    → is_blank p ≡ false
    → after_first v p ≡ some r
    → match_parts (p ∷ ps) v ≡ match_parts ps r
unfolding match_parts
match_parts_found p ps v r filled found = ground (arith, filled, found)

match_parts_skip :
    (p : String) (ps : List String) (v : String)
    → is_blank p ≡ true
    → match_parts (p ∷ ps) v ≡ match_parts ps v
unfolding match_parts
match_parts_skip p ps v blank = ground (arith, blank)

match_parts_complete : (ps : List String) (v : String) → InOrder ps v → match_parts ps v ≡ true
unfolding match_parts
match_parts_complete [] v h = refl
match_parts_complete (p ∷ ps) v (l, r, e, h) = elim (Bool-cases (is_blank p)) [
  | inl blank ↦
      match_parts_skip p ps v blank
      ∙ match_parts_complete ps v
          (rw (e ∙ sym (append_assoc l p r)) (InOrder-extend ps (l <> p) r h))
  | inr filled ↦
      let (k, found) = after_first_complete l p r in
      match_parts_found p ps v (k <> r) filled (rw e found)
      ∙ match_parts_complete ps (k <> r) (InOrder-extend ps k r h)
]

-- What the parts of a pattern ask of a text: the end of a pattern with one star in front and the
-- beginning of one with one star behind are anchored, and nothing else is.
abbrev pub Fits : List String → String → Type 0
Fits (before ∷ behind ∷ []) v =
    if is_blank before
    then ((l : String) × (v ≡ l <> behind))
    else if is_blank behind
    then ((r : String) × (v ≡ before <> r))
    else InOrder (before ∷ behind ∷ []) v
Fits parts v = InOrder parts v

match_split_iff : (parts : List String) (v : String) → (match_split parts v ≡ true) ↔ Fits parts v
unfolding match_split
match_split_iff [] v = (match_parts_sound [] v, match_parts_complete [] v)
match_split_iff (p ∷ []) v = (match_parts_sound (p ∷ []) v, match_parts_complete (p ∷ []) v)
match_split_iff (p ∷ q ∷ []) v = elim (Bool-cases (is_blank p)) [
  | inl blank ↦ rw blank (has_suffix_sound v q, λ (l, e). rw e (has_suffix-append l q))
  | inr filled ↦ rw filled (elim (Bool-cases (is_blank q)) [
    | inl blank ↦ rw blank (has_prefix_sound v p, λ (r, e). rw e (has_prefix-append p r))
    | inr full ↦ rw full (match_parts_sound (p ∷ q ∷ []) v, match_parts_complete (p ∷ q ∷ []) v)
  ])
]
match_split_iff (p ∷ q ∷ r ∷ ps) v =
    (match_parts_sound (p ∷ q ∷ r ∷ ps) v, match_parts_complete (p ∷ q ∷ r ∷ ps) v)

-- A pattern without a star matches the text that it is, and no other.
match_literal :
    (pattern v : String) → Lacks b'*' pattern → (match_pattern pattern v ≡ true) ↔ (pattern ≡ v)
unfolding match_pattern has_char
match_literal pattern v h = elim (Bool-cases (pattern == "*")) [
  | inl star ↦ absurd (cc (rw ((eq_iff pattern "*").0 star) at h))
  | inr other ↦ rw (other, h) (eq_iff pattern v)
]

-- A pattern with a star matches exactly the texts that its parts between the stars fit.
pub match_pattern_iff :
    (pattern v : String)
    → has_char b'*' pattern ≡ true
    → (match_pattern pattern v ≡ true) ↔ Fits (split b'*' pattern) v
unfolding match_pattern split
match_pattern_iff pattern v h = elim (Bool-cases (pattern == "*")) [
  | inl star ↦ rw ((eq_iff pattern "*").0 star) ((λ _. (v, sym (append-nil v))), λ _. refl)
  | inr other ↦ rw (other, h) (match_split_iff (split b'*' pattern) v)
]

abbrev star : Char
star = "*"

module _ (p q : String) (lp : Lacks b'*' p) (lq : Lacks b'*' q) where
  split_star : split b'*' (p <> "*" <> q) ≡ p ∷ q ∷ []
  split_star =
      ap (λ t. split b'*' (p <> t)) (one-append star q)
      ∙ split-append b'*' p star q refl lp
      ∙ ap (λ ts. p ∷ ts) (split_of_Lacks b'*' q lq)

  has_star : has_char b'*' (p <> "*" <> q) ≡ true
  unfolding has_char
  has_star = rw (has_char-append, has_char-append) (ground arith)

  -- A star between two texts leaves the pattern open at both ends: it matches every text in which
  -- the first occurs somewhere before the second.
  pub match_pattern_open :
      (x y z : String)
      → is_blank p ≡ false
      → is_blank q ≡ false
      → match_pattern (p <> "*" <> q) (x <> p <> y <> q <> z) ≡ true
  match_pattern_open x y z fp fq =
      (match_pattern_iff (p <> "*" <> q) (x <> p <> y <> q <> z) has_star).1
        (rw (split_star, fp, fq) (x, y <> q <> z, refl, (y, z, refl, tt)))

-- ===== src/Go/Text.antt =====
-- `strings` of Go's standard library, as far as the program calls it.
use Prim.Native.String.{[], ◌∷◌}
use Prim.Native.String
use Prim.Native.String.{char_at, count}
use capsule_proxy.Prelude.{
  ℕ, zero, suc, ◌+◌, ◌-◌, Char, code, String, Bool, true, false, not, ◌&&◌, ◌||◌, Option, none,
  some, List, leb, eqb, ◌==◌, if◌then◌else◌, is_some,
}

infixr 66 ◌<>◌
abbrev pub ◌<>◌ : String → String → String
s <> t = String.◌++◌ s t

abbrev pub is_blank : String → Bool
is_blank [] = true
is_blank (c ∷ s) = false

-- `unicode.IsSpace`
unfoldable pub is_space : ℕ → Bool
is_space c =
    (leb 9 c && leb c 13)
    || eqb c 32
    || eqb c 0x85
    || eqb c 0xa0
    || eqb c 0x1680
    || (leb 0x2000 c && leb c 0x200a)
    || eqb c 0x2028
    || eqb c 0x2029
    || eqb c 0x202f
    || eqb c 0x205f
    || eqb c 0x3000

-- `isASCIISpace` of net/textproto
unfoldable pub is_ascii_space : ℕ → Bool
is_ascii_space c = eqb c 32 || eqb c 9 || eqb c 10 || eqb c 13

module _ (drop : ℕ → Bool) where
  unfoldable pub trim_left : String → String
  trim_left [] = ""
  trim_left (c ∷ s) = let rest = trim_left s in if drop (code c) then rest else c ∷ s

  unfoldable pub trim_right : String → String
  trim_right [] = ""
  trim_right (c ∷ s) =
      let rest = trim_right s in if drop (code c) && is_blank rest then "" else c ∷ rest

  -- `TrimFunc`
  unfoldable pub trim : String → String
  unfolding trim_left trim_right
  trim s = trim_right (trim_left s)

-- `TrimSpace`
unfoldable pub trim_space : String → String
unfolding trim is_space
trim_space = trim is_space

-- `TrimString` of net/textproto
unfoldable pub trim_string : String → String
unfolding trim is_ascii_space
trim_string = trim is_ascii_space

-- What follows the prefix `p` of `s`.
unfoldable pub strip_prefix : String → String → Option String
strip_prefix s [] = some s
strip_prefix [] (d ∷ p) = none
strip_prefix (c ∷ s) (d ∷ p) = if eqb (code c) (code d) then strip_prefix s p else none

-- `HasPrefix`
unfoldable pub has_prefix : String → String → Bool
unfolding strip_prefix
has_prefix s p = is_some (strip_prefix s p)

-- `TrimPrefix`
unfoldable pub trim_prefix : String → String → String
unfolding strip_prefix
trim_prefix s p = elim (strip_prefix s p) [ some rest ↦ rest | none ↦ s ]

-- `HasSuffix`
unfoldable pub has_suffix : String → String → Bool
has_suffix [] p = "" == p
has_suffix (c ∷ s) p = (c ∷ s) == p || has_suffix s p

-- `s[Index(s, part) + len(part):]`, and `none` where `Index` is negative
unfoldable pub after_first : String → String → Option String
unfolding strip_prefix
after_first [] part = strip_prefix "" part
after_first (c ∷ s) part =
    let later = after_first s part in
    elim (strip_prefix (c ∷ s) part) [ some rest ↦ some rest | none ↦ later ]

-- `Contains` of one character
unfoldable pub has_char : ℕ → String → Bool
has_char sep [] = false
has_char sep (c ∷ s) = eqb (code c) sep || has_char sep s

abbrev pub grow : Char → List String → List String
grow c List.[] = List.◌∷◌ (c ∷ "") List.[]
grow c (List.◌∷◌ part parts) = List.◌∷◌ (c ∷ part) parts

-- `Split` at a separator of one character
unfoldable pub split : ℕ → String → List String
split sep [] = List.◌∷◌ "" List.[]
split sep (c ∷ s) =
    let parts = split sep s in if eqb (code c) sep then List.◌∷◌ "" parts else grow c parts

abbrev in_word : String → Bool
in_word [] = false
in_word (c ∷ s) = not (is_space (code c))

-- `Fields`
unfoldable pub fields : String → List String
unfolding is_space
fields [] = List.[]
fields (c ∷ s) =
    let rest = fields s in
    if is_space (code c) then rest else if in_word s then grow c rest else List.◌∷◌ (c ∷ "") rest

-- `Join`
unfoldable pub join : String → List String → String
join sep List.[] = ""
join sep (List.◌∷◌ part List.[]) = part
join sep (List.◌∷◌ part (List.◌∷◌ next parts)) = part <> sep <> join sep (List.◌∷◌ next parts)

-- `Cut` at a separator of one character
unfoldable pub cut : ℕ → String → Option (String × String)
cut sep [] = none
cut sep (c ∷ s) =
    let later = cut sep s in
    if eqb (code c) sep
    then some ("", s)
    else elim later [ none ↦ none | some r ↦ some (c ∷ r.0, r.1) ]

-- A letter under simple case folding. The long s and the Kelvin sign are the only characters
-- outside ASCII that fold to a character of ASCII.
unfoldable pub fold : ℕ → ℕ
fold c =
    if leb b'A' c && leb c b'Z'
    then c + 32
    else if eqb c 0x17f
    then b's'
    else if eqb c 0x212a
    then b'k'
    else c

-- `EqualFold`, where one of the texts is ASCII
unfoldable pub equal_fold : String → String → Bool
unfolding fold
equal_fold [] [] = true
equal_fold (c ∷ s) (d ∷ t) = eqb (fold (code c)) (fold (code d)) && equal_fold s t
equal_fold _ _ = false

-- An ASCII letter in upper and in lower case.
unfoldable pub upper : Char → Char
upper c =
    if leb b'a' (code c) && leb (code c) b'z'
    then char_at "ABCDEFGHIJKLMNOPQRSTUVWXYZ" (code c - b'a')
    else c

unfoldable pub lower : Char → Char
lower c =
    if leb b'A' (code c) && leb (code c) b'Z'
    then char_at "abcdefghijklmnopqrstuvwxyz" (code c - b'A')
    else c

-- `ToLower` on ASCII
unfoldable pub to_lower : String → String
unfolding lower
to_lower [] = ""
to_lower (c ∷ s) = lower c ∷ to_lower s

-- The loop of `ReplaceAll(s, part, "")`: `skip` characters of an occurrence are still to be dropped.
unfoldable pub drop_all : String → ℕ → String → String
unfolding has_prefix
drop_all part n [] = ""
drop_all part (suc n) (c ∷ s) = drop_all part n s
drop_all part zero (c ∷ s) =
    let inside = drop_all part (count part - 1) s in
    let behind = drop_all part 0 s in if has_prefix (c ∷ s) part then inside else c ∷ behind

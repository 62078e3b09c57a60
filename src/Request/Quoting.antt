-- ===== src/Request/Quoting.antt =====
-- Quoted values of a forwarded certificate's fields.
use Prim.Native.String.{[], ◌∷◌}
use text.Mathlib.TextLemmas.{append_assoc, cons-append, nil-append, append-nil}
use capsule_proxy.Prelude.{
  String, Char, code, ◌≡◌, refl, sym, ap, ◌∙◌, Bool, false, ◌||◌, some, ok, eqb, if◌then◌else◌,
  arith, Bool-cases, inl, inr,
}
use capsule_proxy.Go.Text.{◌<>◌}
use capsule_proxy.Go.Splitting.{one-append}
use capsule_proxy.Request.Xfcc.{
  backslash, quote, unescape_loop, unescape_quoted, before_last_quote, unquote_xfcc_value,
}

abbrev is_special : Char → Bool
is_special c = eqb (code c) backslash || eqb (code c) quote

abbrev the_backslash : Char
the_backslash = "\\"

abbrev pub the_quote : Char
the_quote = "\""

-- A backslash in front of each backslash and each quote.
unfoldable pub escape : String → String
escape [] = ""
escape (c ∷ s) = let rest = escape s in if is_special c then the_backslash ∷ c ∷ rest else c ∷ rest

push-append : (b : String) (c : Char) (s : String) → (b <> (c ∷ "")) <> s ≡ b <> (c ∷ s)
push-append b c s = append_assoc b (c ∷ "") s ∙ ap (λ t. b <> t) (one-append c s)

unescape-escape : (b s : String) → unescape_loop b false (escape s) ≡ ok (b <> s)
unfolding unescape_loop escape
unescape-escape b [] = ap ok (sym (append-nil b))
unescape-escape b (c ∷ s) =
    let rest = unescape-escape (b <> (c ∷ "")) s in
    elim (Bool-cases (is_special c)) [
      | inl t ↦ rw t (rest ∙ ap ok (push-append b c s))
      | inr f ↦
          let g : eqb (code c) backslash ≡ false = ground (arith, f) in
          rw (f, g) (rest ∙ ap ok (push-append b c s))
    ]

before_last_quote-append : (t : String) → before_last_quote (t <> (the_quote ∷ "")) ≡ some t
unfolding before_last_quote
before_last_quote-append [] = refl
before_last_quote-append (c ∷ []) =
    let opened : (c ∷ "") <> (the_quote ∷ "") ≡ c ∷ the_quote ∷ "" =
      one-append c (the_quote ∷ "") in
    let last : before_last_quote (c ∷ the_quote ∷ "") ≡ some (c ∷ "") = refl in
    ap before_last_quote opened ∙ last
before_last_quote-append (c ∷ d ∷ t) =
    let q : String = the_quote ∷ "" in
    let rest : before_last_quote (d ∷ (t <> q)) ≡ some (d ∷ t) =
      ap before_last_quote (sym (cons-append d t q)) ∙ before_last_quote-append (d ∷ t) in
    let opened : (c ∷ d ∷ t) <> q ≡ c ∷ d ∷ (t <> q) =
      cons-append c (d ∷ t) q ∙ ap (λ x. c ∷ x) (cons-append d t q) in
    let last : before_last_quote (c ∷ d ∷ (t <> q)) ≡ some (c ∷ d ∷ t) =
      rw (rest, before_last_quote) refl in
    ap before_last_quote opened ∙ last

-- A text that is escaped and put between quotes is read back as it was.
pub unquote-escape :
    (s : String) → unquote_xfcc_value (the_quote ∷ (escape s <> (the_quote ∷ ""))) ≡ ok s
unfolding unquote_xfcc_value unescape_quoted
unquote-escape s =
    rw (before_last_quote-append (escape s)) (unescape-escape "" s ∙ ap ok (nil-append s))

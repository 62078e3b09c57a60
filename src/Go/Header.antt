-- ===== src/Go/Header.antt =====
-- `net/http.Header`: a map from canonical names to lists of values.
use Prim.Native.String.{[], ◌∷◌}
use capsule_proxy.Prelude.{
  ℕ, String, ◌≡◌, Bool, true, ◌&&◌, ◌||◌, Option, none, some, List, ◌++◌, arith, code, leb, eqb,
  ◌==◌, if◌then◌else◌, lookup, insert, remove, lookup-insert, lookup-remove,
}
use capsule_proxy.Go.Text.{upper, lower, has_char}

abbrev pub Header : Type 0
Header = List (String × List String)

-- `validHeaderFieldByte`: the characters of a token
is_token : ℕ → Bool
unfolding has_char
is_token c =
    (leb b'a' c && leb c b'z')
    || (leb b'A' c && leb c b'Z')
    || (leb b'0' c && leb c b'9')
    || has_char c "!#$%&'*+-.^_`|~"

all_tokens : String → Bool
unfolding is_token
all_tokens [] = true
all_tokens (c ∷ s) = is_token (code c) && all_tokens s

-- The first letter and each one behind a dash in upper case, the others in lower case.
recase : Bool → String → String
unfolding upper lower
recase start [] = ""
recase start (c ∷ s) = (if start then upper c else lower c) ∷ recase (eqb (code c) b'-') s

-- `CanonicalMIMEHeaderKey`
unfoldable pub canonical : String → String
unfolding all_tokens recase
canonical s = if all_tokens s then recase true s else s

abbrev pub or_empty : Option (List String) → List String
or_empty none = List.[]
or_empty (some vs) = vs

abbrev pub first : List String → String
first List.[] = ""
first (List.◌∷◌ v vs) = v

-- `Values`
unfoldable pub values : Header → String → List String
values h key = or_empty (lookup (canonical key) h)

-- `Get`
unfoldable pub get : Header → String → String
get h key = first (values h key)

-- `Set`
unfoldable pub set : Header → String → String → Header
set h key v = insert (canonical key) (List.◌∷◌ v List.[]) h

-- `Add`
unfoldable pub add : Header → String → String → Header
add h key v = insert (canonical key) (values h key ++ List.◌∷◌ v List.[]) h

-- `Del`
unfoldable pub del : Header → String → Header
del h key = remove (canonical key) h

module _ (h : Header) (k j : String) where
  pub values-set :
      (v : String)
      → values (set h k v) j
        ≡ (if canonical k == canonical j then List.◌∷◌ v List.[] else values h j)
  unfolding values set
  values-set v = ground (arith, lookup-insert (canonical k) (canonical j) (List.◌∷◌ v List.[]) h)

  pub values-add :
      (v : String)
      → values (add h k v) j
        ≡ (if canonical k == canonical j then values h k ++ List.◌∷◌ v List.[] else values h j)
  unfolding values add
  values-add v =
      ground (arith, lookup-insert (canonical k) (canonical j) (values h k ++ List.◌∷◌ v List.[]) h)

  pub values-del : values (del h k) j ≡ (if canonical k == canonical j then List.[] else values h j)
  unfolding values del
  values-del = ground (arith, lookup-remove (canonical k) (canonical j) h)

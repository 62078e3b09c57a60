-- ===== src/Cluster/Pattern.antt =====
-- `matchPattern` of internal/modules/clusterscoped/utils.go.
use capsule_proxy.Prelude.{
  String, Bool, true, false, not, none, some, List, [], ◌∷◌, ◌==◌, if◌then◌else◌,
}
use capsule_proxy.Go.Text.{is_blank, has_char, split, has_prefix, has_suffix, after_first}

-- The loop: `rest` is `value[idx:]`.
unfoldable pub match_parts : List String → String → Bool
match_parts [] rest = true
match_parts (part ∷ parts) rest = elim (is_blank part) [
  | true ↦ match_parts parts rest
  | false ↦ elim (after_first rest part) [ none ↦ false | some behind ↦ match_parts parts behind ]
]

-- On the parts of the pattern between its stars.
unfoldable pub match_split : List String → String → Bool
unfolding match_parts
match_split (before ∷ behind ∷ []) value =
    if is_blank before
    then has_suffix value behind
    else if is_blank behind
    then has_prefix value before
    else match_parts (before ∷ behind ∷ []) value
match_split parts value = match_parts parts value

unfoldable pub match_pattern : String → String → Bool
unfolding match_split
match_pattern pattern value =
    if pattern == "*"
    then true
    else if not (has_char b'*' pattern)
    then pattern == value
    else match_split (split b'*' pattern) value

-- ===== src/Request/Impersonation.antt =====
-- internal/request/impersonation.go
use capsule_proxy.Prelude.{
  String, Bool, not, Option, none, some, List, [], ◌∷◌, Result, ok, err, is_empty, keep,
  if◌then◌else◌,
}
use capsule_proxy.Errors.{Error, panic}
use capsule_proxy.Go.Text.{has_prefix, join}
use capsule_proxy.Go.Header.{Header, get, values, del}
use capsule_proxy.Request.World.{World}

abbrev pub impersonate_user_header : String
impersonate_user_header = "Impersonate-User"

abbrev pub impersonate_group_header : String
impersonate_group_header = "Impersonate-Group"

abbrev pub impersonate_user_extra_header_prefix : String
impersonate_user_extra_header_prefix = "Impersonate-Extra-"

-- The loop of `SanitizeImpersonationHeaders`, over the names that the header had.
unfoldable pub delete_extra : List (String × List String) → Header → Header
delete_extra [] h = h
delete_extra ((name, vs) ∷ names) h =
    delete_extra names
      (if has_prefix name impersonate_user_extra_header_prefix then del h name else h)

unfoldable pub sanitize_impersonation_headers : Header → Header
unfolding delete_extra
sanitize_impersonation_headers header =
    let h = del (del header impersonate_user_header) impersonate_group_header in delete_extra h h

unfoldable pub get_impersonating_user : Header → String
get_impersonating_user h = get h impersonate_user_header

unfoldable pub filter_groups : List String → (String → Bool) → List String
unfolding keep
filter_groups groups matches = keep matches groups

unfoldable pub ignore_groups : List String → (String → Bool) → List String
unfolding keep
ignore_groups groups matches = keep (λ g. not (matches g)) groups

abbrev filter_by : Option (String → Bool) → List String → List String
filter_by none groups = groups
filter_by (some matches) groups = filter_groups groups matches

abbrev ignore_by : Option (String → Bool) → List String → Result Error (List String)
ignore_by none groups = err (panic "regexp: Compile")
ignore_by (some matches) groups = ok (ignore_groups groups matches)

-- `MustCompile` panics on an invalid pattern.
unfoldable pub get_impersonating_groups :
    World → Header → List String → Option (String → Bool) → Result Error (List String)
unfolding filter_groups ignore_groups
get_impersonating_groups w h ignored regexp =
    let groups = values h impersonate_group_header in
    if is_empty groups
    then ok groups
    else (let filtered = filter_by regexp groups in
        if is_empty ignored then ok filtered else ignore_by (w.compile (join "|" ignored)) filtered)

-- ===== src/Web/HopByHop.antt =====
-- `removingHopByHopHeaders` of internal/webserver/webserver.go.
use capsule_proxy.Prelude.{String, Bool, List, [], ◌∷◌, if◌then◌else◌}
use capsule_proxy.Go.Text.{is_blank, split, trim_string}
use capsule_proxy.Go.Header.{Header, get, values, set, del}

-- The names in one value of the Connection header.
unfoldable pub delete_parts : List String → Header → Header
delete_parts [] h = h
delete_parts (part ∷ parts) h =
    delete_parts parts (if is_blank (trim_string part) then h else del h (trim_string part))

unfoldable pub delete_listed : List String → Header → Header
unfolding delete_parts
delete_listed [] h = h
delete_listed (f ∷ fs) h = delete_listed fs (delete_parts (split b',' f) h)

-- `contains_token` is `httpguts.HeaderValuesContainsToken`.
unfoldable pub removing_hop_by_hop_headers : (List String → String → Bool) → Header → Header
unfolding delete_listed
removing_hop_by_hop_headers contains_token h =
    let upgrade_type =
      (if contains_token (values h "connection") "upgrade" then get h "upgrade" else "") in
    let h' = delete_listed (values h "connection") h in
    if is_blank upgrade_type
    then del h' "connection"
    else set (set h' "connection" "upgrade") "upgrade" upgrade_type

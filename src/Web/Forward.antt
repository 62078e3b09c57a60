-- ===== src/Web/Forward.antt =====
-- `handleRequest` and `impersonateHandler` of internal/webserver/webserver.go: the two ways in which
-- a request is prepared for the API server, with the proxy's own token.
use capsule_proxy.Prelude.{String, Bool, List, [], ◌∷◌, ok, err, if◌then◌else◌, lookup, insert}
use capsule_proxy.Errors.{
  Error, unauthorized, module_error, fault, panic, Reply, handle_unauthorized, handle_error,
}
use capsule_proxy.Go.Text.{◌<>◌, is_blank, join}
use capsule_proxy.Go.Header.{Header, first, or_empty, set, add}
use capsule_proxy.Request.World.{World, Identity}
use capsule_proxy.Request.Impersonation.{
  sanitize_impersonation_headers, impersonate_user_header, impersonate_group_header,
}
use capsule_proxy.Request.Http.{Config, HttpRequest, resolve_user_and_groups}
use capsule_proxy.Web.HopByHop.{removing_hop_by_hop_headers}

-- What becomes of a request: it is ready to be passed on, or a reply has been written and the
-- request is left as it then is, or the handler panics.
pub data Served : Type 0 where
  passed : HttpRequest → Served
  replied : Reply → HttpRequest → Served
  panicked : String → Served

abbrev pub Handler : Type 0
Handler = HttpRequest → Served

-- The reply to an error; a panic passes through.
abbrev pub refuse : (Error → Reply) → Error → Handler
refuse reply (unauthorized m) r = replied (reply (unauthorized m)) r
refuse reply (module_error s) r = replied (reply (module_error s)) r
refuse reply (fault m) r = replied (reply (fault m)) r
refuse reply (panic m) r = panicked m

-- The header's token is replaced unless the proxy has none.
unfoldable pub set_token : String → Header → Header
set_token token h = if is_blank token then h else set h "Authorization" ("Bearer " <> token)

-- `url.Values.Get` of the label selector.
abbrev pub label_selector_of : List (String × List String) → String
label_selector_of q = first (or_empty (lookup "labelSelector" q))

unfoldable pub narrow : String → List (String × List String) → List (String × List String)
narrow selector q =
    let given = label_selector_of q in
    insert "labelSelector"
      ((if is_blank given then selector else join "," (given ∷ selector ∷ [])) ∷ []) q

unfoldable pub handle_request : String → String → HttpRequest → HttpRequest
unfolding set_token narrow
handle_request token selector r = record r {
  header = set_token token (sanitize_impersonation_headers r.header);
  query = narrow selector r.query;
}

unfoldable pub add_groups : List String → Header → Header
add_groups [] h = h
add_groups (g ∷ gs) h = add_groups gs (add h impersonate_group_header g)

-- The header that `impersonateHandler` leaves for an identity.
unfoldable pub impersonated : (List String → String → Bool) → String → Identity → Header → Header
unfolding set_token add_groups
impersonated contains_token token id h = add_groups id.groups (
    add (removing_hop_by_hop_headers contains_token (set_token token h)) impersonate_user_header
      id.username)

abbrev pub resolve_reply : String → Error → Reply
resolve_reply message (unauthorized m) = handle_unauthorized (unauthorized m) message
resolve_reply message e = handle_error e message

-- The header of the request is shared with the request that is passed on.
unfoldable pub impersonate_handler :
    (List String → String → Bool) → String → World → Config → Handler
unfolding impersonated
impersonate_handler contains_token token w c r = elim (resolve_user_and_groups w c r) [
  | err e ↦ refuse (resolve_reply "cannot retrieve user and group") e r
  | ok resolved ↦
      passed (record r { header = impersonated contains_token token resolved.1 r.header })
]

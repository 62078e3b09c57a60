-- ===== src/Request/Http.antt =====
-- internal/request/http.go and authtype.go: the authentication of a request, the reviews of its
-- impersonation headers, and the cache of the answer in the request's context.
use capsule_proxy.Prelude.{
  String, Bool, true, false, not, ◌&&◌, Option, none, some, List, [], ◌∷◌, Result, ok, err, ◌>>=◌,
  if◌then◌else◌, is_empty,
}
use capsule_proxy.Errors.{Error, unauthorized, fault, error_message}
use capsule_proxy.Go.Text.{◌<>◌, is_blank, trim_prefix, after_first, cut}
use capsule_proxy.Go.Header.{Header, get}
use capsule_proxy.Request.World.{World, Identity, TokenStatus}
use capsule_proxy.Request.Impersonation.{get_impersonating_groups, get_impersonating_user}
use capsule_proxy.Request.Xfcc.{process_xfcc}

pub data AuthType : Type 0 where
  bearer_token_auth tls_certificate anonymous x_forwarded_client_cert : AuthType

-- The configuration that `NewHTTP` is given.
pub record Config : Type 0 where
  pub auth_types : List AuthType
  pub ignored_impersonation_groups : List String
  pub impersonation_groups_regexp : Option (String → Bool)
  pub skip_impersonation_review : Bool
  pub xfcc_header : String

-- The request: its header, the identities of the client's certificates if it came by TLS, and the
-- identity that its context holds, if one was resolved before.
pub record HttpRequest : Type 0 where
  pub method : String
  pub remote_addr : String
  pub path : String
  pub query : List (String × List String)
  pub header : Header
  pub tls : Option (List Identity)
  pub context : Option Identity

-- The named results of `GetUserAndGroups`.
pub record Answer : Type 0 where
  pub username : String
  pub groups : List String
  pub error : Option Error

unfoldable pub cached_user_and_groups : HttpRequest → Option Identity
cached_user_and_groups r = r.context

abbrev websocket_protocol : String
websocket_protocol = "base64url.bearer.authorization.k8s.io."

-- Up to the first comma.
abbrev before_comma : String → String
before_comma s = elim (cut b',' s) [ none ↦ s | some r ↦ r.0 ]

-- The group of `websocketBearerTokenRegexp` in its leftmost match.
unfoldable pub websocket_token : String → Option String
websocket_token ws = elim (after_first ws websocket_protocol) [
  | none ↦ none
  | some rest ↦ if is_blank (before_comma rest) then none else some (before_comma rest)
]

abbrev decoded_token : Result Error String → Result Error String
decoded_token (ok token) = ok token
decoded_token (err e) =
    err (unauthorized ("failed to decode websocket auth bearer: " <> error_message e))

module _ (w : World) where
  unfoldable pub bearer_token : Header → Result Error String
  unfolding websocket_token
  bearer_token h =
      let trad_bearer = trim_prefix (get h "Authorization") "Bearer " in
      let ws_header = get h "Sec-Websocket-Protocol" in
      if not (is_blank trad_bearer)
      then ok trad_bearer
      else if not (is_blank ws_header)
      then elim (websocket_token ws_header) [
        | none ↦ err (unauthorized "Websocket Protocol token is undefined")
        | some token ↦ decoded_token (w.decode_base64 token)
      ]
      else err
          (unauthorized "no authentication headers found. Unauthenticated users are not supported")

  abbrev review_status : Result Error TokenStatus → Result Error Identity
  review_status (err e) = err (fault "cannot create TokenReview")
  review_status (ok status) =
      if status.authenticated && is_blank status.error
      then ok status.user
      else err (fault "cannot verify the token due to error")

  unfoldable pub process_bearer_token : Header → Result Error Identity
  unfolding bearer_token
  process_bearer_token h = do token ← bearer_token h; review_status (w.token_review token)

  abbrev success : Result Error Identity → Option Identity
  success (ok id) = some id
  success (err e) = none

  abbrev first_certificate : Option (List Identity) → Option Identity
  first_certificate none = none
  first_certificate (some []) = none
  first_certificate (some (id ∷ ids)) = some id

  -- One round of the loop of `authenticate`; a failure leads to the next provider.
  unfoldable pub attempt : Config → HttpRequest → AuthType → Option Identity
  unfolding process_bearer_token
  attempt c r bearer_token_auth = success (process_bearer_token r.header)
  attempt c r tls_certificate = first_certificate r.tls
  attempt c r x_forwarded_client_cert = success (process_xfcc w r.header c.xfcc_header)
  attempt c r anonymous = none

  unfoldable pub authenticate_by : Config → HttpRequest → List AuthType → Result Error Identity
  unfolding attempt
  authenticate_by c r [] =
      err (unauthorized "no authentication provider available. unauthenticated users not supported")
  authenticate_by c r (t ∷ ts) = elim (attempt c r t) [
    | some id ↦ ok id
    | none ↦ authenticate_by c r ts
  ]

  unfoldable pub authenticate : Config → HttpRequest → Result Error Identity
  unfolding authenticate_by
  authenticate c r = authenticate_by c r c.auth_types

  abbrev verdict : String → Result Error Bool → Option Error
  verdict refusal (err e) = some e
  verdict refusal (ok true) = none
  verdict refusal (ok false) = some (unauthorized refusal)

  -- The review of one group or user: the error that the function returns, if it does.
  unfoldable pub review : Identity → String → String → String → Option Error
  review id resource what name =
      verdict
        ("the current user " <> id.username <> " cannot impersonate the " <> what <> " " <> name)
        (w.access_review
          (record { verb = "impersonate"; resource = resource; name = name; user = id }))

  -- The loop over the impersonated groups.
  unfoldable pub review_groups : Identity → List String → Option Error
  unfolding review
  review_groups id [] = none
  review_groups id (g ∷ gs) = elim (review id "groups" "group" g) [
    | some e ↦ some e
    | none ↦ review_groups id gs
  ]

  -- The groups of the impersonated user: those of a service account, and none of any other user.
  unfoldable pub implied_groups : String → List String
  implied_groups name = elim (w.split_username name) [
    | none ↦ []
    | some sa ↦
        ("system:serviceaccounts:" <> sa.0) ∷ "system:serviceaccounts" ∷ "system:authenticated" ∷ []
  ]

  -- The deferred assignments: the user's first, and the groups' over it.
  unfoldable pub assign : Identity → List String → String → Identity
  unfolding implied_groups
  assign id groups name =
      let user : Identity =
        (if is_blank name then id else record { username = name; groups = implied_groups name }) in
      if is_empty groups then user else record { username = user.username; groups = groups }

  -- `return "", nil, err`, before and after the deferred assignment of the groups is registered.
  abbrev failed : List String → Error → Answer
  failed groups e = record { username = ""; groups = groups; error = some e }

  abbrev returned : Identity → Answer
  returned id = record { username = id.username; groups = id.groups; error = none }

  -- From the authentication on.
  unfoldable pub impersonate : Config → Identity → List String → String → Answer
  unfolding review_groups assign
  impersonate c id groups name =
      let group_error : Option Error =
        (if c.skip_impersonation_review then none else review_groups id groups) in
      let user_error : Option Error =
        (if is_blank name
          then none
          else if c.skip_impersonation_review
          then none
          else review id "users" "user" name) in
      elim group_error [
        | some e ↦ failed [] e
        | none ↦ elim user_error [
          | some e ↦ failed groups e
          | none ↦ returned (assign id groups name)
        ]
      ]

  unfoldable pub get_user_and_groups : Config → HttpRequest → Answer
  unfolding cached_user_and_groups authenticate impersonate
  get_user_and_groups c r = elim (cached_user_and_groups r) [
    | some id ↦ returned id
    | none ↦ elim (authenticate c r) [
      | err e ↦ failed [] e
      | ok id ↦
          elim (get_impersonating_groups w r.header c.ignored_impersonation_groups
            c.impersonation_groups_regexp) [
              | err e ↦ failed [] e
              | ok groups ↦ impersonate c id groups (get_impersonating_user r.header)
            ]
    ]
  ]

  -- What `ResolveUserAndGroups` returns: the request with the identity in its context, or an error.
  unfoldable pub resolve_user_and_groups :
      Config → HttpRequest → Result Error (HttpRequest × Identity)
  unfolding cached_user_and_groups
  resolve_user_and_groups c r =
      let answer = get_user_and_groups c r in
      let id : Identity = record { username = answer.username; groups = answer.groups } in
      elim (cached_user_and_groups r) [
        | some cached ↦ ok (r, cached)
        | none ↦ elim answer.error [
          | some e ↦ err e
          | none ↦ ok (record r { context = some id }, id)
        ]
      ]

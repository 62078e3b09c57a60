-- ===== src/Web/Middleware.antt =====
-- internal/webserver/middleware: the checks in front of a handler.
use capsule_proxy.Prelude.{
  String, Bool, true, false, not, ◌&&◌, ◌||◌, Option, none, some, List, Result, ok, err,
  if◌then◌else◌, is_empty, any, contains,
}
use capsule_proxy.Errors.{
  Error, fault, Reply, handle_unauthorized, handle_error, handle_resolve_error,
}
use capsule_proxy.Go.Text.{is_blank, drop_all}
use capsule_proxy.Go.Header.{get}
use capsule_proxy.Request.World.{World, Identity, TokenStatus}
use capsule_proxy.Request.Http.{Config, resolve_user_and_groups}
use capsule_proxy.Web.Forward.{replied, Handler, refuse}

-- `CheckPaths`
unfoldable pub check_paths : List String → Handler → Handler → Handler
check_paths allowed skip_to next r = if contains allowed r.path then skip_to r else next r

-- What the review of the token leads to: a refusal, or nothing.
unfoldable pub token_refusal : Result Error TokenStatus → Option Reply
token_refusal (err e) = some (handle_error e "cannot create TokenReview")
token_refusal (ok status) =
    if is_blank status.error
    then none
    else some
        (handle_unauthorized (fault status.error) "cannot authenticate the token due to error")

abbrev pub or_next : Option Reply → Handler → Handler
or_next none next r = next r
or_next (some reply) next r = replied reply r

-- `CheckJWTMiddleware`, with its set of tokens.
unfoldable pub check_jwt : World → List String → Handler → Handler
unfolding token_refusal
check_jwt w invalidated next r =
    let token = drop_all "Bearer " 0 (get r.header "Authorization") in
    if not (is_blank token) && not (contains invalidated token)
    then or_next (token_refusal (w.token_review token)) next r
    else if contains invalidated token
    then replied
        (handle_unauthorized (fault "token is invalid")
          "cannot authenticate the token due to error")
        r
    else next r

unfoldable pub identity_is_ignored : Identity → List String → List String → Bool
identity_is_ignored id usernames groups =
    contains usernames id.username || any (contains groups) id.groups

module _ (w : World) (c : Config) where
  -- `CheckUserInIgnoredIdentityMiddleware`
  unfoldable pub check_user_in_ignored_identity :
      List String → List String → Handler → Handler → Handler
  unfolding identity_is_ignored
  check_user_in_ignored_identity usernames groups fn next r =
      if is_empty usernames && is_empty groups
      then next r
      else elim (resolve_user_and_groups w c r) [
        | err e ↦ refuse handle_resolve_error e r
        | ok resolved ↦
            if identity_is_ignored resolved.1 usernames groups
            then fn resolved.0
            else next resolved.0
      ]

  -- `CheckUserInCapsuleGroupMiddleware`, with the users and groups of the configuration.
  unfoldable pub check_user_in_capsule_group :
      List String → List String → Handler → Handler → Handler
  check_user_in_capsule_group users groups impersonate next r =
      elim (resolve_user_and_groups w c r) [
        | err e ↦ refuse handle_resolve_error e r
        | ok resolved ↦
            if any (contains groups) resolved.1.groups || contains users resolved.1.username
            then next resolved.0
            else impersonate resolved.0
      ]

-- What `isFromTrustedSource` asks of package net: the host of an address, whether a host is an IP
-- address, and whether a network contains it.
pub record Net : Type 0 where
  pub split_host_port : String → Option String
  pub parse_ip : String → Bool
  pub network_contains : String → String → Bool

unfoldable pub is_from_trusted_source : Net → String → List String → Bool
is_from_trusted_source net remote_addr cidrs =
    let host : String = elim (net.split_host_port remote_addr) [
      | none ↦ remote_addr
      | some h ↦ h
    ] in
    if is_empty cidrs
    then true
    else if not (net.parse_ip host)
    then false
    else any (λ c. net.network_contains c host) cidrs

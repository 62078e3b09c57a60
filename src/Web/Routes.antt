-- ===== src/Web/Routes.antt =====
-- `registerModules`, `reverseProxyMiddleware` and `recoveryMiddleware` of
-- internal/webserver/webserver.go: the handler of a module behind its middleware.
use capsule_proxy.Prelude.{
  String, Bool, Option, none, some, List, Result, ok, err, if◌then◌else◌, ltb,
}
use capsule_proxy.Errors.{
  Error, module_error, fault, error_message, Reply, forbidden, handle_error, handle_resolve_error,
}
use capsule_proxy.Labels.{Selector}
use capsule_proxy.Tenant.{ProxyTenant}
use capsule_proxy.Request.World.{World}
use capsule_proxy.Request.Http.{Config, HttpRequest, resolve_user_and_groups}
use capsule_proxy.Web.Forward.{
  Served, passed, replied, panicked, Handler, refuse, handle_request, impersonate_handler,
}
use capsule_proxy.Web.Middleware.{
  check_paths, check_jwt, check_user_in_ignored_identity, check_user_in_capsule_group, Net,
  is_from_trusted_source,
}

-- `kubeFilter`, as far as requests are concerned, and what it calls: `token` is what `BearerToken`
-- returns, `tenants_for_owner` is `getTenantsForOwner`.
pub record KubeFilter : Type 0 where
  pub world : World
  pub net : Net
  pub config : Config
  pub token : String
  pub contains_token : List String → String → Bool
  pub selector_string : Selector → String
  pub allowed_paths : List String
  pub ignored_usernames : List String
  pub ignored_user_groups : List String
  pub capsule_users : List String
  pub capsule_user_groups : List String
  pub trusted_proxy_cidrs : List String
  pub tenants_for_owner : String → List String → Result Error (List ProxyTenant)

-- The `Handle` of a module: an error, no selector, or a selector.
abbrev pub Handle : Type 0
Handle = List ProxyTenant → HttpRequest → Result Error (Option Selector)

-- The reply to an error of a module carries its status.
unfoldable pub module_reply : Error → Reply
module_reply (module_error s) = record {
  status_code = if ltb 0 s.code then s.code else 500;
  reason = s.reason;
  message = s.message;
}
module_reply e = handle_error e (error_message e)

-- What the client and the API server get.
pub record Outcome : Type 0 where
  pub reply : Option Reply
  pub forwarded : Option HttpRequest

-- `reverseProxyMiddleware` passes the request on whatever the handler did, but for a panic, which
-- `recoveryMiddleware` answers.
unfoldable pub conclude : Served → Outcome
conclude (passed r) = record { reply = none; forwarded = some r }
conclude (replied reply r) = record { reply = some reply; forwarded = some r }
conclude (panicked m) = record {
  reply = some (handle_error (fault "internal server error") "panic while handling request");
  forwarded = none;
}

module _ (n : KubeFilter) where
  unfoldable pub impersonate : Handler
  impersonate = impersonate_handler n.contains_token n.token n.world n.config

  unfoldable pub dispatch : Result Error (Option Selector) → Handler
  unfolding module_reply impersonate
  dispatch (err e) r = refuse module_reply e r
  dispatch (ok none) r = impersonate r
  dispatch (ok (some selector)) r = passed (handle_request n.token (n.selector_string selector) r)

  -- The function that `registerModules` gives to a module's route.
  unfoldable pub module_handler : Handle → Handler
  unfolding dispatch
  module_handler handle r = elim (resolve_user_and_groups n.world n.config r) [
    | err e ↦ refuse handle_resolve_error e r
    | ok resolved ↦ elim (n.tenants_for_owner resolved.1.username resolved.1.groups) [
      | err e ↦ refuse (λ e'. handle_error e' "cannot list Tenant resources") e resolved.0
      | ok tenants ↦ dispatch (handle tenants resolved.0) resolved.0
    ]
  ]

  -- The module's own middleware, and the root's that is repeated there. `CheckJWTMiddleware` never
  -- adds to its set of tokens.
  unfoldable pub checked : Handler → Handler
  checked next = check_paths n.allowed_paths (impersonate) (check_jwt n.world List.[] next)

  unfoldable pub module_chain : Handle → Handler
  unfolding checked module_handler
  module_chain handle = checked (
      checked (
        check_user_in_ignored_identity n.world n.config n.ignored_usernames n.ignored_user_groups
          impersonate
          (check_user_in_capsule_group n.world n.config n.capsule_users n.capsule_user_groups
            impersonate (module_handler handle))))

  -- A request to the route of a module, on another path than those of the self reviews.
  unfoldable pub serve_module : Handle → HttpRequest → Outcome
  serve_module handle r =
      if is_from_trusted_source n.net r.remote_addr n.trusted_proxy_cidrs
      then conclude (module_chain handle r)
      else record {
        reply = some (record {
          status_code = 403;
          reason = forbidden;
          message = "request source is not allowed";
        });
        forwarded = none;
      }

-- ===== src/Web/Sound.antt =====
-- What may become of a request on the route of a module.
use capsule_proxy.Prelude.{String, ◌≡◌, sym, ap, ◌∙◌, some, List, ok, arith}
use capsule_proxy.Errors.{Error, unauthorized, module_error, fault, panic, Reply}
use capsule_proxy.Labels.{Selector}
use capsule_proxy.Tenant.{ProxyTenant}
use capsule_proxy.Request.World.{Identity}
use capsule_proxy.Request.Impersonation.{sanitize_impersonation_headers}
use capsule_proxy.Request.Http.{HttpRequest, resolve_user_and_groups}
use capsule_proxy.Request.Reviews.{resolve_idempotent}
use capsule_proxy.Web.Forward.{
  Served, passed, replied, panicked, Handler, refuse, set_token, narrow, impersonated,
}
use capsule_proxy.Web.Headers.{InName, impersonated-InName}
use capsule_proxy.Web.Withheld.{IsWithheld, IsNarrowed, sanitized-IsWithheld, narrow-IsNarrowed}
use capsule_proxy.Web.Routes.{KubeFilter, Handle}

module _ (n : KubeFilter) (handle : Handle) where
  abbrev pub Resolves : HttpRequest → HttpRequest → Identity → Type 0
  Resolves r resolved id = resolve_user_and_groups n.world n.config r ≡ ok (resolved, id)

  -- What may become of the request `r`.
  pub data Sound (r : HttpRequest) : Served → Type 0 where
    -- It is passed on with headers that name the identity that it resolves to, see `InName`.
    impersonates :
        (resolved : HttpRequest) (id : Identity) (out : HttpRequest)
        → resolve_user_and_groups n.world n.config r ≡ ok (resolved, id)
        → out.header ≡ impersonated n.contains_token n.token id r.header
        → InName id r.header out.header
        → out.query ≡ r.query
        → Sound r (passed out)
    -- It is passed on with such headers withheld, see `IsWithheld`, and with the selector that the module
    -- computes from the tenants of the identity.
    selects :
        (resolved : HttpRequest) (id : Identity) (tenants : List ProxyTenant) (selector : Selector)
        (out : HttpRequest)
        → resolve_user_and_groups n.world n.config r ≡ ok (resolved, id)
        → n.tenants_for_owner id.username id.groups ≡ ok tenants
        → handle tenants resolved ≡ ok (some selector)
        → out.header ≡ set_token n.token (sanitize_impersonation_headers r.header)
        → IsWithheld n.token out.header
        → out.query ≡ narrow (n.selector_string selector) r.query
        → IsNarrowed (n.selector_string selector) r.query out.query
        → Sound r (passed out)
    -- A reply is written, and the request is as the client sent it.
    refuses :
        (reply : Reply) (out : HttpRequest)
        → out.header ≡ r.header
        → out.query ≡ r.query
        → Sound r (replied reply out)
    panics : (m : String) → Sound r (panicked m)

  pub impersonated-Sound :
      (r resolved out : HttpRequest) (id : Identity)
      → Resolves r resolved id
      → out.header ≡ impersonated n.contains_token n.token id r.header
      → out.query ≡ r.query
      → Sound r (passed out)
  impersonated-Sound r resolved out id e p q =
      impersonates resolved id out e p
        (impersonated-InName n.contains_token n.token id r.header out.header p) q

  pub selected-Sound :
      (r resolved out : HttpRequest) (id : Identity) (tenants : List ProxyTenant)
      (selector : Selector)
      → Resolves r resolved id
      → n.tenants_for_owner id.username id.groups ≡ ok tenants
      → handle tenants resolved ≡ ok (some selector)
      → out.header ≡ set_token n.token (sanitize_impersonation_headers r.header)
      → out.query ≡ narrow (n.selector_string selector) r.query
      → Sound r (passed out)
  selected-Sound r resolved out id tenants selector e t k p q =
      selects resolved id tenants selector out e t k p
        (sanitized-IsWithheld n.token r.header out.header p) q
        (narrow-IsNarrowed (n.selector_string selector) r.query out.query q)

  abbrev pub IsSound : Handler → Type 0
  IsSound h = (r : HttpRequest) → Sound r (h r)

  pub record SameMessage (r resolved : HttpRequest) : Type 0 where
    pub header : resolved.header ≡ r.header
    pub query : resolved.query ≡ r.query

  pub resolve-SameMessage :
      (r resolved : HttpRequest) (id : Identity) → Resolves r resolved id → SameMessage r resolved
  unfolding resolve_user_and_groups
  resolve-SameMessage r resolved id h = record { header = ground arith; query = ground arith }

  -- A handler that is sound on the resolved request is sound on the request.
  pub Sound-resolved :
      (r resolved : HttpRequest) (id : Identity) (s : Served)
      → Resolves r resolved id
      → Sound resolved s
      → Sound r s
  Sound-resolved r resolved id (passed out) h (impersonates again id' _ e p _ q) =
      let same = resolve-SameMessage r resolved id h in
      impersonated-Sound r again out id'
        (h ∙ sym (resolve_idempotent n.world n.config r resolved id h n.world n.config) ∙ e)
        (p ∙ ap (impersonated n.contains_token n.token id') same.header) (q ∙ same.query)
  Sound-resolved r resolved id (passed out) h (selects again id' tenants selector _ e t k p _ q _) =
      let same = resolve-SameMessage r resolved id h in
      selected-Sound r again out id' tenants selector
        (h ∙ sym (resolve_idempotent n.world n.config r resolved id h n.world n.config) ∙ e) t k
        (p ∙ ap (λ x. set_token n.token (sanitize_impersonation_headers x)) same.header)
        (q ∙ ap (narrow (n.selector_string selector)) same.query)
  Sound-resolved r resolved id (replied reply out) h (refuses _ _ p q) =
      let same = resolve-SameMessage r resolved id h in
      refuses reply out (p ∙ same.header) (q ∙ same.query)
  Sound-resolved r resolved id (panicked m) h (panics _) = panics m

  pub refuse-Sound :
      (reply : Error → Reply) (e : Error) (r out : HttpRequest)
      → out.header ≡ r.header
      → out.query ≡ r.query
      → Sound r (refuse reply e out)
  refuse-Sound reply (unauthorized m) r out p q = refuses _ out p q
  refuse-Sound reply (module_error s) r out p q = refuses _ out p q
  refuse-Sound reply (fault m) r out p q = refuses _ out p q
  refuse-Sound reply (panic m) r out p q = panics m

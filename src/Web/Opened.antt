-- ===== src/Web/Opened.antt =====
-- A GET of a cluster-scoped object through the whole proxy: the chain of internal/webserver, the tenants
-- that getTenantsForOwner collects, and the handler of internal/modules/clusterscoped/get.go.
use mathlib.Core.List.{Memᴰ}
use capsule_proxy.Prelude.{String, ◌≡◌, sym, ◌∙◌, ap, subst, true, some, List, [], ◌∷◌, ok, ◌⊎◌}
use capsule_proxy.Labels.{Labels, Requirement, LabelApi}
use capsule_proxy.Request.World.{Identity}
use capsule_proxy.Request.Http.{HttpRequest, resolve_user_and_groups}
use capsule_proxy.Request.Impersonation.{sanitize_impersonation_headers}
use capsule_proxy.Cluster.Resource.{ClusterResource, get_operation, allows_operation}
use capsule_proxy.Cluster.Scope.{GroupVersionKind, match_resource}
use capsule_proxy.RoleBindings.Lookup.{Found, hit}
use capsule_proxy.Modules.Gvk.{get_gvk_from_url, replace_plural_with_kind, Discovery}
use capsule_proxy.Modules.ClusterScoped.{handle_get}
use capsule_proxy.Modules.ClusterAccess.{handle_get-granted}
use capsule_proxy.Filter.{Manager, user_kind, get_tenants_for_owner}
use capsule_proxy.Filter.Collected.{Given, get_tenants_for_owner-Given}
use capsule_proxy.Web.Forward.{passed, set_token, narrow, impersonated}
use capsule_proxy.Web.Headers.{InName}
use capsule_proxy.Web.Withheld.{IsWithheld, IsNarrowed}
use capsule_proxy.Web.Routes.{KubeFilter, Handle, module_chain}
use capsule_proxy.Web.Safety.{module_chain-IsSound}
use capsule_proxy.Web.Sound.{Sound, impersonates, selects}

-- The user or one of the groups of an identity is given the rule.
abbrev pub GivenTo : Manager → Identity → ClusterResource → Type 0
GivenTo m id cr =
    Given m (user_kind m id.username) id.username cr
    ⊎ ((group : String) × Memᴰ group id.groups × Given m "Group" group cr)

module _ (n : KubeFilter) (m : Manager) (api : LabelApi) (discovery : Discovery)
    (reader : GroupVersionKind → String → Found Labels) (name : String) where
  abbrev pub get_object : Handle
  get_object pts r = handle_get api pts r discovery reader name

  -- A rule that is given to the identity opens the object.
  pub record ByRule (r resolved : HttpRequest) (id : Identity) (q : Requirement) : Type 0 where
    pub rule : ClusterResource
    pub given : GivenTo m id rule
    pub gvk : GroupVersionKind
    pub of_path : get_gvk_from_url resolved.path ≡ some gvk
    pub covers : match_resource (some gvk) rule ≡ true
    pub allows : allows_operation rule get_operation ≡ true
    pub requirements : List Requirement
    pub selectable : api.as_selector rule.selector ≡ ok (requirements, true)
    pub required : Memᴰ q requirements
    pub kind : GroupVersionKind
    pub discovered : replace_plural_with_kind discovery gvk ≡ ok kind
    pub labels : Labels
    pub exists : reader kind name ≡ hit labels
    pub matches : api.matches q labels ≡ true

  -- How a request may reach the API server: with what identity or selector.
  pub data Opened (r out : HttpRequest) : Type 0 where
    in_own_name :
        (resolved : HttpRequest) (id : Identity)
        → resolve_user_and_groups n.world n.config r ≡ ok (resolved, id)
        → out.header ≡ impersonated n.contains_token n.token id r.header
        → InName id r.header out.header
        → out.query ≡ r.query
        → Opened r out
    by_rule :
        (resolved : HttpRequest) (id : Identity) (q : Requirement)
        → resolve_user_and_groups n.world n.config r ≡ ok (resolved, id)
        → ByRule r resolved id q
        → out.header ≡ set_token n.token (sanitize_impersonation_headers r.header)
        → IsWithheld n.token out.header
        → out.query ≡ narrow (n.selector_string (q ∷ [])) r.query
        → IsNarrowed (n.selector_string (q ∷ [])) r.query out.query
        → Opened r out

  module _
      (collects : (username : String) (groups : List String)
        → n.tenants_for_owner username groups ≡ get_tenants_for_owner m username groups) where
    Sound-Opened : (r out : HttpRequest) → Sound n get_object r (passed out) → Opened r out
    Sound-Opened r out (impersonates resolved id out' got header named query) =
        in_own_name resolved id got header named query
    Sound-Opened r out
          (selects resolved id tenants selector out' got listed handled header withheld query
            narrowed) =
        let (gvk, kind, labels, q, of_path, discovered, exists, alone, granted, matches) =
          handle_get-granted api tenants resolved discovery reader name selector handled in
        let of_gvk = granted.matched in
        by_rule resolved id q got
          (record {
            rule = granted.rule;
            given =
                get_tenants_for_owner-Given m id.username id.groups tenants granted.tenant
                  granted.rule (sym (collects id.username id.groups) ∙ listed) granted.tenant_listed
                  granted.rule_listed;
            gvk = gvk;
            of_path = of_path;
            covers = subst (λ g. match_resource g granted.rule ≡ true) of_path granted.matched;
            allows = granted.allowed;
            requirements = granted.requirements;
            selectable = granted.selectable;
            required = granted.required;
            kind = kind;
            discovered = discovered;
            labels = labels;
            exists = exists;
            matches = matches;
          })
          header withheld (query ∙ ap (λ s. narrow (n.selector_string s) r.query) alone)
          (subst (λ s. IsNarrowed (n.selector_string s) r.query out.query) alone narrowed)

    -- A request to the route of a cluster-scoped object, where the filter collects tenants by
    -- `get_tenants_for_owner`, is passed on in one of two ways. Either its Impersonate-User and
    -- Impersonate-Group values end in the user and the groups of the identity that it resolves to, after
    -- what the client sent there or nothing, and its query is unchanged; or it goes with the proxy's
    -- token, if there is one, without Impersonate-User, Impersonate-Group and Impersonate-Extra headers,
    -- and one requirement is joined to its label selector: then the object exists, and a ProxySetting or
    -- a GlobalProxySettings gives the identity's user or one of its groups a rule that covers the
    -- resource, allows GET and has the requirement, which the labels of the object match.
    pub module_chain-Opened :
        (r out : HttpRequest) → module_chain n get_object r ≡ passed out → Opened r out
    module_chain-Opened r out h =
        Sound-Opened r out
          (subst (λ s. Sound n get_object r s) h (module_chain-IsSound n get_object r))

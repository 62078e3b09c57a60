-- ===== src/Web/Safety.antt =====
-- With what identity and selector a request reaches the API server.
use capsule_proxy.Prelude.{
  String, ◌≡◌, refl, Bool, true, false, ◌&&◌, Option, none, some, List, [], ok, if◌then◌else◌,
  is_empty, arith, Bool-cases, Result-cases, inl, inr,
}
use capsule_proxy.Errors.{Reply, handle_error, handle_resolve_error}
use capsule_proxy.Tenant.{ProxyTenant}
use capsule_proxy.Request.World.{Identity}
use capsule_proxy.Request.Http.{HttpRequest, resolve_user_and_groups}
use capsule_proxy.Request.Reviews.{resolve_idempotent}
use capsule_proxy.Web.Forward.{
  Served, passed, replied, panicked, Handler, handle_request, impersonate_handler, resolve_reply,
}
use capsule_proxy.Web.Middleware.{
  or_next, check_paths, check_jwt, check_user_in_ignored_identity, check_user_in_capsule_group,
  is_from_trusted_source,
}
use capsule_proxy.Web.Routes.{
  KubeFilter, Handle, impersonate, dispatch, module_reply, module_handler, checked, module_chain,
  conclude, serve_module,
}
use capsule_proxy.Web.Sound.{
  Resolves, Sound, impersonates, selects, refuses, panics, impersonated-Sound, selected-Sound,
  IsSound, resolve-SameMessage, Sound-resolved, refuse-Sound,
}

module _ (n : KubeFilter) (handle : Handle) where
  impersonate-IsSound : IsSound n handle (impersonate n)
  unfolding impersonate impersonate_handler
  impersonate-IsSound r = elim (Result-cases (resolve_user_and_groups n.world n.config r)) [
    | inr (e, failed) ↦
        rw (failed, impersonate_handler)
          (refuse-Sound n handle (resolve_reply "cannot retrieve user and group") e r r refl refl)
    | inl ((resolved, id), h) ↦
        rw (h, impersonate_handler) (impersonated-Sound n handle r resolved _ id h refl refl)
  ]

  -- The last step of the handler, on a request that is resolved.
  dispatch-Sound :
      (r : HttpRequest) (id : Identity) (tenants : List ProxyTenant)
      → Resolves n handle r r id
      → n.tenants_for_owner id.username id.groups ≡ ok tenants
      → Sound n handle r (dispatch n (handle tenants r) r)
  unfolding dispatch handle_request
  dispatch-Sound r id tenants h t = elim (Result-cases (handle tenants r)) [
    | inr (e, k) ↦ rw k (refuse-Sound n handle module_reply e r r refl refl)
    | inl (none, k) ↦ rw k (impersonate-IsSound r)
    | inl (some selector, k) ↦
        rw k (selected-Sound n handle r r _ id tenants selector h t k refl refl)
  ]

  module_handler-IsSound : IsSound n handle (module_handler n handle)
  unfolding module_handler
  module_handler-IsSound r = elim (Result-cases (resolve_user_and_groups n.world n.config r)) [
    | inr (e, failed) ↦
        rw (failed, module_handler) (refuse-Sound n handle handle_resolve_error e r r refl refl)
    | inl ((resolved, id), h) ↦
        let same = resolve-SameMessage n handle r resolved id h in
        rw (h, module_handler)
          (elim (Result-cases (n.tenants_for_owner id.username id.groups)) [
            | inr (e, t) ↦ rw t (
                refuse-Sound n handle (λ e'. handle_error e' "cannot list Tenant resources") e r
                  resolved same.header same.query)
            | inl (tenants, t) ↦ rw t (
                Sound-resolved n handle r resolved id _ h (
                  dispatch-Sound resolved id tenants
                    (resolve_idempotent n.world n.config r resolved id h n.world n.config) t))
          ])
  ]

  choose-Sound :
      (r : HttpRequest) (b : Bool) (s t : Served)
      → Sound n handle r s
      → Sound n handle r t
      → Sound n handle r (if b then s else t)
  choose-Sound r true s t p q = p
  choose-Sound r false s t p q = q

  module _ (next : Handler) (sound : IsSound n handle next) where
    or_next-Sound : (o : Option Reply) → IsSound n handle (or_next o next)
    or_next-Sound none r = sound r
    or_next-Sound (some reply) r = refuses reply r refl refl

    check_jwt-IsSound : (tokens : List String) → IsSound n handle (check_jwt n.world tokens next)
    unfolding check_jwt
    check_jwt-IsSound tokens r =
        choose-Sound r _ _ _ (or_next-Sound _ r)
          (choose-Sound r _ _ _ (refuses _ r refl refl) (sound r))

    group-IsSound : IsSound n handle (
        check_user_in_capsule_group n.world n.config n.capsule_users n.capsule_user_groups
          (impersonate n)
          next)
    unfolding check_user_in_capsule_group
    group-IsSound r = elim (Result-cases (resolve_user_and_groups n.world n.config r)) [
      | inr (e, failed) ↦
          rw (failed, check_user_in_capsule_group)
            (refuse-Sound n handle handle_resolve_error e r r refl refl)
      | inl ((resolved, id), h) ↦
          rw (h, check_user_in_capsule_group)
            (Sound-resolved n handle r resolved id _ h
              (choose-Sound resolved _ _ _ (sound resolved) (impersonate-IsSound resolved)))
    ]

    ignored-IsSound : IsSound n handle (
        check_user_in_ignored_identity n.world n.config n.ignored_usernames n.ignored_user_groups
          (impersonate n)
          next)
    unfolding check_user_in_ignored_identity
    ignored-IsSound r =
        elim (Bool-cases (is_empty n.ignored_usernames && is_empty n.ignored_user_groups)) [
          | inl nobody ↦ rw (nobody, check_user_in_ignored_identity) (sound r)
          | inr somebody ↦ elim (Result-cases (resolve_user_and_groups n.world n.config r)) [
            | inr (e, failed) ↦
                rw (somebody, failed, check_user_in_ignored_identity)
                  (refuse-Sound n handle handle_resolve_error e r r refl refl)
            | inl ((resolved, id), h) ↦
                rw (somebody, h, check_user_in_ignored_identity)
                  (Sound-resolved n handle r resolved id _ h
                    (choose-Sound resolved _ _ _ (impersonate-IsSound resolved) (sound resolved)))
          ]
        ]

  module _ (next : Handler) (sound : IsSound n handle next) where
    checked-IsSound : IsSound n handle (checked n next)
    unfolding checked check_paths
    checked-IsSound r =
        choose-Sound r _ _ _ (impersonate-IsSound r) (check_jwt-IsSound next sound [] r)

  -- Whatever a module decides, a request that is passed on goes in one of two ways. Either its
  -- Impersonate-User and Impersonate-Group values end in the user and the groups of the identity that it
  -- resolves to, after what the client sent there or nothing, and its query is unchanged; or it goes
  -- with the proxy's token, if there is one, without Impersonate-User, Impersonate-Group and
  -- Impersonate-Extra headers, and its label selector is the client's, if any, joined with the one that
  -- the module computes from the tenants of that identity. A request that is refused is left with the
  -- header and the query that the client sent.
  pub module_chain-IsSound : (r : HttpRequest) → Sound n handle r (module_chain n handle r)
  unfolding module_chain
  module_chain-IsSound =
      checked-IsSound _
        (checked-IsSound _ (ignored-IsSound _ (group-IsSound _ module_handler-IsSound)))

  refused_unchanged :
      (r out : HttpRequest) (s : Served) (reply : Reply)
      → Sound n handle r s
      → (conclude s).reply ≡ some reply
      → (conclude s).forwarded ≡ some out
      → (out.header ≡ r.header) × (out.query ≡ r.query)
  unfolding conclude
  refused_unchanged r out (passed a) reply (impersonates _ _ _ _ _ _ _) e f = absurd (cc e)
  refused_unchanged r out (passed a) reply (selects _ _ _ _ _ _ _ _ _ _ _ _) e f = absurd (cc e)
  refused_unchanged r out (replied p a) reply (refuses _ _ k q) e f =
      (ground (arith, f, k), ground (arith, f, q))
  refused_unchanged r out (panicked m) reply (panics _) e f = absurd (cc f)

  -- Where the client of a module's route gets a reply of the proxy itself and the request is passed
  -- on all the same, the request goes with the header and the query that the client sent, so without
  -- the proxy's token.
  pub serve_module_refused :
      (r out : HttpRequest) (reply : Reply)
      → (serve_module n handle r).reply ≡ some reply
      → (serve_module n handle r).forwarded ≡ some out
      → (out.header ≡ r.header) × (out.query ≡ r.query)
  unfolding serve_module
  serve_module_refused r out reply e f =
      elim (Bool-cases (is_from_trusted_source n.net r.remote_addr n.trusted_proxy_cidrs)) [
        | inl trusted ↦
            refused_unchanged r out (module_chain n handle r) reply (module_chain-IsSound r)
              (rw (trusted, serve_module) at e) (rw (trusted, serve_module) at f)
        | inr other ↦ absurd (cc (rw (other, serve_module) at f))
      ]

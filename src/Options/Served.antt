-- ===== src/Options/Served.antt =====
-- What a filter that `main` starts does with a request, by the flags.
use capsule_proxy.Prelude.{
  ◌≡◌, ◌⊎◌, inl, inr, true, false, none, some, refl, ◌∙◌, [], ok, All, contains, subst, ap,
  Bool-cases,
}
use capsule_proxy.Go.Text.{is_blank, trim_space}
use capsule_proxy.Request.Http.{HttpRequest}
use capsule_proxy.Web.Forward.{Handler}
use capsule_proxy.Web.Middleware.{check_paths, check_jwt, is_from_trusted_source}
use capsule_proxy.Web.Routes.{KubeFilter, Handle, checked, serve_module, impersonate}
use capsule_proxy.Errors.{Reply, forbidden}
use capsule_proxy.Web.SelfReviews.{ReviewServer, refused, serve_root, authorization_middleware}
use capsule_proxy.Options.{RestConfig, Libraries, CommandLine}
use capsule_proxy.Options.StartUp.{start_up, start_up-ok}
use capsule_proxy.Options.Trusted.{Parsed, host_of, trusted-Configured}

module _ (lib : Libraries) (rest n : KubeFilter) (config : RestConfig) (c : CommandLine)
    (started : start_up lib rest config c ≡ ok n) where
  -- The host of the client is an IP address of a network that one of the texts of the flag names, or all
  -- of them are blank.
  abbrev pub Configured : HttpRequest → Type 0
  Configured r =
      All (λ t. is_blank (trim_space t) ≡ true) c.trusted_proxy_cidrs
      ⊎ ((lib.net.parse_ip (host_of lib.net r.remote_addr) ≡ true)
          × Parsed lib (λ k. lib.net.network_contains k (host_of lib.net r.remote_addr))
              c.trusted_proxy_cidrs)

  abbrev pub untrusted : Reply
  untrusted = record {
    status_code = 403;
    reason = forbidden;
    message = "request source is not allowed";
  }

  -- A request to the started filter comes from an IP address of a network that one of the texts of the
  -- flag `trusted-proxy-cidrs` names, unless all of them are blank; or it is answered with the status 403
  -- and not passed on, on the route of a module and on every path that the root of the router serves, the
  -- self reviews among them.
  pub start_up-Configured :
      (handle : Handle) (s : ReviewServer) (r : HttpRequest)
      → s.filter ≡ n
      → Configured r
        ⊎ ((serve_module n handle r ≡ record { reply = some untrusted; forwarded = none })
            × (serve_root s r ≡ refused untrusted))
  unfolding serve_module serve_root
  start_up-Configured handle s r of =
      let made = start_up-ok lib rest n config c started in
      elim (Bool-cases (is_from_trusted_source n.net r.remote_addr n.trusted_proxy_cidrs)) [
        | inl trusted ↦ inl (
            trusted-Configured lib c.trusted_proxy_cidrs n.trusted_proxy_cidrs r.remote_addr made.1
              (subst (λ net. is_from_trusted_source net r.remote_addr n.trusted_proxy_cidrs ≡ true)
                made.0 trusted))
        | inr other ↦
            let at_root : is_from_trusted_source s.filter.net r.remote_addr
                  s.filter.trusted_proxy_cidrs
                ≡ false =
              ap
                (λ (m : KubeFilter).
                  is_from_trusted_source m.net r.remote_addr m.trusted_proxy_cidrs)
                of
              ∙ other in
            inr (rw (other, serve_module) refl, rw (at_root, serve_root) refl)
      ]

  -- Whatever the flag `allowed-paths` says, the checks of a started filter do what the check of the token
  -- alone does, in front of the handler of a module and behind the middleware that answers self reviews
  -- with a bearer token: the flag exempts no path from it.
  pub start_up-inspects :
      (s : ReviewServer) (next : Handler) (r : HttpRequest)
      → (checked n next r ≡ check_jwt n.world [] next r)
        × (authorization_middleware s (checked n next) r
            ≡ authorization_middleware s (check_jwt n.world [] next) r)
  unfolding checked check_paths contains
  start_up-inspects s next r =
      let empty : n.allowed_paths ≡ [] = (start_up-ok lib rest n config c started).2 in
      (
        ap (λ paths. check_paths paths (impersonate n) (check_jwt n.world [] next) r) empty,
        ap
            (λ paths.
              authorization_middleware s
                (λ r'. check_paths paths (impersonate n) (check_jwt n.world [] next) r') r)
            empty,
      )

-- ===== src/Options/StartUp.antt =====
-- `NewServer` of internal/options/http.go, `NewKubeFilter` of internal/webserver/webserver.go, and
-- how `main` puts them together.
use capsule_proxy.Prelude.{
  String, ◌≡◌, Bool, none, some, [], Result, ok, err, ◌>>=◌, >>=-eq-ok, arith, sym, ap, ◌∙◌,
  Result-cases, ok_injective, inl, inr, if◌then◌else◌,
}
use capsule_proxy.Errors.{Error}
use capsule_proxy.Go.Text.{◌<>◌}
use capsule_proxy.Web.Routes.{KubeFilter}
use capsule_proxy.Web.Token.{TokenState, bearer_expiration_time, refresh}
use capsule_proxy.Options.{
  RestConfig, Libraries, wrap, KubeOpts, HttpOptions, CommandLine, Variables, bound, check_flags,
  parse_cidrs, compile_regexp, new_kube,
}

abbrev checked_stat : Libraries → String → String → Result Error Unit
checked_stat lib path message = elim (lib.stat path) [
  | none ↦ ok tt
  | some e ↦ err (wrap message e)
]

module _ (lib : Libraries) where
  unfoldable pub find_pool : RestConfig → Result Error String
  find_pool config = elim (lib.new_pool config.ca_file) [
    | ok pool ↦ ok pool
    | err _ ↦ elim (lib.new_pool_from_bytes config.ca_data) [
      | ok pool ↦ ok pool
      | err e ↦ err (wrap "cannot find any CA data, nor from file nor from kubeconfig" e)
    ]
  ]

  unfoldable pub new_server : Variables → RestConfig → Result Error HttpOptions
  unfolding find_pool
  new_server v config = do
    _ ←
        (if v.bind_ssl
          then checked_stat lib v.cert_path "cannot lookup TLS certificate file"
          else ok tt)
    _ ←
        (if v.bind_ssl
          then checked_stat lib v.key_path "cannot lookup TLS certificate key file"
          else ok tt)
    pool ← find_pool config
    ok (record {
      is_tls = v.bind_ssl;
      port = v.listening_port;
      crt_path = v.cert_path;
      key_path = v.key_path;
      ca_pool = pool;
    })

  -- `ReverseProxyTransport`: an error, or the settings of TLS.
  unfoldable pub reverse_proxy_transport : KubeOpts → Result Error String
  reverse_proxy_transport opts = elim (lib.transport_config opts.config) [
    | err e ↦ err (wrap "cannot get transport configuration" e)
    | ok config ↦ elim (lib.tls_config_for config) [
      | err e ↦ err (wrap "cannot create tls configuration" e)
      | ok tls ↦ ok tls
    ]
  ]

  abbrev added : String → Result Error Unit
  added group = elim (lib.add_to_scheme group) [
    | none ↦ ok tt
    | some e ↦ err (wrap ("cannot add " <> group <> " to scheme") e)
  ]

  -- The token that the new filter uses, read again from its file where it has expired.
  unfoldable pub initial_token : RestConfig → String
  initial_token config =
      let start : TokenState = record {
        bearer_token = config.bearer_token;
        expiration_time = bearer_expiration_time lib.token_expiry config.bearer_token;
      } in
      (refresh lib.token_expiry lib.now (lib.read_token config.bearer_token_file)
        start).bearer_token

  -- `rest` holds what the options do not decide: the users and groups of the configuration, the
  -- store of tenants, and how selectors are written.
  unfoldable pub new_kube_filter : KubeFilter → KubeOpts → Result Error KubeFilter
  unfolding reverse_proxy_transport initial_token
  new_kube_filter rest opts = elim (reverse_proxy_transport opts) [
    | err e ↦ err (wrap "cannot create transport for reverse proxy" e)
    | ok transport ↦ do
      _ ← added "corev1"
      _ ← added "authorizationv1"
      ok (record {
        world = lib.world;
        net = lib.net;
        config = record {
          auth_types = opts.auth_types;
          ignored_impersonation_groups = opts.ignored_impersonation_groups;
          impersonation_groups_regexp = opts.impersonation_groups_regexp;
          skip_impersonation_review = opts.skip_impersonation_review;
          xfcc_header = opts.xfcc_header;
        };
        token = initial_token opts.config;
        contains_token = rest.contains_token;
        selector_string = rest.selector_string;
        allowed_paths = opts.allowed_paths;
        ignored_usernames = opts.ignored_usernames;
        ignored_user_groups = opts.ignored_groups;
        capsule_users = rest.capsule_users;
        capsule_user_groups = rest.capsule_user_groups;
        trusted_proxy_cidrs = opts.trusted_proxy_cidrs;
        tenants_for_owner = rest.tenants_for_owner;
      })
  ]

  -- What `main` makes of the flags: the filter, or the error it exits with.
  unfoldable pub start_up : KubeFilter → RestConfig → CommandLine → Result Error KubeFilter
  unfolding new_server new_kube_filter
  start_up rest config c = do
    v ← check_flags c.namespace (bound c)
    opts ← new_kube lib v c.skip_impersonation_review config
    server ← new_server v config
    new_kube_filter rest opts

  check_flags-ok : (namespace : String) (v w : Variables) → check_flags namespace v ≡ ok w → v ≡ w
  unfolding check_flags
  check_flags-ok namespace v w h = ground (arith, h)

  new_kube-ok :
      (v : Variables) (skip : Bool) (config : RestConfig) (opts : KubeOpts)
      → new_kube lib v skip config ≡ ok opts
      → (parse_cidrs lib v.trusted_proxy_cidr_strings ≡ ok opts.trusted_proxy_cidrs)
        × (opts.allowed_paths ≡ v.allowed_paths)
  unfolding new_kube
  new_kube-ok v skip config opts h = elim (Result-cases (lib.parse_url config.host)) [
    | inr (e, failed) ↦ absurd (cc (rw (failed, new_kube) at h))
    | inl (url, parsed) ↦ elim (Result-cases (parse_cidrs lib v.trusted_proxy_cidr_strings)) [
      | inr (e, failed) ↦ absurd (cc (rw (parsed, failed, new_kube) at h))
      | inl (cidrs, networks) ↦
          let b =
            >>=-eq-ok (compile_regexp lib v.impersonation_groups_regexp) _
              (rw (parsed, networks, new_kube) at h) in
          let same = ok_injective b.2 in
          (networks ∙ ap (λ o. ok o.trusted_proxy_cidrs) same, sym (ap (λ o. o.allowed_paths) same))
    ]
  ]

  new_kube_filter-ok :
      (rest n : KubeFilter) (opts : KubeOpts)
      → new_kube_filter rest opts ≡ ok n
      → (n.net ≡ lib.net)
        × (n.trusted_proxy_cidrs ≡ opts.trusted_proxy_cidrs)
        × (n.allowed_paths ≡ opts.allowed_paths)
  unfolding new_kube_filter
  new_kube_filter-ok rest n opts h = elim (Result-cases (reverse_proxy_transport opts)) [
    | inr (e, failed) ↦ absurd (cc (rw (failed, new_kube_filter) at h))
    | inl (tls, made) ↦
        let a = >>=-eq-ok (added "corev1") _ (rw (made, new_kube_filter) at h) in
        let b = >>=-eq-ok (added "authorizationv1") _ a.2 in
        let same = ok_injective b.2 in
        (
          sym (ap (λ m. m.net) same),
          sym (ap (λ m. m.trusted_proxy_cidrs) same),
          sym (ap (λ m. m.allowed_paths) same),
        )
  ]

  -- A filter that starts has the networks of the flag and no paths.
  pub start_up-ok :
      (rest n : KubeFilter) (config : RestConfig) (c : CommandLine)
      → start_up rest config c ≡ ok n
      → (n.net ≡ lib.net)
        × (parse_cidrs lib c.trusted_proxy_cidrs ≡ ok n.trusted_proxy_cidrs)
        × (n.allowed_paths ≡ [])
  unfolding start_up bound
  start_up-ok rest n config c h =
      let a = >>=-eq-ok (check_flags c.namespace (bound c)) _ h in
      let b = >>=-eq-ok (new_kube lib a.0 c.skip_impersonation_review config) _ a.2 in
      let d = >>=-eq-ok (new_server a.0 config) _ b.2 in
      let v = check_flags-ok c.namespace (bound c) a.0 a.1 in
      let o = new_kube-ok a.0 c.skip_impersonation_review config b.0 b.1 in
      let f = new_kube_filter-ok rest n b.0 d.2 in
      (
        f.0,
        ap (λ w. parse_cidrs lib w.trusted_proxy_cidr_strings) v
            ∙ o.0
            ∙ ap (λ networks. ok networks) (sym f.1),
        f.2 ∙ o.1 ∙ sym (ap (λ w. w.allowed_paths) v),
      )

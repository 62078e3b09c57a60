-- ===== src/Examples/StartUp.antt =====
-- A filter that starts with one trusted network, and a request from inside it.
use capsule_proxy.Prelude.{◌≡◌, ◌⊎◌, refl, true, false, none, some, [], ◌∷◌, ok, All, ◌==◌}
use capsule_proxy.Go.Text.{is_blank, trim_space}
use capsule_proxy.Request.Http.{tls_certificate, bearer_token_auth}
use capsule_proxy.Web.Middleware.{Net, check_jwt}
use capsule_proxy.Web.Routes.{KubeFilter, checked, impersonate, serve_module}
use capsule_proxy.Errors.{forbidden}
use capsule_proxy.Web.SelfReviews.{ReviewServer, refused, serve_root, authorization_middleware}
use capsule_proxy.Examples.SelfReviews.{sample_server}
use capsule_proxy.Options.{RestConfig, Libraries, CommandLine}
use capsule_proxy.Options.StartUp.{start_up}
use capsule_proxy.Options.Trusted.{Parsed, host_of}
use capsule_proxy.Options.Served.{start_up-Configured, start_up-inspects}
use capsule_proxy.Examples.Sample.{sample_world, sample_request}
use capsule_proxy.Examples.Handlers.{sample_filter, refusing}

abbrev inner_net : Net
inner_net = record {
  split_host_port = λ addr. some "10.0.0.1";
  parse_ip = λ host. host == "10.0.0.1";
  network_contains = λ network host. network == "10.0.0.0/8";
}

abbrev sample_libraries : Libraries
sample_libraries = record {
  world = sample_world;
  net = inner_net;
  parse_url = λ host. ok host;
  parse_cidr = λ cidr. ok cidr;
  stat = λ path. none;
  new_pool = λ file. ok "pool";
  new_pool_from_bytes = λ data_of. ok "pool";
  transport_config = λ config. ok "transport";
  tls_config_for = λ config. ok "tls";
  add_to_scheme = λ group. none;
  token_expiry = λ token. none;
  now = 0;
  read_token = λ path. "";
}

abbrev sample_rest : RestConfig
sample_rest = record {
  host = "https://10.0.0.2";
  bearer_token = "token";
  bearer_token_file = "";
  ca_file = "ca.crt";
  ca_data = "";
}

abbrev sample_flags : CommandLine
sample_flags = record {
  namespace = "capsule-system";
  allowed_paths = "/api" ∷ "/apis" ∷ "/version" ∷ [];
  trusted_proxy_cidrs = " " ∷ " 10.0.0.0/8" ∷ [];
  xfcc_header_name = "";
  ignored_user_group = [];
  ignored_username = [];
  ignored_impersonation_group = "ops" ∷ [];
  impersonation_group_regexp = "";
  listening_port = 9001;
  oidc_username_claim = "preferred_username";
  capsule_configuration_name = "default";
  enable_reflector = false;
  enable_pprof = false;
  rolebindings_resync_period = 36000;
  enable_ssl = true;
  ssl_cert_path = "tls.crt";
  ssl_key_path = "tls.key";
  auth_preferred_types = bearer_token_auth ∷ tls_certificate ∷ [];
  skip_impersonation_review = false;
}

abbrev sample_started : KubeFilter
sample_started = record sample_filter {
  net = inner_net;
  token = "token";
  allowed_paths = [];
  ignored_usernames = [];
  ignored_user_groups = [];
  trusted_proxy_cidrs = "10.0.0.0/8" ∷ [];
}

sample_starts : start_up sample_libraries sample_filter sample_rest sample_flags ≡ ok sample_started
unfolding start_up capsule_proxy.Options.check_flags capsule_proxy.Options.bound
    capsule_proxy.Options.new_kube trim_space capsule_proxy.Web.Token.refresh
sample_starts = refl

abbrev started_server : ReviewServer
started_server = record sample_server { filter = sample_started }

start_up-Configured_example :
    (All (λ t. is_blank (trim_space t) ≡ true) sample_flags.trusted_proxy_cidrs
      ⊎ ((inner_net.parse_ip (host_of inner_net sample_request.remote_addr) ≡ true)
          × Parsed sample_libraries
              (λ k. inner_net.network_contains k (host_of inner_net sample_request.remote_addr))
              sample_flags.trusted_proxy_cidrs))
    ⊎ ((serve_module sample_started refusing sample_request ≡ record {
      reply = some (record {
        status_code = 403;
        reason = forbidden;
        message = "request source is not allowed";
      });
      forwarded = none;
    })
        × (serve_root started_server sample_request
            ≡ refused (record {
              status_code = 403;
              reason = forbidden;
              message = "request source is not allowed";
            })))
start_up-Configured_example =
    start_up-Configured sample_libraries sample_filter sample_started sample_rest sample_flags
      sample_starts refusing started_server sample_request refl

start_up-inspects_example :
    (checked sample_started (impersonate sample_started) sample_request
      ≡ check_jwt sample_world [] (impersonate sample_started) sample_request)
    × (authorization_middleware started_server
          (checked sample_started (impersonate sample_started))
          sample_request
        ≡ authorization_middleware started_server
            (check_jwt sample_world [] (impersonate sample_started))
            sample_request)
start_up-inspects_example =
    start_up-inspects sample_libraries sample_filter sample_started sample_rest sample_flags
      sample_starts started_server (impersonate sample_started) sample_request

-- ===== src/Options.antt =====
-- internal/options and the start of main.go: the flags, the options that are made of them and the
-- filter that is made of the options. `Libraries` stands for package net, net/url, os and client-go.
pub mod Trusted
pub mod StartUp
pub mod Served
use capsule_proxy.Prelude.{
  ℕ, String, Bool, true, false, not, ◌&&◌, Option, none, some, List, [], ◌∷◌, ◌++◌, Result, ok, err,
  ◌>>=◌, if◌then◌else◌,
}
use capsule_proxy.Errors.{Error, fault, error_message}
use capsule_proxy.Go.Text.{◌<>◌, is_blank, trim_space}
use capsule_proxy.Labels.{Selector}
use capsule_proxy.Tenant.{ProxyTenant}
use capsule_proxy.Request.World.{World}
use capsule_proxy.Request.Http.{AuthType}
use capsule_proxy.Web.Middleware.{Net}
use capsule_proxy.Web.Routes.{KubeFilter}
use capsule_proxy.Web.Token.{TokenState, bearer_expiration_time, refresh}

-- `rest.Config`, as far as it is read.
pub record RestConfig : Type 0 where
  pub host : String
  pub bearer_token : String
  pub bearer_token_file : String
  pub ca_file : String
  pub ca_data : String

pub record Libraries : Type 0 where
  pub world : World
  pub net : Net
  -- `url.Parse`
  pub parse_url : String → Result Error String
  -- `net.ParseCIDR`: the network.
  pub parse_cidr : String → Result Error String
  -- `os.Stat`: its error.
  pub stat : String → Option Error
  -- `cert.NewPool` and `cert.NewPoolFromBytes`
  pub new_pool : String → Result Error String
  pub new_pool_from_bytes : String → Result Error String
  -- `TransportConfig` and `transport.TLSConfigFor`
  pub transport_config : RestConfig → Result Error String
  pub tls_config_for : String → Result Error String
  -- `AddToScheme` of the named group: its error.
  pub add_to_scheme : String → Option Error
  -- The claim `exp` of a token, the time in seconds, and `os.ReadFile` of the token's file, the
  -- empty text where it fails.
  pub token_expiry : String → Option ℕ
  pub now : ℕ
  pub read_token : String → String

-- An error with a text in front, as `%w` and `errors.Wrap` leave it.
abbrev wrap : String → Error → Error
wrap message e = fault (message <> ": " <> error_message e)

pub record KubeOpts : Type 0 where
  pub auth_types : List AuthType
  pub allowed_paths : List String
  pub url : String
  pub ignored_groups : List String
  pub ignored_usernames : List String
  pub ignored_impersonation_groups : List String
  pub skip_impersonation_review : Bool
  pub claim_name : String
  pub impersonation_groups_regexp : Option (String → Bool)
  pub config : RestConfig
  pub trusted_proxy_cidrs : List String
  pub xfcc_header : String

pub record HttpOptions : Type 0 where
  pub is_tls : Bool
  pub port : ℕ
  pub crt_path : String
  pub key_path : String
  pub ca_pool : String

-- The flags as `flag.Parse` reads them, each by its name, and the variable NAMESPACE.
pub record CommandLine : Type 0 where
  pub namespace : String
  pub allowed_paths : List String
  pub trusted_proxy_cidrs : List String
  pub xfcc_header_name : String
  pub ignored_user_group : List String
  pub ignored_username : List String
  pub ignored_impersonation_group : List String
  pub impersonation_group_regexp : String
  pub listening_port : ℕ
  pub oidc_username_claim : String
  pub capsule_configuration_name : String
  pub enable_reflector : Bool
  pub enable_pprof : Bool
  pub rolebindings_resync_period : ℕ
  pub enable_ssl : Bool
  pub ssl_cert_path : String
  pub ssl_key_path : String
  pub auth_preferred_types : List AuthType
  pub skip_impersonation_review : Bool

-- The variables of `main` that the flags are bound to.
pub record Variables : Type 0 where
  pub capsule_user_groups : List String
  pub allowed_paths : List String
  pub trusted_proxy_cidr_strings : List String
  pub xfcc_header_name : String
  pub ignored_user_groups : List String
  pub ignored_usernames : List String
  pub ignore_impersonation_groups : List String
  pub impersonation_groups_regexp : String
  pub listening_port : ℕ
  pub username_claim_field : String
  pub capsule_configuration_name : String
  pub role_binding_reflector : Bool
  pub enable_pprof : Bool
  pub rolebindings_resync_period : ℕ
  pub bind_ssl : Bool
  pub cert_path : String
  pub key_path : String
  pub auth_types : List AuthType

-- The flag `allowed-paths` is bound to `capsuleUserGroups`; nothing is bound to `allowedPaths`.
unfoldable pub bound : CommandLine → Variables
bound c = record {
  capsule_user_groups = c.allowed_paths;
  allowed_paths = [];
  trusted_proxy_cidr_strings = c.trusted_proxy_cidrs;
  xfcc_header_name = c.xfcc_header_name;
  ignored_user_groups = c.ignored_user_group;
  ignored_usernames = c.ignored_username;
  ignore_impersonation_groups = c.ignored_impersonation_group;
  impersonation_groups_regexp = c.impersonation_group_regexp;
  listening_port = c.listening_port;
  username_claim_field = c.oidc_username_claim;
  capsule_configuration_name = c.capsule_configuration_name;
  role_binding_reflector = c.enable_reflector;
  enable_pprof = c.enable_pprof;
  rolebindings_resync_period = c.rolebindings_resync_period;
  bind_ssl = c.enable_ssl;
  cert_path = c.ssl_cert_path;
  key_path = c.ssl_key_path;
  auth_types = c.auth_preferred_types;
}

-- What `main` refuses before it makes a manager.
unfoldable pub check_flags : String → Variables → Result Error Variables
check_flags namespace v =
    if is_blank namespace
    then err (fault "unable to determinate the Namespace Proxy is running on")
    else if not v.bind_ssl && not (is_blank v.cert_path)
    then err (fault "cannot use a Certificate when TLS/SSL mode is disabled")
    else if not v.bind_ssl && not (is_blank v.key_path)
    then err (fault "cannot use a Certificate key when TLS/SSL mode is disabled")
    else ok v

module _ (lib : Libraries) where
  -- The loop of `parseCIDRs`, with `result`.
  unfoldable pub parse_cidrs_loop : List String → List String → Result Error (List String)
  parse_cidrs_loop result [] = ok result
  parse_cidrs_loop result (cidr ∷ cidrs) = elim (is_blank (trim_space cidr)) [
    | true ↦ parse_cidrs_loop result cidrs
    | false ↦ elim (lib.parse_cidr (trim_space cidr)) [
      | err e ↦ err (wrap ("invalid trusted proxy CIDR \"" <> trim_space cidr <> "\"") e)
      | ok network ↦ parse_cidrs_loop (result ++ network ∷ []) cidrs
    ]
  ]

  unfoldable pub parse_cidrs : List String → Result Error (List String)
  unfolding parse_cidrs_loop
  parse_cidrs = parse_cidrs_loop []

  -- The expression of `NewKube`, if there is one. The text of the compiler's error is left out.
  unfoldable pub compile_regexp : String → Result Error (Option (String → Bool))
  compile_regexp pattern = if is_blank pattern then ok none else elim (lib.world.compile pattern) [
    | none ↦ err (fault "cannot create Kubernetes Options due to failed regexp compilation")
    | some matches ↦ ok (some matches)
  ]

  unfoldable pub new_kube : Variables → Bool → RestConfig → Result Error KubeOpts
  unfolding parse_cidrs compile_regexp
  new_kube v skip config = elim (lib.parse_url config.host) [
    | err e ↦ err (wrap "cannot create Kubernetes Options due to failed URL parsing" e)
    | ok url ↦ elim (parse_cidrs v.trusted_proxy_cidr_strings) [
      | err e ↦ err (wrap "failed to parse trusted proxy CIDRs" e)
      | ok cidrs ↦ do
        regexp ← compile_regexp v.impersonation_groups_regexp
        ok (record {
          auth_types = v.auth_types;
          allowed_paths = v.allowed_paths;
          url = url;
          ignored_groups = v.ignored_user_groups;
          ignored_usernames = v.ignored_usernames;
          ignored_impersonation_groups = v.ignore_impersonation_groups;
          skip_impersonation_review = skip;
          claim_name = v.username_claim_field;
          impersonation_groups_regexp = regexp;
          config = config;
          trusted_proxy_cidrs = cidrs;
          xfcc_header = v.xfcc_header_name;
        })
    ]
  ]

-- ===== src/Examples/Sample.antt =====
-- A client, a world, a request and rules that the examples share.
use capsule_proxy.Prelude.{true, false, none, some, List, [], ◌∷◌, ◌==◌, ok, err}
use capsule_proxy.Errors.{fault}
use capsule_proxy.Labels.{Requirement, LabelApi, KeepsFields}
use capsule_proxy.Request.World.{World, Identity}
use capsule_proxy.Request.Http.{HttpRequest, Config, tls_certificate, bearer_token_auth}
use capsule_proxy.Cluster.Resource.{ClusterResource}
use capsule_proxy.Tenant.{Tenant, ProxyTenant}

abbrev pub alice : Identity
alice = record { username = "alice"; groups = "devs" ∷ [] }

-- The API server allows every review and the only invalid thing is a certificate.
abbrev pub sample_world : World
sample_world = record {
  access_review = λ review. ok true;
  token_review = λ token. ok (record { authenticated = true; error = ""; user = alice });
  compile = λ pattern. some (λ g. g == pattern);
  decode_base64 = λ s. ok s;
  query_unescape = λ s. ok s;
  pem_decode = λ s. (none, s);
  parse_certificate = λ s. err (fault "no certificate");
  sha256_hex = λ s. s;
  split_username = λ s. none;
}

abbrev pub sample_config : Config
sample_config = record {
  auth_types = bearer_token_auth ∷ tls_certificate ∷ [];
  ignored_impersonation_groups = "ops" ∷ [];
  impersonation_groups_regexp = none;
  skip_impersonation_review = false;
  xfcc_header = "";
}

-- A client with a certificate that impersonates a user and two groups, one of them ignored.
abbrev pub sample_request : HttpRequest
sample_request = record {
  method = "GET";
  remote_addr = "10.0.0.1:5000";
  path = "/apis/storage.k8s.io/v1/storageclasses/fast";
  query = [];
  header = ("Impersonate-User", "bob" ∷ []) ∷ ("Impersonate-Group", "qa" ∷ "ops" ∷ []) ∷ [];
  tls = some (alice ∷ []);
  context = none;
}

abbrev pub sample_requirement : Requirement
sample_requirement = record { key = "team"; operator = "in"; values = "blue" ∷ [] }

-- Requirements are made as they are asked for, and every selector asks for the same.
abbrev pub sample_api : LabelApi
sample_api = record {
  new_requirement =
      λ key operator values. ok (record { key = key; operator = operator; values = values });
  matches = λ r labels. true;
  as_selector = λ s. ok (sample_requirement ∷ [], true);
  selector_string = λ s. "team in (blue)";
}

pub sample_api-KeepsFields : KeepsFields sample_api
sample_api-KeepsFields = record { fields = λ key operator vs r h. (cc h, cc h, λ v. cc h) }

abbrev pub sample_rule : ClusterResource
sample_rule = record {
  api_groups = "storage.k8s.io" ∷ [];
  resources = "storageclasses" ∷ [];
  operations = "List" ∷ [];
  selector = none;
}

abbrev pub sample_tenant : Tenant
sample_tenant = record {
  name = "oil";
  labels = [];
  namespaces = "oil-prod" ∷ [];
  owners = [];
  node_selector = [];
  ingress_classes = none;
  storage_classes = none;
  priority_classes = none;
  runtime_classes = none;
}

abbrev pub sample_proxy_tenants : List ProxyTenant
sample_proxy_tenants =
    record { tenant = sample_tenant; proxy_setting = none; cluster_resources = sample_rule ∷ [] }
    ∷ []

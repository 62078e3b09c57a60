-- ===== src/Examples/SelfReviews.antt =====
-- Self reviews by a client with a token and by a client with a certificate.
use capsule_proxy.Prelude.{
  Char, code, eqb, inl, lookup, String, ◌≡◌, refl, Bool, true, false, Option, none, some, List, [],
  ◌∷◌, ok, ◌↔◌, ◌⊎◌, ◌==◌, if◌then◌else◌,
}
use capsule_proxy.Errors.{Reply}
use capsule_proxy.Go.Header.{Header}
use capsule_proxy.Request.World.{World}
use capsule_proxy.Request.Http.{HttpRequest, Config, tls_certificate, bearer_token_auth}
use capsule_proxy.Authorization.{Review, ResourceAttributes, AccessStatus, access_review}
use capsule_proxy.Authorization.Reviews.{Served}
use capsule_proxy.Web.Forward.{Handler, passed}
use capsule_proxy.Web.Routes
use capsule_proxy.Web.Routes.{KubeFilter, checked}
use capsule_proxy.Web.SelfReviews.{
  ReviewServer, Response, answered, refused, authorization_middleware,
}
use capsule_proxy.Web.Answers.{RoundTrips, self_review-allowed}
use capsule_proxy.Web.Certificates.{OfCertificate, certificate_review_refused}
use capsule_proxy.Examples.Handlers.{sample_filter}
use capsule_proxy.Examples.Sample.{alice, sample_api, sample_world, sample_proxy_tenants}

abbrev asked : ResourceAttributes
asked = record { namespace = ""; verb = "list"; group = ""; version = "v1"; resource = "pods" }

abbrev denied_status : AccessStatus
denied_status = record { allowed = false; denied = false; reason = "" }

abbrev review_response : Response
review_response = record {
  status_code = 201;
  header = ("Content-Length", "6" ∷ []) ∷ ("Content-Type", "application/json" ∷ []) ∷ [];
  body = "00";
}

abbrev bit : Bool → Char
bit true = "1"
bit false = "0"

abbrev is_one : Char → Bool
is_one c = eqb (code c) 49

-- A status is two digits and its reason; every review is of the pods.
abbrev written_status : AccessStatus → String
written_status status =
    String.◌∷◌ (bit status.allowed) (String.◌∷◌ (bit status.denied) status.reason)

abbrev written_review : Review → Option String
written_review (access_review a status) = some (written_status status)
written_review review = none

abbrev read_review : String → Option Review
read_review (String.◌∷◌ c (String.◌∷◌ d reason)) =
    some (
      access_review (some asked)
        (record { allowed = is_one c; denied = is_one d; reason = reason }))
read_review text = none

abbrev pub sample_server : ReviewServer
sample_server = record {
  filter = sample_filter;
  api = sample_api;
  proxy_cluster_scoped = false;
  namespaced_resources = "/pods" ∷ [];
  upstream = λ r. review_response;
  written = λ reply. record { status_code = reply.status_code; header = []; body = reply.message };
  decode = read_review;
  encode_json = written_review;
  encode_protobuf = written_review;
  media_type = λ value. "application/json";
}

abbrev review_path : String
review_path = "/apis/authorization.k8s.io/v1/selfsubjectaccessreviews"

abbrev token_request : HttpRequest
token_request = record {
  method = "POST";
  remote_addr = "10.0.0.1:5000";
  path = review_path;
  query = [];
  header = ("Authorization", "Bearer t" ∷ []) ∷ [];
  tls = none;
  context = none;
}

abbrev passes : Handler
passes r = passed r

read-written :
    (status : AccessStatus)
    → read_review (written_status status) ≡ some (access_review (some asked) status)
read-written status = go status.allowed status.denied status.reason
  where
    go :
        (allowed denied : Bool) (reason : String)
        → read_review (String.◌∷◌ (bit allowed) (String.◌∷◌ (bit denied) reason))
          ≡ some (
              access_review
                (some asked)
                (record { allowed = allowed; denied = denied; reason = reason }))
    go true true reason = refl
    go true false reason = refl
    go false true reason = refl
    go false false reason = refl

sample_codecs : RoundTrips sample_server asked
sample_codecs = record {
  json = λ status. (written_status status, refl, read-written status);
  protobuf = λ status. (written_status status, refl, read-written status);
}

self_review-allowed_example :
    (response : Response) × (after : AccessStatus) × (authorization_middleware sample_server passes
        token_request
      ≡ answered response)
    × (response.status_code ≡ 201)
    × ((name : String)
        → lookup name response.header
          ≡ (if name == "Content-Length" then none else lookup name review_response.header))
    × (read_review response.body ≡ some (access_review (some asked) after))
    × ((after.allowed ≡ true)
        ↔ ((false ≡ true) ⊎ Served sample_api false sample_proxy_tenants ("/pods" ∷ []) asked))
unfolding capsule_proxy.Prelude.contains capsule_proxy.Web.SelfReviews.has_bearer_token
    capsule_proxy.Go.Header.get capsule_proxy.Go.Header.values capsule_proxy.Prelude.lookup
    capsule_proxy.Go.Header.canonical capsule_proxy.Go.Text.equal_fold
    capsule_proxy.Request.Http.resolve_user_and_groups
    capsule_proxy.Request.Http.get_user_and_groups capsule_proxy.Go.Text.trim_prefix
    capsule_proxy.Request.Impersonation.get_impersonating_groups
    capsule_proxy.Request.Impersonation.get_impersonating_user
self_review-allowed_example =
    self_review-allowed sample_server passes token_request asked denied_status
      (record token_request { context = some alice }, alice) sample_proxy_tenants sample_codecs refl
      refl refl refl refl (inl refl)

-- The API server allows no impersonation.
abbrev refusing_world : World
refusing_world = record sample_world { access_review = λ review. ok false }

abbrev certificate_config : Config
certificate_config = record {
  auth_types = tls_certificate ∷ bearer_token_auth ∷ [];
  ignored_impersonation_groups = [];
  impersonation_groups_regexp = none;
  skip_impersonation_review = false;
  xfcc_header = "";
}

abbrev refusing_server : ReviewServer
refusing_server = record sample_server {
  filter = record sample_filter { world = refusing_world; config = certificate_config };
}

abbrev certificate_request : HttpRequest
certificate_request = record token_request { header = []; tls = some (alice ∷ []) }

abbrev alice-OfCertificate : OfCertificate certificate_config certificate_request alice
alice-OfCertificate = record {
  others = bearer_token_auth ∷ [];
  preferred = refl;
  reviews = refl;
  no_ignored = refl;
  no_regexp = refl;
  chain = [];
  certificates = refl;
  unresolved = refl;
}

certificate_review_refused_example :
    (reply : Reply) × (authorization_middleware refusing_server
        (checked refusing_server.filter (Routes.impersonate refusing_server.filter))
        certificate_request
      ≡ refused reply)
    × (reply.status_code ≡ 403)
unfolding capsule_proxy.Prelude.contains capsule_proxy.Go.Header.get capsule_proxy.Go.Header.values
    capsule_proxy.Prelude.lookup
certificate_review_refused_example =
    certificate_review_refused refusing_server certificate_request alice alice-OfCertificate
      (λ resource name. refl) refl refl refl refl refl

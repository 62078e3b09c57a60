-- ===== src/Web/SelfReviews.antt =====
-- `authorizationMiddleware` of internal/webserver/webserver.go, the constants of
-- internal/authorization/const.go and internal/webserver/middleware/trusted-source.go as the root of
-- the router uses them: how a self review is answered.
use capsule_proxy.Prelude.{
  ℕ, String, Bool, false, not, Option, none, some, List, [], ◌∷◌, ◌==◌, keep, contains,
  if◌then◌else◌, Result, ok, err,
}
use capsule_proxy.Errors.{
  Error, unauthorized, module_error, fault, panic, Reply, forbidden, handle_error,
  handle_resolve_error,
}
use capsule_proxy.Go.Text.{◌<>◌, equal_fold, fields}
use capsule_proxy.Go.Header.{Header, get}
use capsule_proxy.Labels.{LabelApi}
use capsule_proxy.Tenant.{ProxyTenant}
use capsule_proxy.Request.Http.{HttpRequest, resolve_user_and_groups}
use capsule_proxy.Authorization.{Review, mutate_authorization}
use capsule_proxy.Web.Forward.{Served, passed, replied, panicked, Handler}
use capsule_proxy.Web.Middleware.{is_from_trusted_source}
use capsule_proxy.Web.Routes.{KubeFilter, checked, impersonate}

abbrev pub self_review_paths : List String
self_review_paths =
    "/apis/authorization.k8s.io/v1/selfsubjectaccessreviews"
    ∷ "/apis/authorization.k8s.io/v1/selfsubjectrulesreviews" ∷ []

-- What a response writer was given.
pub record Response : Type 0 where
  pub status_code : ℕ
  pub header : Header
  pub body : String

-- What the middleware calls: the API server behind the reverse proxy, the response that a reply of the
-- proxy writes, the decoder, which names no kind where it fails, the encoders, which may fail, and
-- `ParseMediaType`, with an empty type where it fails.
pub record ReviewServer : Type 0 where
  pub filter : KubeFilter
  pub api : LabelApi
  pub proxy_cluster_scoped : Bool
  pub namespaced_resources : List String
  pub upstream : HttpRequest → Response
  pub written : Reply → Response
  pub decode : String → Option Review
  pub encode_json : Review → Option String
  pub encode_protobuf : Review → Option String
  pub media_type : String → String

unfoldable pub has_bearer_token : Header → Bool
unfolding fields
has_bearer_token h = elim (fields (get h "Authorization")) [
  | scheme ∷ token ∷ rest ↦ equal_fold scheme "Bearer"
  | _ ↦ false
]

-- What becomes of a request on any path: the rest of the chain serves it, or it is answered here.
pub data Reviewed : Type 0 where
  served : Served → Reviewed
  answered : Response → Reviewed
  refused : Reply → Reviewed
  crashed : String → Reviewed

abbrev refuse_review : (Error → Reply) → Error → Reviewed
refuse_review reply (unauthorized m) = refused (reply (unauthorized m))
refuse_review reply (module_error s) = refused (reply (module_error s))
refuse_review reply (fault m) = refused (reply (fault m))
refuse_review reply (panic m) = crashed m

abbrev or_body : Option String → String → String
or_body none body = body
or_body (some encoded) body = encoded

module _ (s : ReviewServer) where
  -- `reverseProxyMiddleware` calls the API server after a reply has been written too: the status and
  -- the header of the recorder are those of the reply, its body has both.
  abbrev pub with_upstream : Response → Response → Response
  with_upstream first second = record first { body = first.body <> second.body }

  unfoldable pub encode_as : String → Review → String → String
  encode_as media_type object body =
      if media_type == "application/json"
      then or_body (s.encode_json object) body
      else if media_type == "application/vnd.kubernetes.protobuf"
      then or_body (s.encode_protobuf object) body
      else body

  -- The loop over the header of the result, which skips the length.
  unfoldable pub copied_header : Header → Header
  copied_header = keep (λ (entry : String × List String). not (entry.0 == "Content-Length"))

  -- The object after `MutateAuthorization`, whose error is only logged and leaves it as it is.
  abbrev or_object : Review → Result Error Review → Review
  or_object object (ok mutated) = mutated
  or_object object (err e) = object

  -- From the decoding of the body on.
  unfoldable pub answer_review : List ProxyTenant → Header → Response → Reviewed
  unfolding encode_as copied_header
  answer_review tenants header result = elim (s.decode result.body) [
    | none ↦ crashed "invalid memory address or nil pointer dereference"
    | some object ↦
        let mutated = or_object object (
          mutate_authorization s.api s.proxy_cluster_scoped tenants s.namespaced_resources
            object) in
        answered (record {
          status_code = result.status_code;
          header = copied_header result.header;
          body = encode_as (s.media_type (get header "Content-Type")) mutated result.body;
        })
  ]

  -- From the result of the recorder on. The request is as the recorded handler left its header.
  unfoldable pub review_result : HttpRequest → Response → Reviewed
  unfolding answer_review
  review_result r result = elim (resolve_user_and_groups s.filter.world s.filter.config r) [
    | err e ↦ refuse_review handle_resolve_error e
    | ok resolved ↦ elim (s.filter.tenants_for_owner resolved.1.username resolved.1.groups) [
      | err e ↦ refuse_review (λ e'. handle_error e' "cannot list Tenant resources") e
      | ok tenants ↦ answer_review tenants resolved.0.header result
    ]
  ]

  -- A self review without a bearer token is recorded behind the rest of the chain. The handlers there
  -- change the header and the URL of the request in place, which their copies of it share; only the
  -- context of a copy is its own.
  unfoldable pub recorded_review : HttpRequest → Served → Reviewed
  unfolding review_result
  recorded_review r (panicked m) = crashed m
  recorded_review r (passed r') = review_result (record r' { context = r.context }) (s.upstream r')
  recorded_review r (replied reply r') =
      review_result (record r' { context = r.context })
        (with_upstream (s.written reply) (s.upstream r'))

  unfoldable pub authorization_middleware : Handler → HttpRequest → Reviewed
  unfolding has_bearer_token review_result recorded_review
  authorization_middleware next r =
      if not (contains self_review_paths r.path)
      then served (next r)
      else if has_bearer_token r.header
      then review_result r (s.upstream r)
      else recorded_review r (next r)

  -- The root of the router on a path without a module: `checked` are the middleware that are left.
  unfoldable pub serve_root : HttpRequest → Reviewed
  unfolding authorization_middleware
  serve_root r =
      if is_from_trusted_source s.filter.net r.remote_addr s.filter.trusted_proxy_cidrs
      then authorization_middleware (checked s.filter (impersonate s.filter)) r
      else refused (record {
        status_code = 403;
        reason = forbidden;
        message = "request source is not allowed";
      })

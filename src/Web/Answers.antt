-- ===== src/Web/Answers.antt =====
-- What the client of a self review is told, by `authorizationMiddleware` of
-- internal/webserver/webserver.go and `MutateAuthorization` together.
use capsule_proxy.Prelude.{
  String, ◌≡◌, refl, true, none, some, List, [], ◌∷◌, contains, keep, lookup, ok, ◌⊎◌, inl, inr,
  ◌↔◌, ◌==◌, eq_iff, arith, if◌then◌else◌,
}
use capsule_proxy.Go.Header.{Header, get}
use capsule_proxy.Request.World.{Identity}
use capsule_proxy.Request.Http.{HttpRequest, resolve_user_and_groups}
use capsule_proxy.Tenant.{ProxyTenant}
use capsule_proxy.Authorization.{ResourceAttributes, AccessStatus, access_review}
use capsule_proxy.Authorization.Reviews.{Served, access_review-allowed}
use capsule_proxy.Web.Forward.{Handler}
use capsule_proxy.Web.SelfReviews.{
  ReviewServer, Response, self_review_paths, has_bearer_token, answered, copied_header, encode_as,
  answer_review, review_result, authorization_middleware,
}

-- What the codecs of Kubernetes promise for the reviews of `a`: each is encoded, in either format, as a
-- text that is decoded as that review.
pub record RoundTrips (s : ReviewServer) (a : ResourceAttributes) : Type 0 where
  pub json :
      (status : AccessStatus)
      → (text : String) × (s.encode_json (access_review (some a) status) ≡ some text)
        × (s.decode text ≡ some (access_review (some a) status))
  pub protobuf :
      (status : AccessStatus)
      → (text : String) × (s.encode_protobuf (access_review (some a) status) ≡ some text)
        × (s.decode text ≡ some (access_review (some a) status))

lookup-copied_header :
    (s : ReviewServer) (h : Header) (name : String)
    → lookup name (copied_header s h) ≡ (if name == "Content-Length" then none else lookup name h)
unfolding copied_header keep lookup
lookup-copied_header s [] name = ground arith
lookup-copied_header s ((k, vs) ∷ h) name = ground (
  arith,
  eq_iff k name,
  eq_iff k "Content-Length",
  eq_iff name "Content-Length",
  lookup-copied_header s h name,
)

-- The body is encoded in the format of the request's content type.
encode_as-decodes :
    (s : ReviewServer) (media body : String) (a : ResourceAttributes) (status : AccessStatus)
    → RoundTrips s a
    → (media ≡ "application/json") ⊎ (media ≡ "application/vnd.kubernetes.protobuf")
    → s.decode (encode_as s media (access_review (some a) status) body)
      ≡ some (access_review (some a) status)
unfolding encode_as
encode_as-decodes s media body a status codecs (inl is) =
    let (text, encoded, back) = codecs.json status in rw (is, encoded) back
encode_as-decodes s media body a status codecs (inr is) =
    let (text, encoded, back) = codecs.protobuf status in rw (is, encoded) back

-- An access review in JSON or protobuf on one of the two paths, by a client with a bearer token that is
-- resolved and whose tenants are found, is answered with the status code of the API server's answer and
-- its header without Content-Length. If reviews can be encoded and decoded again, the body decodes as
-- the same review, allowed exactly where the API server allowed it or the proxy serves the request:
-- a list of namespaces; a list or watch of a proxied resource with no namespace named, by a subject with
-- a tenant; or, where cluster-scoped rules are on, a list or get that a rule grants.
pub self_review-allowed :
    (s : ReviewServer) (next : Handler) (r : HttpRequest) (a : ResourceAttributes)
    (status : AccessStatus) (resolved : HttpRequest × Identity) (tenants : List ProxyTenant)
    → RoundTrips s a
    → contains self_review_paths r.path ≡ true
    → has_bearer_token r.header ≡ true
    → resolve_user_and_groups s.filter.world s.filter.config r ≡ ok resolved
    → s.filter.tenants_for_owner resolved.1.username resolved.1.groups ≡ ok tenants
    → s.decode (s.upstream r).body ≡ some (access_review (some a) status)
    → (s.media_type (get resolved.0.header "Content-Type") ≡ "application/json")
      ⊎ (s.media_type (get resolved.0.header "Content-Type")
          ≡ "application/vnd.kubernetes.protobuf")
    → (response : Response) × (after : AccessStatus) × (authorization_middleware s next r
        ≡ answered response)
      × (response.status_code ≡ (s.upstream r).status_code)
      × ((name : String)
          → lookup name response.header
            ≡ (if name == "Content-Length" then none else lookup name (s.upstream r).header))
      × (s.decode response.body ≡ some (access_review (some a) after))
      × ((after.allowed ≡ true) ↔ (
          (status.allowed ≡ true)
          ⊎ Served s.api s.proxy_cluster_scoped tenants s.namespaced_resources a))
unfolding authorization_middleware review_result answer_review
self_review-allowed s next r a status resolved tenants codecs path token got found decoded media =
    let (after, mutated, allowed) =
      access_review-allowed s.api s.proxy_cluster_scoped tenants s.namespaced_resources a status in
    let format = s.media_type (get resolved.0.header "Content-Type") in
    (
      record {
        status_code = (s.upstream r).status_code;
        header = copied_header s (s.upstream r).header;
        body = encode_as s format (access_review (some a) after) (s.upstream r).body;
      },
      after,
      rw
          (
            path, token, got, found, decoded, mutated, authorization_middleware, review_result,
            answer_review,
          )
          refl,
      refl,
      lookup-copied_header s (s.upstream r).header,
      encode_as-decodes s format (s.upstream r).body a after codecs media,
      allowed,
    )

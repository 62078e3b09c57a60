-- ===== src/Gate/Masking.antt =====
-- Which replies the gate changes.
use capsule_proxy.Prelude.{
  String, ◌≡◌, refl, true, some, ◌==◌, eqb, eq_iff, ◌⊎◌, inl, inr, arith, Bool-cases, Option-cases,
  [], ◌∷◌, ◌∙◌, sym, subst, ap,
}
use capsule_proxy.Go.Header.{canonical, values, set, del, values-set, values-del}
use capsule_proxy.Request.Http.{HttpRequest}
use capsule_proxy.RoleBindings.Lookup.{Found, hit, not_found, failed, Namespace}
use capsule_proxy.Gate.Naming.{
  IsNamed, namespaced_resource_request-IsNamed, IsNamed-namespaced_resource_request, NoWatch,
  is_watch-NoWatch, NoWatch-is_watch,
}
use capsule_proxy.Gate.{
  ResourceRequest, Response, namespaced_resource_request, GateApi, replace_response, is_watch,
  is_missing, mask_resource, mask_forbidden_for_missing_namespace, modify_response,
}

module _ (g : GateApi) where
  -- What holds where the reply to a request is replaced.
  pub record Masked (response : Response) : Type 0 where
    pub request : HttpRequest
    pub resource : ResourceRequest
    pub body : String
    pub sent : response.request ≡ some request
    pub forbidden : response.status_code ≡ 403
    pub get : request.method ≡ "GET"
    pub no_watch : NoWatch g request
    pub named : IsNamed request.path resource
    pub missing : g.namespaces resource.namespace ≡ not_found
    pub written : g.not_found_body resource ≡ some body

  -- A reply with the status 404 and the body as JSON, in place of the old one.
  pub record IsReplaced (response after : Response) (body : String) : Type 0 where
    pub same_request : after.request ≡ response.request
    pub status_code : after.status_code ≡ 404
    pub body_written : after.body ≡ body
    pub content_type : values after.header "Content-Type" ≡ "application/json" ∷ []
    pub header_length : values after.header "Content-Length" ≡ g.itoa (g.size body) ∷ []
    pub not_encoded : values after.header "Content-Encoding" ≡ []
    pub not_chunked : values after.header "Transfer-Encoding" ≡ []
    pub length : after.content_length ≡ g.size body

  replace_response-IsReplaced :
      (response : Response) (body : String)
      → IsReplaced response (replace_response g response 404 "application/json" body) body
  unfolding replace_response canonical
  replace_response-IsReplaced response body =
      let sized = set response.header "Content-Length" (g.itoa (g.size body)) in
      let typed = set sized "Content-Type" "application/json" in
      let plain = del typed "Content-Encoding" in
      record {
        same_request = refl;
        status_code = refl;
        body_written = refl;
        content_type =
            values-del plain "Transfer-Encoding" "Content-Type"
            ∙ values-del typed "Content-Encoding" "Content-Type"
            ∙ values-set sized "Content-Type" "Content-Type" "application/json";
        header_length =
            values-del plain "Transfer-Encoding" "Content-Length"
            ∙ values-del typed "Content-Encoding" "Content-Length"
            ∙ values-set sized "Content-Type" "Content-Length" "application/json"
            ∙ values-set response.header "Content-Length" "Content-Length" (g.itoa (g.size body));
        not_encoded =
            values-del plain "Transfer-Encoding" "Content-Encoding"
            ∙ values-del typed "Content-Encoding" "Content-Encoding";
        not_chunked = values-del plain "Transfer-Encoding" "Transfer-Encoding";
        length = refl;
      }

  missing-not_found : (f : Found Namespace) → is_missing g f ≡ true → f ≡ not_found
  missing-not_found not_found h = refl
  missing-not_found (hit n) h = absurd (cc h)
  missing-not_found (failed e) h = absurd (cc h)

  modify_response-cases :
      (response : Response)
      → (modify_response g response ≡ response)
        ⊎ ((m : Masked response) × (modify_response g response
              ≡ replace_response g response 404 "application/json" m.body))
  unfolding modify_response mask_forbidden_for_missing_namespace mask_resource
  modify_response-cases response = elim (Option-cases response.request) [
    | inl no_request ↦ inl (rw no_request refl)
    | inr (r, sent) ↦ elim (Bool-cases (eqb response.status_code 403)) [
      | inr f ↦ inl (rw (sent, f) refl)
      | inl forbidden ↦ elim (Bool-cases (r.method == "GET")) [
        | inr f ↦ inl (rw (sent, forbidden, f) refl)
        | inl get ↦ elim (Bool-cases (is_watch g r)) [
          | inl w ↦ inl (rw (sent, forbidden, get, w) refl)
          | inr no_watch ↦ elim (Option-cases (namespaced_resource_request r.path)) [
            | inl unnamed ↦ inl (rw (sent, forbidden, get, no_watch, unnamed) refl)
            | inr (resource, named) ↦
                elim (Bool-cases (is_missing g (g.namespaces resource.namespace))) [
                  | inr there ↦ inl (rw (sent, forbidden, get, no_watch, named, there) refl)
                  | inl missing ↦ elim (Option-cases (g.not_found_body resource)) [
                    | inl unwritten ↦
                        inl (rw (sent, forbidden, get, no_watch, named, missing, unwritten) refl)
                    | inr (body, written) ↦ inr (
                      record {
                        request = r;
                        resource = resource;
                        body = body;
                        sent = sent;
                        forbidden = ground (arith, forbidden);
                        get = (eq_iff r.method "GET").0 get;
                        no_watch = is_watch-NoWatch g r no_watch;
                        named = namespaced_resource_request-IsNamed r.path resource named;
                        missing = missing-not_found (g.namespaces resource.namespace) missing;
                        written = written;
                      },
                      rw (sent, forbidden, get, no_watch, named, missing, written) refl,
                    )
                  ]
                ]
          ]
        ]
      ]
    ]
  ]

  Masked-replaced :
      (response : Response) (m : Masked response)
      → modify_response g response ≡ replace_response g response 404 "application/json" m.body
  unfolding modify_response mask_forbidden_for_missing_namespace mask_resource
  Masked-replaced response m =
      let forbidden : eqb response.status_code 403 ≡ true = ap (λ code. eqb code 403) m.forbidden in
      let get : (m.request.method == "GET") ≡ true = (eq_iff m.request.method "GET").1 m.get in
      let no_watch = NoWatch-is_watch g m.request m.no_watch in
      let named = IsNamed-namespaced_resource_request m.request.path m.resource m.named in
      rw (m.sent, forbidden, get, no_watch, named, m.missing, m.written) refl

  -- A forbidden reply to a GET that is no watch, of an object with a name in a namespace that is
  -- confirmed to be missing, is replaced by one with the status 404 and the JSON status of the object
  -- that is not found, if that can be written; and every other reply is passed on as it is.
  pub modify_response-Masked :
      (response : Response)
      → ((m : Masked response) × IsReplaced response (modify_response g response) m.body)
        ⊎ ((¬ Masked response) × (modify_response g response ≡ response))
  modify_response-Masked response = elim (modify_response-cases response) [
    | inl same ↦ inr (
      (λ m.
          let is = replace_response-IsReplaced response m.body in
          let code : 403 ≡ 404 =
            sym m.forbidden
            ∙ ap (λ r. r.status_code) (sym same ∙ Masked-replaced response m)
            ∙ is.status_code in
          absurd (omega (arith, code))),
      same,
    )
    | inr (m, replaced) ↦ inl (
      m,
      subst (λ after. IsReplaced response after m.body) (sym replaced)
          (replace_response-IsReplaced response m.body),
    )
  ]

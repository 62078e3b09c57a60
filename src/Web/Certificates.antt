-- ===== src/Web/Certificates.antt =====
-- A self review by a client that authenticates with a certificate, in `authorizationMiddleware` of
-- internal/webserver/webserver.go, which resolves the request once more after it was passed on.
use capsule_proxy.Prelude.{
  String, ◌≡◌, refl, ◌∙◌, ap, true, false, some, none, List, [], ◌∷◌, contains, ok, err, is_empty,
  Bool-cases, inl, inr,
}
use capsule_proxy.Errors.{unauthorized, Reply, handle_unauthorized, handle_resolve_error}
use capsule_proxy.Go.Text.{◌<>◌, is_blank, fields, drop_all}
use capsule_proxy.Go.Header.{values, get, first}
use capsule_proxy.Request.World.{World, Identity}
use capsule_proxy.Request.Impersonation.{
  impersonate_user_header, impersonate_group_header, get_impersonating_groups,
  get_impersonating_user,
}
use capsule_proxy.Request.Http.{
  Config, HttpRequest, Answer, AuthType, tls_certificate, cached_user_and_groups, attempt,
  authenticate_by, authenticate, review, review_groups, assign, impersonate, get_user_and_groups,
  resolve_user_and_groups,
}
use capsule_proxy.Web.Forward.{passed, impersonated, impersonate_handler}
use capsule_proxy.Web.Headers.{impersonated_exactly}
use capsule_proxy.Web.Middleware.{check_paths, check_jwt}
use capsule_proxy.Web.Routes
use capsule_proxy.Web.Routes.{KubeFilter, checked}
use capsule_proxy.Web.SelfReviews.{
  ReviewServer, self_review_paths, has_bearer_token, refused, review_result, recorded_review,
  authorization_middleware,
}

-- A configuration that asks certificates first and reviews all impersonation, and a request of such a
-- client that was not resolved before.
pub record OfCertificate (c : Config) (r : HttpRequest) (id : Identity) : Type 0 where
  pub others : List AuthType
  pub preferred : c.auth_types ≡ tls_certificate ∷ others
  pub reviews : c.skip_impersonation_review ≡ false
  pub no_ignored : c.ignored_impersonation_groups ≡ []
  pub no_regexp : c.impersonation_groups_regexp ≡ none
  pub chain : List Identity
  pub certificates : r.tls ≡ some (id ∷ chain)
  pub unresolved : r.context ≡ none

-- The API server does not let a user impersonate anybody.
abbrev pub Refuses : World → Identity → Type 0
Refuses w id =
    (resource name : String)
    → w.access_review (record { verb = "impersonate"; resource = resource; name = name; user = id })
      ≡ ok false

module _ (w : World) (c : Config) (r : HttpRequest) (id : Identity)
    (of : OfCertificate c r id) where
  certificate_authenticates : authenticate w c r ≡ ok id
  unfolding authenticate authenticate_by attempt
  certificate_authenticates =
      rw (of.preferred, of.certificates, authenticate, authenticate_by, attempt) refl

  answer_of_groups :
      (groups : List String)
      → get_impersonating_groups w r.header c.ignored_impersonation_groups
          c.impersonation_groups_regexp
        ≡ ok groups
      → get_user_and_groups w c r ≡ impersonate w c id groups (get_impersonating_user r.header)
  unfolding get_user_and_groups cached_user_and_groups
  answer_of_groups groups h =
      rw (of.unresolved, get_user_and_groups) (rw (certificate_authenticates, h) refl)

  groups_of_header :
      get_impersonating_groups w r.header c.ignored_impersonation_groups
        c.impersonation_groups_regexp
      ≡ ok (values r.header impersonate_group_header)
  unfolding get_impersonating_groups
  groups_of_header = elim (Bool-cases (is_empty (values r.header impersonate_group_header))) [
    | inl t ↦ rw t refl
    | inr f ↦ rw (f, of.no_regexp, of.no_ignored) refl
  ]

  plain_answer :
      values r.header impersonate_user_header ≡ []
      → values r.header impersonate_group_header ≡ []
      → get_user_and_groups w c r
        ≡ record { username = id.username; groups = id.groups; error = none }
  unfolding impersonate review_groups assign get_impersonating_user get
  plain_answer no_user no_groups =
      let nobody : get_impersonating_user r.header ≡ "" = ap first no_user in
      answer_of_groups [] (groups_of_header ∙ ap ok no_groups)
      ∙ ap (impersonate w c id []) nobody
      ∙ rw (of.reviews, impersonate) refl

  abbrev refusal : String → String → String
  refusal what name =
      "the current user " <> id.username <> " cannot impersonate the " <> what <> " " <> name

  refused_impersonation :
      Refuses w id
      → (groups : List String) (name : String) → is_blank name ≡ false
      → (m : String) × ((impersonate w c id groups name).error ≡ some (unauthorized m))
  unfolding impersonate review_groups review
  refused_impersonation refuses [] name named = (
    refusal "user" name,
    rw (of.reviews, named, refuses "users" name, impersonate, review) (rw (of.reviews) refl),
  )
  refused_impersonation refuses (g ∷ gs) name named = (
    refusal "group" g,
    rw (of.reviews, refuses "groups" g, impersonate, review_groups, review) refl,
  )

  refused_answer :
      Refuses w id
      → is_blank (get_impersonating_user r.header) ≡ false
      → (m : String) × ((get_user_and_groups w c r).error ≡ some (unauthorized m))
  refused_answer refuses named =
      let groups = values r.header impersonate_group_header in
      let (m, failed) =
        refused_impersonation refuses groups (get_impersonating_user r.header) named in
      (m, ap (λ (a : Answer). a.error) (answer_of_groups groups groups_of_header) ∙ failed)

  -- Without impersonation headers the client is who its certificate says.
  resolved_plainly :
      values r.header impersonate_user_header ≡ []
      → values r.header impersonate_group_header ≡ []
      → resolve_user_and_groups w c r ≡ ok (record r { context = some id }, id)
  unfolding resolve_user_and_groups cached_user_and_groups
  resolved_plainly no_user no_groups =
      let answer = plain_answer no_user no_groups in
      let no_error : (get_user_and_groups w c r).error ≡ none = ap (λ a. a.error) answer in
      rw (of.unresolved, no_error, resolve_user_and_groups)
        (ap
          (λ (a : Answer).
            let found : Identity = record { username = a.username; groups = a.groups } in
            ok (record r { context = some found }, found))
          answer)

  -- With the headers of somebody whom the client may not impersonate, it is refused.
  refused_itself :
      Refuses w id
      → is_blank (get_impersonating_user r.header) ≡ false
      → (m : String) × (resolve_user_and_groups w c r ≡ err (unauthorized m))
  unfolding resolve_user_and_groups cached_user_and_groups
  refused_itself refuses named =
      let (m, failed) = refused_answer refuses named in
      (m, rw (of.unresolved, failed, resolve_user_and_groups) refl)

module _ (s : ReviewServer) (r : HttpRequest) (id : Identity)
    (of : OfCertificate s.filter.config r id) where
  abbrev sent_on : HttpRequest
  sent_on = record r { header = impersonated s.filter.contains_token s.filter.token id r.header }

  module _ (anonymous : get r.header "Authorization" ≡ "")
      (no_user : values r.header impersonate_user_header ≡ [])
      (no_groups : values r.header impersonate_group_header ≡ []) where
    handler_passes : Routes.impersonate s.filter r ≡ passed sent_on
    unfolding Routes.impersonate impersonate_handler
    handler_passes =
        rw
          (
            resolved_plainly s.filter.world s.filter.config r id of no_user no_groups,
            impersonate_handler,
          )
          refl

    -- The rest of the root's chain passes the request on in the client's name.
    root_passes : checked s.filter (Routes.impersonate s.filter) r ≡ passed sent_on
    unfolding checked check_paths check_jwt contains drop_all
    root_passes = elim (Bool-cases (contains s.filter.allowed_paths r.path)) [
      | inl t ↦ rw t handler_passes
      | inr f ↦ rw (f, anonymous) handler_passes
    ]

    sent_on_user :
        is_blank id.username ≡ false → is_blank (get_impersonating_user sent_on.header) ≡ false
    unfolding get_impersonating_user get
    sent_on_user named =
        let (user, groups) =
          impersonated_exactly s.filter.contains_token s.filter.token id r.header no_user
            no_groups in
        ap (λ vs. is_blank (first vs)) user ∙ named

-- A self review without an Authorization header by a client with a certificate and a name is refused with
-- the status 403, where certificates are asked first, impersonation is reviewed, no group is ignored and
-- no expression filters groups, the request was not resolved before, the client sends no
-- Impersonate-User and no Impersonate-Group header, and the API server lets the client impersonate
-- nobody: the request is resolved again after the rest of the chain has put the client's own name into
-- its impersonation headers.
pub certificate_review_refused :
    (s : ReviewServer) (r : HttpRequest) (id : Identity)
    → OfCertificate s.filter.config r id
    → Refuses s.filter.world id
    → is_blank id.username ≡ false
    → contains self_review_paths r.path ≡ true
    → get r.header "Authorization" ≡ ""
    → values r.header impersonate_user_header ≡ []
    → values r.header impersonate_group_header ≡ []
    → (reply : Reply) × (authorization_middleware s
          (checked s.filter (Routes.impersonate s.filter))
          r
        ≡ refused reply)
      × (reply.status_code ≡ 403)
unfolding authorization_middleware recorded_review review_result has_bearer_token fields
    handle_resolve_error handle_unauthorized
certificate_review_refused s r id of refuses named path anonymous no_user no_groups =
    let again : OfCertificate s.filter.config (record (sent_on s r id of) { context = r.context })
        id =
      record {
        others = of.others;
        preferred = of.preferred;
        reviews = of.reviews;
        no_ignored = of.no_ignored;
        no_regexp = of.no_regexp;
        chain = of.chain;
        certificates = of.certificates;
        unresolved = of.unresolved;
      } in
    let (m, wrong) =
      refused_itself s.filter.world s.filter.config
        (record (sent_on s r id of) { context = r.context }) id again refuses
        (sent_on_user s r id of anonymous no_user no_groups named) in
    (
      handle_resolve_error (unauthorized m),
      rw
          (
            path,
            anonymous,
            root_passes s r id of anonymous no_user no_groups,
            wrong,
            authorization_middleware,
            has_bearer_token,
            recorded_review,
            review_result,
          )
          refl,
      refl,
    )

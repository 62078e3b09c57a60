-- ===== src/Request/Reviews.antt =====
-- What the API server has approved when a request is resolved to a user and groups.
use capsule_proxy.Prelude.{
  String, ◌≡◌, true, false, none, some, List, [], ◌∷◌, ok, err, if◌then◌else◌, is_empty, arith, All,
  ◌⊎◌, inl, inr, Bool-cases, Option-cases, Result-cases, ap, sym, ◌∙◌,
}
use capsule_proxy.Errors.{Error}
use capsule_proxy.Go.Text.{is_blank}
use capsule_proxy.Request.World.{World, Identity}
use capsule_proxy.Request.Impersonation.{get_impersonating_groups, get_impersonating_user}
use capsule_proxy.Request.Http.{
  Config, HttpRequest, Answer, authenticate, review, review_groups, assign, implied_groups,
  impersonate, get_user_and_groups, resolve_user_and_groups, cached_user_and_groups,
}

module _ (w : World) where
  -- The API server allows `id` to impersonate the user or group `name`.
  abbrev pub Allows : Identity → String → String → Type 0
  Allows id resource name =
      w.access_review (record { verb = "impersonate"; resource = resource; name = name; user = id })
      ≡ ok true

  review-Allows :
      (id : Identity) (resource what name : String)
      → review w id resource what name ≡ none
      → Allows id resource name
  unfolding review
  review-Allows id resource what name h = ground arith

  review_groups-Allows :
      (id : Identity) (groups : List String)
      → review_groups w id groups ≡ none
      → All (Allows id "groups") groups
  unfolding review_groups
  review_groups-Allows id [] h = tt
  review_groups-Allows id (g ∷ gs) h = elim (Option-cases (review w id "groups" "group" g)) [
    | inl e ↦ (review-Allows id "groups" "group" g e, review_groups-Allows id gs (ground arith))
    | inr (e, same) ↦ absurd (ground arith)
  ]

  -- What is behind an answer without an error.
  pub record Approved (c : Config) (r : HttpRequest) (a : Answer) : Type 0 where
    pub id : Identity
    pub groups : List String
    pub authenticated : authenticate w c r ≡ ok id
    pub filtered :
        get_impersonating_groups w r.header c.ignored_impersonation_groups
          c.impersonation_groups_regexp
        ≡ ok groups
    pub groups_allowed : All (Allows id "groups") groups
    pub user_allowed :
        (is_blank (get_impersonating_user r.header) ≡ true)
        ⊎ Allows id "users" (get_impersonating_user r.header)
    pub username : a.username ≡ (
        if is_blank (get_impersonating_user r.header)
        then id.username
        else get_impersonating_user r.header)
    pub final_groups : a.groups ≡ (
        if is_empty groups
        then (if is_blank (get_impersonating_user r.header)
            then id.groups
            else implied_groups w (get_impersonating_user r.header))
        else groups)

  impersonate-Approved :
      (c : Config) (r : HttpRequest) (id : Identity) (groups : List String)
      → c.skip_impersonation_review ≡ false
      → authenticate w c r ≡ ok id
      → get_impersonating_groups w r.header c.ignored_impersonation_groups
          c.impersonation_groups_regexp
        ≡ ok groups
      → (impersonate w c id groups (get_impersonating_user r.header)).error ≡ none
      → Approved c r (impersonate w c id groups (get_impersonating_user r.header))
  unfolding impersonate assign
  impersonate-Approved c r id groups reviewed known filtered h =
      let passed : review_groups w id groups ≡ none = ground arith in
      record {
        id = id;
        groups = groups;
        authenticated = known;
        filtered = filtered;
        groups_allowed = review_groups-Allows id groups passed;
        user_allowed = elim (Bool-cases (is_blank (get_impersonating_user r.header))) [
          | inl blank ↦ inl blank
          | inr named ↦ inr (review-Allows id "users" "user" _ (ground arith))
        ];
        username = ground arith;
        final_groups = ground arith;
      }

  module _ (c : Config) (r : HttpRequest) (fresh : cached_user_and_groups r ≡ none) where
    get_user_and_groups-eq-impersonate :
        (id : Identity) (groups : List String)
        → authenticate w c r ≡ ok id
        → get_impersonating_groups w r.header c.ignored_impersonation_groups
            c.impersonation_groups_regexp
          ≡ ok groups
        → get_user_and_groups w c r ≡ impersonate w c id groups (get_impersonating_user r.header)
    unfolding get_user_and_groups
    get_user_and_groups-eq-impersonate id groups known filtered =
        ground (arith, fresh, known, filtered)

    not-authenticated_error :
        (e : Error) → authenticate w c r ≡ err e → (get_user_and_groups w c r).error ≡ some e
    unfolding get_user_and_groups
    not-authenticated_error e known = ground (arith, fresh, known)

    not-filtered_error :
        (id : Identity) (e : Error)
        → authenticate w c r ≡ ok id
        → get_impersonating_groups w r.header c.ignored_impersonation_groups
            c.impersonation_groups_regexp
          ≡ err e
        → (get_user_and_groups w c r).error ≡ some e
    unfolding get_user_and_groups
    not-filtered_error id e known filtered = ground (arith, fresh, known, filtered)

  -- Whenever a request that was not resolved before is resolved without an error, and reviews are not
  -- skipped, the API server has allowed the authenticated identity to impersonate each group that is
  -- left of the Impersonate-Group header and the user of the Impersonate-User header, if it names
  -- one, and the answer is that user and those groups, with the identity's own in place of what the
  -- request does not impersonate and the groups of a service account in place of those of a user that
  -- is impersonated without groups.
  pub get_user_and_groups-Approved :
      (c : Config) (r : HttpRequest)
      → cached_user_and_groups r ≡ none
      → c.skip_impersonation_review ≡ false
      → (get_user_and_groups w c r).error ≡ none
      → Approved c r (get_user_and_groups w c r)
  get_user_and_groups-Approved c r fresh reviewed h = elim (Result-cases (authenticate w c r)) [
    | inr (e, known) ↦ absurd (cc (h, not-authenticated_error c r fresh e known))
    | inl (id, known) ↦
        elim (Result-cases (
          get_impersonating_groups w r.header c.ignored_impersonation_groups
            c.impersonation_groups_regexp)) [
              | inr (e, filtered) ↦
                  absurd (cc (h, not-filtered_error c r fresh id e known filtered))
              | inl (groups, filtered) ↦
                  let same =
                    get_user_and_groups-eq-impersonate c r fresh id groups known filtered in
                  rw same (
                    impersonate-Approved c r id groups reviewed known filtered
                      (ap (λ (a : Answer). a.error) (sym same) ∙ h))
            ]
  ]

context-resolve :
    (w : World) (c : Config) (r resolved : HttpRequest) (id : Identity)
    → resolve_user_and_groups w c r ≡ ok (resolved, id)
    → resolved.context ≡ some id
unfolding resolve_user_and_groups
context-resolve w c r resolved id h = ground arith

-- Once a request is resolved, resolving the returned request again gives the same request and the
-- same identity, in any later state of the world and under any configuration: nothing is asked again.
pub resolve_idempotent :
    (w : World) (c : Config) (r resolved : HttpRequest) (id : Identity)
    → resolve_user_and_groups w c r ≡ ok (resolved, id)
    → (w' : World) (c' : Config) → resolve_user_and_groups w' c' resolved ≡ ok (resolved, id)
unfolding resolve_user_and_groups
resolve_idempotent w c r resolved id h w' c' =
    let kept = context-resolve w c r resolved id h in ground (arith, kept)

-- ===== src/Web/Headers.antt =====
-- The impersonation headers of a request that is passed on.
use capsule_proxy.Prelude.{
  ◌⊎◌, inl, inr, String, ◌≡◌, ap, ◌∙◌, Bool, List, [], ◌∷◌, ◌++◌, eq_refl, arith,
}
use capsule_proxy.Go.Header.{Header, canonical, values, values-add}
use capsule_proxy.Request.World.{Identity}
use capsule_proxy.Request.Impersonation.{impersonate_user_header, impersonate_group_header}
use capsule_proxy.Web.HopByHop.{delete_listed, removing_hop_by_hop_headers}
use capsule_proxy.Web.Forward.{set_token, impersonated}
use capsule_proxy.Web.Deleted.{
  delete_listed_nil, delete_listed_either, IsOther, user_header_IsOther, group_header_IsOther,
  hop_by_hop_end, values-set_token, connection-set_token, add_groups_values, user_ne_group,
  add_groups_user,
}

-- The header `out` names the identity: its Impersonate-User values end in the user, its
-- Impersonate-Group values in the groups, and what is in front of them is what the client sent there, or
-- nothing.
pub record InName (id : Identity) (h out : Header) : Type 0 where
  pub kept_user : List String
  pub kept_groups : List String
  pub user : values out "Impersonate-User" ≡ kept_user ++ id.username ∷ []
  pub groups : values out "Impersonate-Group" ≡ kept_groups ++ id.groups
  pub user_of_client : (kept_user ≡ []) ⊎ (kept_user ≡ values h "Impersonate-User")
  pub groups_of_client : (kept_groups ≡ []) ⊎ (kept_groups ≡ values h "Impersonate-Group")

module _ (contains_token : List String → String → Bool) where
  hop_by_hop_nil :
      (h : Header) (j : String)
      → IsOther j
      → values h j ≡ []
      → values (removing_hop_by_hop_headers contains_token h) j ≡ []
  unfolding removing_hop_by_hop_headers
  hop_by_hop_nil h j o e =
      hop_by_hop_end (delete_listed (values h "connection") h) _ j o
      ∙ delete_listed_nil (values h "connection") h j e

  hop_by_hop_none :
      (h : Header) (j : String)
      → IsOther j
      → values h "connection" ≡ []
      → values (removing_hop_by_hop_headers contains_token h) j ≡ values h j
  unfolding removing_hop_by_hop_headers delete_listed
  hop_by_hop_none h j o e =
      hop_by_hop_end (delete_listed (values h "connection") h) _ j o
      ∙ ap (λ fs. values (delete_listed fs h) j) e

  hop_by_hop_either :
      (h : Header) (j : String)
      → IsOther j
      → (values (removing_hop_by_hop_headers contains_token h) j ≡ [])
        ⊎ (values (removing_hop_by_hop_headers contains_token h) j ≡ values h j)
  unfolding removing_hop_by_hop_headers
  hop_by_hop_either h j o =
      let ends = hop_by_hop_end (delete_listed (values h "connection") h) _ j o in
      elim (delete_listed_either (values h "connection") h j) [
        | inl nothing ↦ inl (ends ∙ nothing)
        | inr kept ↦ inr (ends ∙ kept)
      ]

  impersonated-user :
      (token : String) (id : Identity) (h : Header)
      → values (impersonated contains_token token id h) impersonate_user_header
        ≡ values
            (removing_hop_by_hop_headers contains_token (set_token token h))
            impersonate_user_header
          ++ id.username ∷ []
  unfolding impersonated
  impersonated-user token id h =
      add_groups_user id.groups _
      ∙ ground (
        arith,
        values-add (removing_hop_by_hop_headers contains_token (set_token token h))
            impersonate_user_header impersonate_user_header id.username,
        eq_refl (canonical impersonate_user_header),
      )

  impersonated-groups :
      (token : String) (id : Identity) (h : Header)
      → values (impersonated contains_token token id h) impersonate_group_header
        ≡ values
            (removing_hop_by_hop_headers contains_token (set_token token h))
            impersonate_group_header
          ++ id.groups
  unfolding impersonated
  impersonated-groups token id h =
      add_groups_values id.groups _
      ∙ ap (λ vs. vs ++ id.groups)
          (ground (
            arith,
            values-add (removing_hop_by_hop_headers contains_token (set_token token h))
                impersonate_user_header impersonate_group_header id.username,
            user_ne_group,
          ))

  -- A client that sends no impersonation headers is impersonated exactly: whatever its Connection
  -- header lists, the API server is given the user and the groups of the identity, and no others.
  pub impersonated_exactly :
      (token : String) (id : Identity) (h : Header)
      → values h impersonate_user_header ≡ []
      → values h impersonate_group_header ≡ []
      → (values (impersonated contains_token token id h) impersonate_user_header ≡ id.username ∷ [])
        × (values (impersonated contains_token token id h) impersonate_group_header ≡ id.groups)
  impersonated_exactly token id h no_user no_groups = (
    impersonated-user token id h
        ∙ ap (λ vs. vs ++ id.username ∷ [])
            (hop_by_hop_nil (set_token token h) impersonate_user_header user_header_IsOther
              (values-set_token token h _ user_header_IsOther ∙ no_user)),
    impersonated-groups token id h
        ∙ ap (λ vs. vs ++ id.groups)
            (hop_by_hop_nil (set_token token h) impersonate_group_header group_header_IsOther
              (values-set_token token h _ group_header_IsOther ∙ no_groups)),
  )

  -- The impersonation headers of the client are kept in front of those that the proxy adds, if the
  -- client sends no Connection header: a group that the configuration ignores, and so was never
  -- reviewed, is passed on with the others.
  pub impersonated_keeps :
      (token : String) (id : Identity) (h : Header)
      → values h "connection" ≡ []
      → (values (impersonated contains_token token id h) impersonate_user_header
          ≡ values h impersonate_user_header ++ id.username ∷ [])
        × (values (impersonated contains_token token id h) impersonate_group_header
            ≡ values h impersonate_group_header ++ id.groups)
  impersonated_keeps token id h no_connection =
      let quiet : values (set_token token h) "connection" ≡ [] =
        connection-set_token token h ∙ no_connection in
      (
        impersonated-user token id h
            ∙ ap (λ vs. vs ++ id.username ∷ [])
                (hop_by_hop_none (set_token token h) impersonate_user_header user_header_IsOther
                    quiet
                  ∙ values-set_token token h _ user_header_IsOther),
        impersonated-groups token id h
            ∙ ap (λ vs. vs ++ id.groups)
                (hop_by_hop_none (set_token token h) impersonate_group_header group_header_IsOther
                    quiet
                  ∙ values-set_token token h _ group_header_IsOther),
      )

  -- What is left of the client's own values of an impersonation header.
  kept_values :
      (token : String) (h : Header) (j : String)
      → IsOther j
      → (values (removing_hop_by_hop_headers contains_token (set_token token h)) j ≡ [])
        ⊎ (values (removing_hop_by_hop_headers contains_token (set_token token h)) j ≡ values h j)
  kept_values token h j o = elim (hop_by_hop_either (set_token token h) j o) [
    | inl nothing ↦ inl nothing
    | inr kept ↦ inr (kept ∙ values-set_token token h j o)
  ]

  pub impersonated-InName :
      (token : String) (id : Identity) (h out : Header)
      → out ≡ impersonated contains_token token id h
      → InName id h out
  impersonated-InName token id h out e =
      let left : Header = removing_hop_by_hop_headers contains_token (set_token token h) in
      record {
        kept_user = values left impersonate_user_header;
        kept_groups = values left impersonate_group_header;
        user = ap (λ x. values x impersonate_user_header) e ∙ impersonated-user token id h;
        groups = ap (λ x. values x impersonate_group_header) e ∙ impersonated-groups token id h;
        user_of_client = kept_values token h impersonate_user_header user_header_IsOther;
        groups_of_client = kept_values token h impersonate_group_header group_header_IsOther;
      }

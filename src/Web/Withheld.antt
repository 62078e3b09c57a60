-- ===== src/Web/Withheld.antt =====
-- The request that is passed on without the client's identity, narrowed by a selector.
use capsule_proxy.Prelude.{
  String, ◌≡◌, refl, ap, ◌∙◌, true, false, some, List, [], ◌∷◌, ◌⊎◌, inl, inr, ◌==◌, lookup,
  lookup-insert, eq_iff, eq_refl, Bool-cases, if◌then◌else◌,
}
use capsule_proxy.Go.Text.{◌<>◌, is_blank, has_prefix, join}
use capsule_proxy.Go.Header.{Header, canonical, values, values-set}
use capsule_proxy.Request.Impersonation.{
  impersonate_user_header, impersonate_group_header, sanitize_impersonation_headers,
}
use capsule_proxy.Web.Forward.{set_token, narrow, label_selector_of}
use capsule_proxy.Web.Deleted.{values-set_ne}
use capsule_proxy.Web.Sanitized.{sanitize_removes}

-- The header has no value of Impersonate-User, of Impersonate-Group or of a header whose canonical name
-- begins with Impersonate-Extra-, and the token of the proxy, if it has one.
pub record IsWithheld (token : String) (out : Header) : Type 0 where
  pub no_user : values out "Impersonate-User" ≡ []
  pub no_groups : values out "Impersonate-Group" ≡ []
  pub no_extra :
      (name : String)
      → has_prefix name "Impersonate-Extra-" ≡ true
      → canonical name ≡ name
      → values out name ≡ []
  pub own_token : (is_blank token ≡ true) ⊎ (values out "Authorization" ≡ ("Bearer " <> token) ∷ [])

set_token_other :
    (token : String) (h : Header) (name : String)
    → (canonical "Authorization" == canonical name) ≡ false
    → values h name ≡ []
    → values (set_token token h) name ≡ []
unfolding set_token
set_token_other token h name other none_there = elim (Bool-cases (is_blank token)) [
  | inl blank ↦ rw blank none_there
  | inr given ↦ rw given (values-set_ne h "Authorization" name _ other ∙ none_there)
]

set_token_own :
    (token : String) (h : Header)
    → (is_blank token ≡ true)
      ⊎ (values (set_token token h) "Authorization" ≡ ("Bearer " <> token) ∷ [])
unfolding set_token
set_token_own token h = elim (Bool-cases (is_blank token)) [
  | inl blank ↦ inl blank
  | inr given ↦
      let same = eq_refl (canonical "Authorization") in
      inr (
        rw given (values-set h "Authorization" "Authorization" ("Bearer " <> token) ∙ rw same refl))
]

extra_other :
    (name : String)
    → has_prefix name "Impersonate-Extra-" ≡ true
    → canonical name ≡ name
    → (canonical "Authorization" == canonical name) ≡ false
unfolding canonical has_prefix
extra_other name prefix canon = elim (Bool-cases ("Authorization" == name)) [
  | inr other ↦ ap (λ n. "Authorization" == n) canon ∙ other
  | inl same ↦
      let is : "Authorization" ≡ name = (eq_iff "Authorization" name).0 same in
      absurd (cc (ap (λ n. has_prefix n "Impersonate-Extra-") is ∙ prefix))
]

pub sanitized-IsWithheld :
    (token : String) (h out : Header)
    → out ≡ set_token token (sanitize_impersonation_headers h)
    → IsWithheld token out
unfolding canonical has_prefix
sanitized-IsWithheld token h out e =
    let clean : Header = sanitize_impersonation_headers h in
    let any_extra : String = "Impersonate-Extra-Scopes" in
    let removed = sanitize_removes h any_extra refl refl in
    record {
      no_user =
          ap (λ x. values x impersonate_user_header) e
          ∙ set_token_other token clean impersonate_user_header refl removed.0;
      no_groups =
          ap (λ x. values x impersonate_group_header) e
          ∙ set_token_other token clean impersonate_group_header refl removed.1;
      no_extra = λ name prefix canon.
          ap (λ x. values x name) e
          ∙ set_token_other token clean name (extra_other name prefix canon)
              (sanitize_removes h name prefix canon).2;
      own_token = elim (set_token_own token clean) [
        | inl blank ↦ inl blank
        | inr own ↦ inr (ap (λ x. values x "Authorization") e ∙ own)
      ];
    }

-- The query has the selector, after one that the client gave, and is the client's otherwise.
abbrev pub IsNarrowed : String → List (String × List String) → List (String × List String) → Type 0
IsNarrowed selector query out =
    (key : String)
    → lookup key out ≡ (
        if "labelSelector" == key
        then some (
            (if is_blank (label_selector_of query)
              then selector
              else join "," (label_selector_of query ∷ selector ∷ []))
            ∷ [])
        else lookup key query)

pub narrow-IsNarrowed :
    (selector : String) (query out : List (String × List String))
    → out ≡ narrow selector query
    → IsNarrowed selector query out
unfolding narrow
narrow-IsNarrowed selector query out e key =
    ap (lookup key) e ∙ lookup-insert "labelSelector" key _ query

-- ===== src/Web/Sanitized.antt =====
-- The impersonation headers after `SanitizeImpersonationHeaders`.
use capsule_proxy.Prelude.{
  String, ◌≡◌, refl, true, none, List, [], ◌∷◌, ◌==◌, eq_iff, arith, lookup, Bool-cases, inl, inr,
}
use capsule_proxy.Go.Text.{has_prefix}
use capsule_proxy.Go.Header.{Header, canonical, values, del}
use capsule_proxy.Request.Impersonation.{
  impersonate_user_header, impersonate_group_header, impersonate_user_extra_header_prefix,
  delete_extra, sanitize_impersonation_headers,
}
use capsule_proxy.Web.Deleted.{values-del_nil, values-del_self, delete_extra_nil}

values_of_missing :
    (h : Header) (name : String) → canonical name ≡ name → lookup name h ≡ none → values h name ≡ []
unfolding values
values_of_missing h name canon missing = ground (arith, canon, missing)

abbrev pub extra : String
extra = impersonate_user_extra_header_prefix

delete_extra-covers :
    (name : String) (names : List (String × List String)) (h : Header)
    → has_prefix name extra ≡ true
    → canonical name ≡ name
    → (lookup name names ≡ none → values h name ≡ [])
    → values (delete_extra names h) name ≡ []
unfolding delete_extra lookup
delete_extra-covers name [] h prefix canon absent = absent refl
delete_extra-covers name ((k, vs) ∷ names) h prefix canon absent = elim (Bool-cases (k == name)) [
  | inl same ↦
      delete_extra_nil names _ name (rw ((eq_iff k name).0 same, prefix) (values-del_self h name))
  | inr other ↦ delete_extra-covers name names _ prefix canon (λ missing.
      let kept : values h name ≡ [] = absent (rw other missing) in
      elim (Bool-cases (has_prefix k extra)) [
        | inl drop ↦ rw drop (values-del_nil h k name kept)
        | inr keep ↦ rw keep kept
      ])
]

-- The sanitised header has no value of Impersonate-User, of Impersonate-Group, or of any header with
-- a canonical name that begins with Impersonate-Extra-.
pub sanitize_removes :
    (h : Header) (name : String)
    → has_prefix name extra ≡ true
    → canonical name ≡ name
    → (values (sanitize_impersonation_headers h) impersonate_user_header ≡ [])
      × (values (sanitize_impersonation_headers h) impersonate_group_header ≡ [])
      × (values (sanitize_impersonation_headers h) name ≡ [])
unfolding sanitize_impersonation_headers
sanitize_removes h name prefix canon =
    let g = del (del h impersonate_user_header) impersonate_group_header in
    (
      delete_extra_nil g g impersonate_user_header (
          values-del_nil (del h impersonate_user_header) impersonate_group_header
            impersonate_user_header (values-del_self h impersonate_user_header)),
      delete_extra_nil g g impersonate_group_header
          (values-del_self (del h impersonate_user_header) impersonate_group_header),
      delete_extra-covers name g g prefix canon (λ missing. values_of_missing g name canon missing),
    )

-- ===== src/Web/Deleted.antt =====
-- The headers that the steps in front of the transport delete and set, one name at a time.
use capsule_proxy.Prelude.{
  String, ◌≡◌, refl, sym, ap, ◌∙◌, false, List, [], ◌∷◌, ◌++◌, ◌==◌, eq_refl, if◌then◌else◌, arith,
  Bool-cases, inl, inr, ◌⊎◌, append_assoc, append-nil,
}
use capsule_proxy.Go.Text.{is_blank, has_prefix, trim_string, split}
use capsule_proxy.Go.Header.{
  Header, canonical, values, set, add, del, values-set, values-add, values-del,
}
use capsule_proxy.Request.Impersonation.{
  impersonate_user_header, impersonate_group_header, impersonate_user_extra_header_prefix,
  delete_extra,
}
use capsule_proxy.Web.HopByHop.{delete_parts, delete_listed}
use capsule_proxy.Web.Forward.{set_token, add_groups}

-- `del` and `set` of another header.
pub values-del_nil : (h : Header) (k j : String) → values h j ≡ [] → values (del h k) j ≡ []
values-del_nil h k j e = ground (arith, values-del h k j, e)

pub values-set_ne :
    (h : Header) (k j v : String)
    → (canonical k == canonical j) ≡ false
    → values (set h k v) j ≡ values h j
values-set_ne h k j v ne = ground (arith, values-set h k j v, ne)

values-del_ne :
    (h : Header) (k j : String)
    → (canonical k == canonical j) ≡ false
    → values (del h k) j ≡ values h j
values-del_ne h k j ne = ground (arith, values-del h k j, ne)

pub values-del_self : (h : Header) (k : String) → values (del h k) k ≡ []
values-del_self h k = ground (arith, values-del h k k, eq_refl (canonical k))

-- The loops over names to delete add nothing.
pub delete_extra_nil :
    (names : List (String × List String)) (h : Header) (j : String)
    → values h j ≡ []
    → values (delete_extra names h) j ≡ []
unfolding delete_extra
delete_extra_nil [] h j e = e
delete_extra_nil ((k, vs) ∷ names) h j e =
    delete_extra_nil names _ j
      (elim (Bool-cases (has_prefix k impersonate_user_extra_header_prefix)) [
        | inl extra ↦ rw extra (values-del_nil h k j e)
        | inr other ↦ rw other e
      ])

delete_parts_nil :
    (parts : List String) (h : Header) (j : String)
    → values h j ≡ []
    → values (delete_parts parts h) j ≡ []
unfolding delete_parts
delete_parts_nil [] h j e = e
delete_parts_nil (part ∷ parts) h j e =
    delete_parts_nil parts _ j (elim (Bool-cases (is_blank (trim_string part))) [
      | inl blank ↦ rw blank e
      | inr named ↦ rw named (values-del_nil h (trim_string part) j e)
    ])

pub delete_listed_nil :
    (fs : List String) (h : Header) (j : String)
    → values h j ≡ []
    → values (delete_listed fs h) j ≡ []
unfolding delete_listed
delete_listed_nil [] h j e = e
delete_listed_nil (f ∷ fs) h j e = delete_listed_nil fs _ j (delete_parts_nil (split b',' f) h j e)

-- A name that neither the removal of the Connection headers nor the token sets.
pub record IsOther (j : String) : Type 0 where
  not_connection : (canonical "connection" == canonical j) ≡ false
  not_upgrade : (canonical "upgrade" == canonical j) ≡ false
  not_authorization : (canonical "Authorization" == canonical j) ≡ false

pub user_header_IsOther : IsOther impersonate_user_header
unfolding canonical
user_header_IsOther = record { not_connection = refl; not_upgrade = refl; not_authorization = refl }

pub group_header_IsOther : IsOther impersonate_group_header
unfolding canonical
group_header_IsOther = record {
  not_connection = refl;
  not_upgrade = refl;
  not_authorization = refl;
}

pub hop_by_hop_end :
    (h : Header) (upgrade j : String)
    → IsOther j
    → values
        (if is_blank upgrade
          then del h "connection"
          else set (set h "connection" "upgrade") "upgrade" upgrade)
        j
      ≡ values h j
hop_by_hop_end h upgrade j o = elim (Bool-cases (is_blank upgrade)) [
  | inl blank ↦ rw blank (values-del_ne h "connection" j o.not_connection)
  | inr named ↦ rw named (
      values-set_ne (set h "connection" "upgrade") "upgrade" j upgrade o.not_upgrade
      ∙ values-set_ne h "connection" j "upgrade" o.not_connection)
]

pub values-set_token :
    (token : String) (h : Header) (j : String)
    → IsOther j
    → values (set_token token h) j ≡ values h j
unfolding set_token
values-set_token token h j o = elim (Bool-cases (is_blank token)) [
  | inl blank ↦ rw blank refl
  | inr some_token ↦ rw some_token (values-set_ne h "Authorization" j _ o.not_authorization)
]

connection_ne_authorization : (canonical "Authorization" == canonical "connection") ≡ false
unfolding canonical
connection_ne_authorization = refl

pub connection-set_token :
    (token : String) (h : Header) → values (set_token token h) "connection" ≡ values h "connection"
unfolding set_token
connection-set_token token h = elim (Bool-cases (is_blank token)) [
  | inl blank ↦ rw blank refl
  | inr some_token ↦
      rw some_token (values-set_ne h "Authorization" "connection" _ connection_ne_authorization)
]

pub add_groups_values :
    (gs : List String) (h : Header)
    → values (add_groups gs h) impersonate_group_header ≡ values h impersonate_group_header ++ gs
unfolding add_groups
add_groups_values [] h = sym (append-nil _)
add_groups_values (g ∷ gs) h =
    add_groups_values gs (add h impersonate_group_header g)
    ∙ ap (λ vs. vs ++ gs)
        (ground (
          arith,
          values-add h impersonate_group_header impersonate_group_header g,
          eq_refl (canonical impersonate_group_header),
        ))
    ∙ append_assoc (values h impersonate_group_header) (g ∷ []) gs

group_ne_user : (canonical impersonate_group_header == canonical impersonate_user_header) ≡ false
unfolding canonical
group_ne_user = refl

pub user_ne_group :
    (canonical impersonate_user_header == canonical impersonate_group_header) ≡ false
unfolding canonical
user_ne_group = refl

pub add_groups_user :
    (gs : List String) (h : Header)
    → values (add_groups gs h) impersonate_user_header ≡ values h impersonate_user_header
unfolding add_groups
add_groups_user [] h = refl
add_groups_user (g ∷ gs) h =
    add_groups_user gs (add h impersonate_group_header g)
    ∙ ground (arith, values-add h impersonate_group_header impersonate_user_header g, group_ne_user)

-- A removal leaves a name as it was, or takes all its values.
delete_parts_either :
    (parts : List String) (h : Header) (j : String)
    → (values (delete_parts parts h) j ≡ []) ⊎ (values (delete_parts parts h) j ≡ values h j)
unfolding delete_parts
delete_parts_either [] h j = inr refl
delete_parts_either (part ∷ parts) h j = elim (Bool-cases (is_blank (trim_string part))) [
  | inl blank ↦ rw (blank, delete_parts) (delete_parts_either parts h j)
  | inr named ↦
      rw (named, delete_parts)
        (let gone : String = trim_string part in
          elim (Bool-cases (canonical gone == canonical j)) [
            | inl same ↦
                inl (delete_parts_nil parts (del h gone) j (values-del h gone j ∙ rw same refl))
            | inr other ↦ elim (delete_parts_either parts (del h gone) j) [
              | inl nothing ↦ inl nothing
              | inr kept ↦ inr (kept ∙ values-del_ne h gone j other)
            ]
          ])
]

pub delete_listed_either :
    (fs : List String) (h : Header) (j : String)
    → (values (delete_listed fs h) j ≡ []) ⊎ (values (delete_listed fs h) j ≡ values h j)
unfolding delete_listed
delete_listed_either [] h j = inr refl
delete_listed_either (f ∷ fs) h j =
    elim (delete_listed_either fs (delete_parts (split b',' f) h) j) [
      | inl nothing ↦ inl nothing
      | inr kept ↦ elim (delete_parts_either (split b',' f) h j) [
        | inl nothing ↦ inl (kept ∙ nothing)
        | inr same ↦ inr (kept ∙ same)
      ]
    ]

-- ===== src/RoleBindings/Index.antt =====
-- The index functions and the keys under which a subject is looked up.
use capsule_proxy.Prelude.{
  String, ◌≡◌, refl, ap, true, false, Option, none, some, List, [], ◌∷◌, ◌++◌, ◌==◌, if◌then◌else◌,
  Result, ok, err, lookup, map,
}
use text.Mathlib.TextLemmas.{append_assoc}
use capsule_proxy.Errors.{Error, fault}
use capsule_proxy.Go.Text.{◌<>◌, is_blank, has_prefix, join}
use capsule_proxy.Labels.{Labels}

pub record Subject : Type 0 where
  pub kind : String
  pub namespace : String
  pub name : String

pub record RoleRef : Type 0 where
  pub api_group : String
  pub kind : String
  pub name : String

pub record RoleBinding : Type 0 where
  pub namespace : String
  pub name : String
  pub labels : Labels
  pub subjects : List Subject
  pub role_ref : RoleRef

unfoldable pub subject_key : Subject → String
unfolding join
subject_key s =
    join "-" (s.kind ∷ ((if is_blank s.namespace then [] else s.namespace ∷ []) ++ s.name ∷ []))

unfoldable pub owner_role_bindings_index : RoleBinding → List String
unfolding subject_key
owner_role_bindings_index rb = map subject_key rb.subjects

abbrev pub reflection_label : String
reflection_label = "reflection.proxy.projectcapsule.dev/enabled"

abbrev pub label_value : Option String → String
label_value none = ""
label_value (some v) = v

unfoldable pub reflection_role_bindings_index : RoleBinding → List String
unfolding owner_role_bindings_index
reflection_role_bindings_index rb =
    if label_value (lookup reflection_label rb.labels) == "true"
    then owner_role_bindings_index rb
    else []

abbrev pub service_account_prefix : String
service_account_prefix = "system:serviceaccount:"

-- The first key of `getRoleBindingsForSubject`; `split` is `serviceaccount.SplitUsername`.
unfoldable pub user_key : (String → Option (String × String)) → String → Result Error String
user_key split username =
    if has_prefix username service_account_prefix
    then elim (split username) [
      | none ↦ err (fault "Unable to parse serviceAccount name")
      | some sa ↦ ok ("ServiceAccount" <> "-" <> sa.0 <> "-" <> sa.1)
    ]
    else ok ("User" <> "-" <> username)

unfoldable pub group_key : String → String
group_key group = "Group" <> "-" <> group

module _ (split : String → Option (String × String)) where
  -- The user of a binding is looked up under the key that the binding is indexed by.
  pub user_key-subject :
      (username : String)
      → has_prefix username service_account_prefix ≡ false
      → user_key split username
        ≡ ok (subject_key (record { kind = "User"; namespace = ""; name = username }))
  unfolding user_key subject_key
  user_key-subject username plain = rw plain refl

  -- So is a service account.
  pub user_key-service_account :
      (username namespace name : String)
      → has_prefix username service_account_prefix ≡ true
      → split username ≡ some (namespace, name)
      → is_blank namespace ≡ false
      → user_key split username
        ≡ ok (subject_key (record { kind = "ServiceAccount"; namespace = namespace; name = name }))
  unfolding user_key subject_key
  user_key-service_account username namespace name prefix parts filled =
      rw (prefix, parts, filled) refl

  -- The key joins the namespace and the name of a service account by a dash, which both may hold: the
  -- service account `b-c` of the namespace `a` is looked up under the key of the service account `c`
  -- of the namespace `a-b`.
  pub user_key_ambiguous :
      (username a b c : String)
      → has_prefix username service_account_prefix ≡ true
      → split username ≡ some (a, b <> "-" <> c)
      → is_blank (a <> "-" <> b) ≡ false
      → user_key split username
        ≡ ok (subject_key (record { kind = "ServiceAccount"; namespace = a <> "-" <> b; name = c }))
  unfolding user_key subject_key
  user_key_ambiguous username a b c prefix parts filled =
      let same : ("ServiceAccount" <> "-" <> a <> "-" <> b <> "-" <> c)
          ≡ ("ServiceAccount" <> "-" <> (a <> "-" <> b) <> "-" <> c) =
        simp append_assoc in
      rw (prefix, parts, filled) (ap ok same)

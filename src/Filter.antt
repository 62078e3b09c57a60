-- ===== src/Filter.antt =====
-- `getTenantsForOwner` of internal/webserver/webserver.go.
pub mod Rules
pub mod Parts
pub mod Added
pub mod Collected
pub mod Indexes
pub mod Complete
use capsule_proxy.Prelude.{
  String, Bool, true, false, Option, none, some, List, [], ◌∷◌, ◌++◌, map, if◌then◌else◌, Result,
  ok, err,
}
use capsule_proxy.Errors.{Error, fault, panic, unauthorized, module_error, error_message}
use capsule_proxy.Go.Text.{◌<>◌, has_prefix}
use capsule_proxy.Tenant.{
  Tenant, OwnerSpec, GlobalSubjectSpec, ProxyTenant, new_proxy_tenant, new_cluster_proxy,
}
use capsule_proxy.RoleBindings.Index.{service_account_prefix}

-- A `ProxySetting` and a `GlobalProxySettings`.
pub record ProxySetting : Type 0 where
  pub namespace : String
  pub subjects : List OwnerSpec

pub record GlobalProxySettings : Type 0 where
  pub rules : List GlobalSubjectSpec

-- `List` of the manager's reader by its indexes, and the feature gate.
pub record Manager : Type 0 where
  pub tenants_of_owner : String → Result Error (List Tenant)
  pub settings_of_subject : String → Result Error (List ProxySetting)
  pub tenants_of_namespace : String → Result Error (List Tenant)
  pub globals_of_subject : String → Result Error (List GlobalProxySettings)
  pub proxy_cluster_scoped : Bool

-- `ownerFromCapsuleToProxySetting`
unfoldable pub owner_from_capsule : List OwnerSpec → List OwnerSpec
owner_from_capsule = map (λ (o : OwnerSpec). record {
  kind = o.kind;
  name = o.name;
  cluster_resources = [];
  proxy_operations = o.proxy_operations;
})

-- The items of a list that failed, after the error is logged.
abbrev pub logged : {A : Type 0} → Result Error (List A) → List A
logged (ok xs) = xs
logged (err e) = []

module _ (m : Manager) (kind name : String) where
  abbrev pub subject_key : String
  subject_key = kind <> ":" <> name

  abbrev pub one : Result Error ProxyTenant → Result Error (List ProxyTenant)
  one (err e) = err e
  one (ok pt) = ok (pt ∷ [])

  -- A setting in a namespace without a tenant is passed over.
  unfoldable pub setting_of_tenants :
      ProxySetting → Result Error (List Tenant) → Result Error (List ProxyTenant)
  setting_of_tenants s (err e) = ok []
  setting_of_tenants s (ok []) = ok []
  setting_of_tenants s (ok (t ∷ ts)) =
      one (new_proxy_tenant t name kind s.subjects m.proxy_cluster_scoped)

  unfoldable pub setting_tenant : ProxySetting → Result Error (List ProxyTenant)
  unfolding setting_of_tenants
  setting_tenant s = setting_of_tenants s (m.tenants_of_namespace s.namespace)

  unfoldable pub owner_tenant : Tenant → Result Error (List ProxyTenant)
  owner_tenant t =
      one (new_proxy_tenant t name kind (owner_from_capsule t.owners) m.proxy_cluster_scoped)

  unfoldable pub global_tenants : List ProxyTenant
  global_tenants =
      if m.proxy_cluster_scoped
      then map (λ (g : GlobalProxySettings). new_cluster_proxy name kind g.rules)
          (logged (m.globals_of_subject subject_key))
      else []

-- The proxy tenants of all elements, in their order.
unfoldable pub collect :
    {A : Type 0} → (A → Result Error (List ProxyTenant)) → List A → Result Error (List ProxyTenant)
collect f [] = ok []
collect f (x ∷ xs) = elim (f x) [
  | err e ↦ err e
  | ok first ↦ elim (collect f xs) [ err e ↦ err e | ok rest ↦ ok (first ++ rest) ]
]

-- An error is wrapped; a panic of `NewProxyTenant` goes on to the recovery of the router.
unfoldable pub owner_error : Error → Error
unfolding error_message
owner_error (panic m) = panic m
owner_error (unauthorized m) = fault ("cannot get Tenants slice owned by Tenant Owner: " <> m)
owner_error (fault m) = fault ("cannot get Tenants slice owned by Tenant Owner: " <> m)
owner_error (module_error s) =
    fault ("cannot get Tenants slice owned by Tenant Owner: " <> s.message)

module _ (m : Manager) where
  unfoldable pub get_proxy_tenants_for_owner_kind :
      String → String → Result Error (List ProxyTenant)
  get_proxy_tenants_for_owner_kind kind name = elim (m.tenants_of_owner (subject_key m kind name)) [
    | err e ↦ err (fault ("cannot retrieve Tenants list: " <> error_message e))
    | ok tenants ↦
        elim (collect (setting_tenant m kind name)
          (logged (m.settings_of_subject (subject_key m kind name)))) [
            | err e ↦ err e
            | ok settings ↦ elim (collect (owner_tenant m kind name) tenants) [
              | err e ↦ err e
              | ok owned ↦ ok ((settings ++ global_tenants m kind name) ++ owned)
            ]
          ]
  ]

  abbrev pub of_group : String → Result Error (List ProxyTenant)
  of_group group = get_proxy_tenants_for_owner_kind "Group" group

  abbrev pub user_kind : String → String
  user_kind username =
      if has_prefix username service_account_prefix then "ServiceAccount" else "User"

  unfoldable pub get_tenants_for_owner : String → List String → Result Error (List ProxyTenant)
  get_tenants_for_owner username groups =
      elim (get_proxy_tenants_for_owner_kind (user_kind username) username) [
        | err e ↦ err (owner_error e)
        | ok own ↦ elim (collect of_group groups) [
          | err e ↦ err (owner_error e)
          | ok of_groups ↦ ok (own ++ of_groups)
        ]
      ]

-- ===== src/Web/Registered.antt =====
-- The modules that `registerModules` of internal/webserver/webserver.go registers, and the keys of
-- namespaced resources that the self reviews read.
use capsule_proxy.Prelude.{
  String, ◌≡◌, refl, sym, ◌∙◌, ap, Bool, true, false, List, [], ◌∷◌, ◌==◌, any, contains,
  contains-append, arith, Bool-cases, Result, ok, >>=-eq-ok, ok_injective, inl, inr,
}
use capsule_proxy.Errors.{Error}
use capsule_proxy.Authorization.{namespaced_resource_key}
use capsule_proxy.Modules.ClassAccess.{any-append}
use capsule_proxy.Web.Discovery.{
  ProxyGroupVersionKind, ApiResourceList, ModuleHandler, RouteModule, default_modules,
  legacy_modules, catch_all_handler, discover_api, server_preferred_resources,
  module_group_kind_present, add_cluster_scoped, add_namespaced, base_modules, register_modules,
  or_panic,
}

abbrev serves_key : String → ModuleHandler → Bool
serves_key key (catch_all_handler group version resource) =
    namespaced_resource_key group resource == key
serves_key key _ = false

-- Whether a module serves the resource of a key across namespaces.
abbrev pub serves : String → RouteModule → Bool
serves key m = serves_key key m.handler

module _ (key : String) where
  add_cluster_scoped-serves :
      (apis : List ProxyGroupVersionKind) (modules : List RouteModule)
      → any (serves key) (add_cluster_scoped modules apis) ≡ any (serves key) modules
  unfolding add_cluster_scoped any
  add_cluster_scoped-serves [] modules = refl
  add_cluster_scoped-serves (api ∷ apis) modules =
      elim (Bool-cases (module_group_kind_present modules api)) [
        | inl t ↦ rw t (add_cluster_scoped-serves apis modules)
        | inr f ↦
            rw f
              (add_cluster_scoped-serves apis _ ∙ any-append (serves key) modules _ ∙ ground arith)
      ]

  add_namespaced-serves :
      (apis : List ProxyGroupVersionKind) (modules : List RouteModule) (keys : List String)
      → any (serves key) modules ≡ contains keys key
      → any (serves key) (add_namespaced modules keys apis).0
        ≡ contains (add_namespaced modules keys apis).1 key
  unfolding add_namespaced any contains
  add_namespaced-serves [] modules keys h = h
  add_namespaced-serves (api ∷ apis) modules keys h = add_namespaced-serves apis _ _ (
      any-append (serves key) modules _
      ∙ ground arith
      ∙ sym (contains-append keys (namespaced_resource_key api.group api.url_name ∷ []) key))

  base_modules-serves :
      (cluster_scoped : Bool) (preferred : Result Error (List ApiResourceList))
      (modules : List RouteModule)
      → base_modules cluster_scoped preferred ≡ ok modules
      → any (serves key) modules ≡ false
  unfolding base_modules any default_modules legacy_modules
  base_modules-serves false preferred modules h = sym (ap (any (serves key)) (ok_injective h))
  base_modules-serves true preferred modules h =
      let (apis, discovered, made) =
        >>=-eq-ok (or_panic (server_preferred_resources preferred)) _ h in
      sym (ap (any (serves key)) (ok_injective made))
      ∙ add_cluster_scoped-serves apis default_modules

-- The key of a namespaced resource is among those for which a review across namespaces is granted exactly
-- where a catch-all module is registered that serves a resource of that key, with and without
-- cluster-scoped rules.
pub register_modules-serves :
    (cluster_scoped : Bool) (preferred namespaced : Result Error (List ApiResourceList))
    → (modules : List RouteModule) (keys : List String) (key : String)
    → register_modules cluster_scoped preferred namespaced ≡ ok (modules, keys)
    → contains keys key ≡ any (serves key) modules
unfolding register_modules contains
register_modules-serves cluster_scoped preferred namespaced modules keys key h =
    let (base, built, later) = >>=-eq-ok (base_modules cluster_scoped preferred) _ h in
    let (apis, discovered, made) = >>=-eq-ok (or_panic (discover_api namespaced)) _ later in
    let whole = ok_injective made in
    sym (ap (λ x. contains x.1 key) whole)
    ∙ sym (
        add_namespaced-serves key apis base []
          (base_modules-serves key cluster_scoped preferred base built))
    ∙ ap (λ x. any (serves key) x.0) whole

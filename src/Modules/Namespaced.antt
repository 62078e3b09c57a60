-- ===== src/Modules/Namespaced.antt =====
-- internal/modules/namespaced/catchall.go: a list of a namespaced resource across namespaces.
use mathlib.Core.List.{Memᴰ}
use capsule_proxy.Prelude.{
  true, any-Mem, contains-Mem, ok_injective, eq_iff, ◌⊎◌, ◌↔◌, Bool-cases, String, ◌≡◌, refl, sym,
  ◌∙◌, ap, Bool, false, ◌&&◌, ◌||◌, some, List, [], ◌∷◌, ◌++◌, ◌==◌, any, contains, contains-append,
  if◌then◌else◌, Result, ok, err, is_empty, arith, Result-cases, inl, inr,
}
use capsule_proxy.Errors.{Error, fault}
use capsule_proxy.Labels.{
  LabelApi, Requirement, Selector, KeepsFields, in_operator, exists_operator,
}
use capsule_proxy.Tenant.{ProxyTenant}
use capsule_proxy.Modules.Named.{AsksFor, made-AsksFor}
use capsule_proxy.Modules.ClusterScoped.{Answer, ignored_key, only}

-- `access` is the review whether the user can list the resource in a namespace, and `label` is the
-- label by which Capsule marks what it manages.
module _ (api : LabelApi) (label : String) (access : String → Result Error Bool) where
  -- Only the first namespace of a tenant is asked for.
  unfoldable pub first_allowed : List String → Result Error Bool
  first_allowed [] = ok false
  first_allowed (namespace ∷ rest) = elim (access namespace) [
    | err e ↦ err (fault "unable to check if user can list")
    | ok allowed ↦ ok allowed
  ]

  unfoldable pub source_tenants : List ProxyTenant → Result Error (List String)
  unfolding first_allowed
  source_tenants [] = ok []
  source_tenants (pt ∷ pts) = elim (first_allowed pt.tenant.namespaces) [
    | err e ↦ err e
    | ok allowed ↦ elim (source_tenants pts) [
      | err e ↦ err e
      | ok names ↦ ok (if allowed then pt.tenant.name ∷ names else names)
    ]
  ]

  -- `reflected` is what the reflector answers, or no names where there is no reflector.
  unfoldable pub handle_all : List ProxyTenant → Result Error (List String) → Answer
  handle_all pts reflected = elim (source_tenants pts) [
    | err e ↦ err e
    | ok names ↦ elim reflected [
      | err e ↦ err e
      | ok more ↦ only (
          if is_empty (names ++ more)
          then api.new_requirement ignored_key exists_operator []
          else api.new_requirement label in_operator (names ++ more))
    ]
  ]

  abbrev or_false : Result Error Bool → Bool
  or_false (ok allowed) = allowed
  or_false (err e) = false

  -- The review of a tenant's first namespace allows the list.
  abbrev pub is_source : ProxyTenant → Bool
  is_source pt = or_false (first_allowed pt.tenant.namespaces)

  source_tenants-contains :
      (pts : List ProxyTenant) (names : List String) (v : String)
      → source_tenants pts ≡ ok names
      → contains names v ≡ any (λ pt. pt.tenant.name == v && is_source pt) pts
  unfolding source_tenants any contains
  source_tenants-contains [] names v h =
      let same : [] ≡ names = cc h in ap (λ l. contains l v) (sym same)
  source_tenants-contains (pt ∷ pts) names v h =
      elim (Result-cases (first_allowed pt.tenant.namespaces)) [
        | inr (e, wrong) ↦ absurd (cc (rw (wrong, source_tenants) at h))
        | inl (allowed, asked) ↦ elim (Result-cases (source_tenants pts)) [
          | inr (e, wrong) ↦ absurd (cc (rw (asked, wrong, source_tenants) at h))
          | inl (rest, later) ↦
              let same : (if allowed then pt.tenant.name ∷ rest else rest) ≡ names =
                cc (rw (asked, later, source_tenants) at h) in
              let tail = source_tenants-contains pts rest v later in
              ap (λ l. contains l v) (sym same) ∙ ground (arith, asked, tail)
        ]
      ]

  -- The tenant has a first namespace, and the access review allows the list there.
  abbrev pub ListsFirst : ProxyTenant → Type 0
  ListsFirst pt =
      (namespace : String) × (others : List String) × (pt.tenant.namespaces ≡ namespace ∷ others)
      × (access namespace ≡ ok true)

  is_source-ListsFirst : (pt : ProxyTenant) → (is_source pt ≡ true) ↔ ListsFirst pt
  unfolding first_allowed
  is_source-ListsFirst pt = go pt.tenant.namespaces
    where
      go :
          (namespaces : List String)
          → (or_false (first_allowed namespaces) ≡ true) ↔ (
              (namespace : String) × (others : List String) × (namespaces ≡ namespace ∷ others)
              × (access namespace ≡ ok true))
      go [] = (λ t. absurd (cc t), λ (n, ns, is, allowed). absurd (cc is))
      go (n ∷ ns) = elim (Result-cases (access n)) [
        | inr (e, wrong) ↦ (
          λ t. absurd (cc (rw (wrong, or_false) at t)),
          λ (m, ms, is, allowed).
              let first : n ≡ m = cc is in absurd (cc (sym wrong ∙ ap access first ∙ allowed)),
        )
        | inl (allowed, asked) ↦ (
          λ t. (n, ns, refl, asked ∙ ap ok (rw (asked, or_false) at t)),
          λ (m, ms, is, allowed_there).
              let first : n ≡ m = cc is in
              rw (asked, or_false) (ok_injective (sym asked ∙ ap access first ∙ allowed_there)),
        )
      ]

  listed_iff :
      (pts : List ProxyTenant) (more : List String) (v : String) (b : Bool)
      → b ≡ (any (λ pt. pt.tenant.name == v && is_source pt) pts || contains more v)
      → (b ≡ true)
        ↔ (((pt : ProxyTenant) × Memᴰ pt pts × (pt.tenant.name ≡ v) × ListsFirst pt) ⊎ Memᴰ v more)
  listed_iff pts more v b split =
      let wanted : ProxyTenant → Bool = λ pt. pt.tenant.name == v && is_source pt in
      (
        λ t. elim (Bool-cases (any wanted pts)) [
          | inl found ↦
              let (pt, m, both) = (any-Mem wanted pts).0 found in
              inl (
                pt,
                m,
                (eq_iff pt.tenant.name v).0 (ground (arith, both)),
                (is_source-ListsFirst pt).0 (ground (arith, both)),
              )
          | inr missed ↦ inr ((contains-Mem more v).0 (ground (arith, t, split, missed)))
        ],
        λ e. elim e [
          | inl (pt, m, named, lists) ↦
              let name : (pt.tenant.name == v) ≡ true = (eq_iff pt.tenant.name v).1 named in
              let source : is_source pt ≡ true = (is_source-ListsFirst pt).1 lists in
              let found : any wanted pts ≡ true =
                (any-Mem wanted pts).1 (pt, m, rw (name, source) refl) in
              split ∙ ap (λ x. x || contains more v) found
          | inr m ↦
              let found : contains more v ≡ true = (contains-Mem more v).1 m in
              ground (arith, split, found)
        ],
      )

  made-values :
      KeepsFields api
      → (names : List String) (selector : Selector)
      → only (
          if is_empty names
          then api.new_requirement ignored_key exists_operator []
          else api.new_requirement label in_operator names)
        ≡ ok (some selector)
      → (q : Requirement) × (selector ≡ q ∷ [])
        × AsksFor label q
        × ((v : String) → contains q.values v ≡ contains names v)
  made-values fields [] selector h =
      elim (Result-cases (api.new_requirement ignored_key exists_operator [])) [
        | inr (e, wrong) ↦ absurd (cc (rw wrong at h))
        | inl (q, made) ↦
            let kept = fields.fields ignored_key exists_operator [] q made in
            (q, cc (rw made at h), made-AsksFor label q [] kept.0 kept.1 kept.2, kept.2)
      ]
  made-values fields (n ∷ ns) selector h =
      elim (Result-cases (api.new_requirement label in_operator (n ∷ ns))) [
        | inr (e, wrong) ↦ absurd (cc (rw wrong at h))
        | inl (q, made) ↦
            let kept = fields.fields label in_operator (n ∷ ns) q made in
            (q, cc (rw made at h), made-AsksFor label q (n ∷ ns) kept.0 kept.1 kept.2, kept.2)
      ]

  -- A list across namespaces is answered by one requirement, whose values are exactly the names of the
  -- tenants in whose first namespace the access review allows the user the list, and those that the
  -- reflector answers: it asks for the label `label` to be in them, if there are any, and for the
  -- label dontexistsignoreme to exist otherwise.
  pub handle_all-values :
      KeepsFields api
      → (pts : List ProxyTenant) (reflected : Result Error (List String)) (selector : Selector)
      → handle_all pts reflected ≡ ok (some selector)
      → (more : List String) × (q : Requirement) × (reflected ≡ ok more)
        × (selector ≡ q ∷ [])
        × AsksFor label q
        × ((v : String)
            → (contains q.values v ≡ true) ↔ (
                ((pt : ProxyTenant) × Memᴰ pt pts × (pt.tenant.name ≡ v) × ListsFirst pt)
                ⊎ Memᴰ v more))
  unfolding handle_all
  handle_all-values fields pts (err e) selector h = elim (Result-cases (source_tenants pts)) [
    | inr (x, wrong) ↦ absurd (cc (rw (wrong, handle_all) at h))
    | inl (names, got) ↦ absurd (cc (rw (got, handle_all) at h))
  ]
  handle_all-values fields pts (ok more) selector h = elim (Result-cases (source_tenants pts)) [
    | inr (x, wrong) ↦ absurd (cc (rw (wrong, handle_all) at h))
    | inl (names, got) ↦
        let (q, same, asked_for, values) =
          made-values fields (names ++ more) selector (rw (got, handle_all) at h) in
        (
          more,
          q,
          refl,
          same,
          asked_for,
          λ v.
              let split : contains q.values v
                  ≡ (any (λ pt. pt.tenant.name == v && is_source pt) pts || contains more v) =
                values v
                ∙ contains-append names more v
                ∙ ap (λ b. b || contains more v) (source_tenants-contains pts names v got) in
              listed_iff pts more v (contains q.values v) split,
        )
  ]

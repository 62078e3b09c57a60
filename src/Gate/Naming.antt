-- ===== src/Gate/Naming.antt =====
-- Which requests the gate looks at: the paths of an object with a name in a namespace, and watches.
use mathlib.Core.List.{Memᴰ}
use capsule_proxy.Prelude.{
  String, ◌≡◌, ◌≢◌, refl, sym, ap, ◌∙◌, true, false, Option, some, List, [], ◌∷◌, ◌==◌, contains,
  contains-Mem, eq_iff, Bool-cases, inl, inr, lookup, Option-cases,
}
use capsule_proxy.Go.Text.{split, trim_prefix}
use capsule_proxy.Go.Header.{or_empty, first}
use capsule_proxy.Request.Http.{HttpRequest}
use capsule_proxy.Gate.{
  ResourceRequest, resource_of_parts, namespaced_resource_request, GateApi, is_watch,
}

-- The parts of a path that names an object in a namespace, of the core group or of another group.
pub data Names (r : ResourceRequest) (parts : List String) : Type 0 where
  core :
      r.group ≡ ""
      → parts ≡ "api" ∷ "v1" ∷ "namespaces" ∷ r.namespace ∷ r.resource ∷ r.name ∷ []
      → Names r parts
  grouped :
      (version : String)
      → parts ≡ "apis" ∷ r.group ∷ version ∷ "namespaces" ∷ r.namespace ∷ r.resource ∷ r.name ∷ []
      → Names r parts

resource_of_parts-Names :
    (parts : List String) (r : ResourceRequest) → resource_of_parts parts ≡ some r → Names r parts
unfolding resource_of_parts
resource_of_parts-Names [] r h = absurd (cc h)
resource_of_parts-Names (a ∷ []) r h = absurd (cc h)
resource_of_parts-Names (a ∷ b ∷ []) r h = absurd (cc h)
resource_of_parts-Names (a ∷ b ∷ c ∷ []) r h = absurd (cc h)
resource_of_parts-Names (a ∷ b ∷ c ∷ d ∷ []) r h = absurd (cc h)
resource_of_parts-Names (a ∷ b ∷ c ∷ d ∷ e ∷ []) r h = absurd (cc h)
resource_of_parts-Names (a ∷ b ∷ c ∷ d ∷ e ∷ f ∷ []) r h = elim (Bool-cases (a == "api")) [
  | inr x ↦ absurd (cc (rw (x, resource_of_parts) at h))
  | inl api ↦ elim (Bool-cases (b == "v1")) [
    | inr x ↦ absurd (cc (rw (api, x, resource_of_parts) at h))
    | inl v1 ↦ elim (Bool-cases (c == "namespaces")) [
      | inr x ↦ absurd (cc (rw (api, v1, x, resource_of_parts) at h))
      | inl there ↦
          let same : ◌≡◌ {A = Option ResourceRequest}
              (some (record { group = ""; namespace = d; resource = e; name = f })) (some r) =
            rw (api, v1, there, resource_of_parts) at h in
          let is : record { group = ""; namespace = d; resource = e; name = f } ≡ r = cc same in
          let of_api : a ≡ "api" = (eq_iff a "api").0 api in
          let of_v1 : b ≡ "v1" = (eq_iff b "v1").0 v1 in
          let of_namespaces : c ≡ "namespaces" = (eq_iff c "namespaces").0 there in
          let namespace : d ≡ r.namespace = ap (λ q. q.namespace) is in
          let resource : e ≡ r.resource = ap (λ q. q.resource) is in
          let name : f ≡ r.name = ap (λ q. q.name) is in core (sym (ap (λ q. q.group) is)) (cc)
    ]
  ]
]
resource_of_parts-Names (a ∷ b ∷ c ∷ d ∷ e ∷ f ∷ g ∷ []) r h = elim (Bool-cases (a == "apis")) [
  | inr x ↦ absurd (cc (rw (x, resource_of_parts) at h))
  | inl apis ↦ elim (Bool-cases (d == "namespaces")) [
    | inr x ↦ absurd (cc (rw (apis, x, resource_of_parts) at h))
    | inl there ↦
        let same : ◌≡◌ {A = Option ResourceRequest}
            (some (record { group = b; namespace = e; resource = f; name = g })) (some r) =
          rw (apis, there, resource_of_parts) at h in
        let is : record { group = b; namespace = e; resource = f; name = g } ≡ r = cc same in
        let of_apis : a ≡ "apis" = (eq_iff a "apis").0 apis in
        let of_namespaces : d ≡ "namespaces" = (eq_iff d "namespaces").0 there in
        let group : b ≡ r.group = ap (λ q. q.group) is in
        let namespace : e ≡ r.namespace = ap (λ q. q.namespace) is in
        let resource : f ≡ r.resource = ap (λ q. q.resource) is in
        let name : g ≡ r.name = ap (λ q. q.name) is in grouped c (cc)
  ]
]
resource_of_parts-Names (a ∷ b ∷ c ∷ d ∷ e ∷ f ∷ g ∷ i ∷ more) r h = absurd (cc h)

Names-resource_of_parts :
    (parts : List String) (r : ResourceRequest) → Names r parts → resource_of_parts parts ≡ some r
unfolding resource_of_parts
Names-resource_of_parts parts r (core group is) =
    ap resource_of_parts is
    ∙ ap
        (λ g.
          some
            (record { group = g; namespace = r.namespace; resource = r.resource; name = r.name }))
        (sym group)
Names-resource_of_parts parts r (grouped version is) = ap resource_of_parts is

-- The path names the object: its parts do, and none of them is empty.
pub record IsNamed (path : String) (r : ResourceRequest) : Type 0 where
  pub no_empty : ¬ Memᴰ "" (split b'/' (trim_prefix path "/"))
  pub names : Names r (split b'/' (trim_prefix path "/"))

pub namespaced_resource_request-IsNamed :
    (path : String) (r : ResourceRequest)
    → namespaced_resource_request path ≡ some r
    → IsNamed path r
unfolding namespaced_resource_request
namespaced_resource_request-IsNamed path r h =
    let parts : List String = split b'/' (trim_prefix path "/") in
    elim (Bool-cases (contains parts "")) [
      | inl t ↦ absurd (cc (rw (t, namespaced_resource_request) at h))
      | inr f ↦ record {
        no_empty = λ m. absurd (cc (sym ((contains-Mem parts "").1 m) ∙ f));
        names = resource_of_parts-Names parts r (rw (f, namespaced_resource_request) at h);
      }
    ]

pub IsNamed-namespaced_resource_request :
    (path : String) (r : ResourceRequest)
    → IsNamed path r
    → namespaced_resource_request path ≡ some r
unfolding namespaced_resource_request
IsNamed-namespaced_resource_request path r named =
    let parts : List String = split b'/' (trim_prefix path "/") in
    elim (Bool-cases (contains parts "")) [
      | inl t ↦ absurd (named.no_empty ((contains-Mem parts "").0 t))
      | inr f ↦ rw (f, namespaced_resource_request) (Names-resource_of_parts parts r named.names)
    ]

module _ (g : GateApi) where
  -- The parameter `watch` of the query is no true value.
  abbrev pub NoWatch : HttpRequest → Type 0
  NoWatch r = g.parse_bool (first (or_empty (lookup "watch" r.query))) ≢ some true

  pub is_watch-NoWatch : (r : HttpRequest) → is_watch g r ≡ false → NoWatch r
  is_watch-NoWatch r h yes_there = absurd (cc (rw (yes_there, is_watch) at h))

  pub NoWatch-is_watch : (r : HttpRequest) → NoWatch r → is_watch g r ≡ false
  NoWatch-is_watch r n =
      elim (Option-cases (g.parse_bool (first (or_empty (lookup "watch" r.query))))) [
        | inl unparsed ↦ rw (unparsed, is_watch) refl
        | inr (true, t) ↦ absurd (n t)
        | inr (false, f) ↦ rw (f, is_watch) refl
      ]

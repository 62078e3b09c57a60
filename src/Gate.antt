-- ===== src/Gate.antt =====
-- internal/webserver/namespacegate/{gate,mask}.go: a forbidden reply becomes a missing object where the
-- namespace of the named object does not exist.
pub mod Naming
pub mod Masking
use capsule_proxy.Prelude.{
  ℕ, String, Bool, true, false, not, ◌&&◌, Option, none, some, List, [], ◌∷◌, ◌==◌, eqb, contains,
  if◌then◌else◌, lookup,
}
use capsule_proxy.Go.Text.{◌<>◌, split, trim_prefix}
use capsule_proxy.Go.Header.{Header, set, del, or_empty, first}
use capsule_proxy.Request.Http.{HttpRequest}
use capsule_proxy.RoleBindings.Lookup.{Found, hit, not_found, failed, Namespace}

pub record ResourceRequest : Type 0 where
  pub group : String
  pub namespace : String
  pub resource : String
  pub name : String

pub record Response : Type 0 where
  pub request : Option HttpRequest
  pub status_code : ℕ
  pub status : String
  pub header : Header
  pub body : String
  pub content_length : ℕ
  pub transfer_encoding : List String
  pub uncompressed : Bool

unfoldable pub resource_of_parts : List String → Option ResourceRequest
resource_of_parts parts = elim parts [
  | root ∷ version ∷ third ∷ namespace ∷ resource ∷ name ∷ [] ↦
      if root == "api" && version == "v1" && third == "namespaces"
      then some (record { group = ""; namespace = namespace; resource = resource; name = name })
      else none
  | root ∷ group ∷ version ∷ fourth ∷ namespace ∷ resource ∷ name ∷ [] ↦
      if root == "apis" && fourth == "namespaces"
      then some (record { group = group; namespace = namespace; resource = resource; name = name })
      else none
  | _ ↦ none
]

unfoldable pub namespaced_resource_request : String → Option ResourceRequest
unfolding resource_of_parts
namespaced_resource_request path =
    let parts = split b'/' (trim_prefix path "/") in
    if contains parts "" then none else resource_of_parts parts

-- What the gate calls: `strconv.ParseBool`, `http.StatusText`, `strconv.Itoa`, the number of bytes of a
-- text, `json.Marshal` of the status of `NewNotFound`, and `Get` of a namespace.
pub record GateApi : Type 0 where
  pub parse_bool : String → Option Bool
  pub status_text : ℕ → String
  pub itoa : ℕ → String
  pub size : String → ℕ
  pub not_found_body : ResourceRequest → Option String
  pub namespaces : String → Found Namespace

module _ (g : GateApi) where
  unfoldable pub replace_response : Response → ℕ → String → String → Response
  replace_response response status_code content_type body = record {
    request = response.request;
    status_code = status_code;
    status = g.itoa status_code <> " " <> g.status_text status_code;
    header =
        del
          (del
            (set (set response.header "Content-Length" (g.itoa (g.size body))) "Content-Type"
              content_type)
            "Content-Encoding")
          "Transfer-Encoding";
    body = body;
    content_length = g.size body;
    transfer_encoding = [];
    uncompressed = false;
  }

  abbrev pub is_watch : HttpRequest → Bool
  is_watch r = elim (g.parse_bool (first (or_empty (lookup "watch" r.query)))) [
    | none ↦ false
    | some b ↦ b
  ]

  -- Only a namespace that is not found is missing: it is there, or nothing is known of it, otherwise.
  abbrev pub is_missing : Found Namespace → Bool
  is_missing not_found = true
  is_missing (hit n) = false
  is_missing (failed e) = false

  unfoldable pub mask_resource : Response → ResourceRequest → Response
  unfolding replace_response
  mask_resource response resource =
      if not (is_missing (g.namespaces resource.namespace))
      then response
      else elim (g.not_found_body resource) [
        | none ↦ response
        | some body ↦ replace_response response 404 "application/json" body
      ]

  unfoldable pub mask_forbidden_for_missing_namespace : Response → HttpRequest → Response
  mask_forbidden_for_missing_namespace response r =
      if not (r.method == "GET")
      then response
      else if is_watch r
      then response
      else elim (namespaced_resource_request r.path) [
        | none ↦ response
        | some resource ↦ mask_resource response resource
      ]

  unfoldable pub modify_response : Response → Response
  modify_response response = elim response.request [
    | none ↦ response
    | some r ↦
        if eqb response.status_code 403
        then mask_forbidden_for_missing_namespace response r
        else response
  ]

-- ===== src/Modules/Gvk.antt =====
-- internal/modules/utils/gvk.go
use capsule_proxy.Prelude.{
  String, Option, none, some, List, [], ◌∷◌, ◌==◌, if◌then◌else◌, Result, ok, err, eqb,
}
use capsule_proxy.Errors.{Error, fault}
use capsule_proxy.Go.Text.{◌<>◌, trim, split}
use capsule_proxy.Cluster.Scope.{GroupVersionKind}

unfoldable pub gvk_of_parts : List String → Option GroupVersionKind
gvk_of_parts [] = none
gvk_of_parts (root ∷ rest) =
    if root == "api"
    then elim rest [
      | version ∷ kind ∷ [] ↦ some (record { group = ""; version = version; kind = kind })
      | version ∷ kind ∷ name ∷ [] ↦ some (record { group = ""; version = version; kind = kind })
      | _ ↦ none
    ]
    else if root == "apis"
    then elim rest [
      | group ∷ version ∷ kind ∷ [] ↦
          some (record { group = group; version = version; kind = kind })
      | group ∷ version ∷ kind ∷ name ∷ [] ↦
          some (record { group = group; version = version; kind = kind })
      | _ ↦ none
    ]
    else none

unfoldable pub get_gvk_from_url : String → Option GroupVersionKind
unfolding gvk_of_parts trim split
get_gvk_from_url path = gvk_of_parts (split b'/' (trim (λ c. eqb c b'/') path))

-- `ServerResourcesForGroupVersion`: the name and the kind of each resource.
abbrev pub Discovery : Type 0
Discovery = String → Result Error (List (String × String))

unfoldable pub kind_of_plural :
    GroupVersionKind → List (String × String) → Result Error GroupVersionKind
kind_of_plural gvk [] = err (fault ("could not find GVK for plural name: " <> gvk.kind))
kind_of_plural gvk ((name, kind) ∷ rest) =
    if name == gvk.kind then ok (record gvk { kind = kind }) else kind_of_plural gvk rest

unfoldable pub replace_plural_with_kind :
    Discovery → GroupVersionKind → Result Error GroupVersionKind
unfolding kind_of_plural
replace_plural_with_kind discovery gvk =
    elim (discovery (if gvk.group == "" then gvk.version else gvk.group <> "/" <> gvk.version)) [
      | err e ↦ err e
      | ok resources ↦ kind_of_plural gvk resources
    ]

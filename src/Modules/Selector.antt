-- ===== src/Modules/Selector.antt =====
-- internal/modules/utils/selector.go: one selector for many requirements. A map is the list of its
-- entries in the order in which they were added; Go's order is arbitrary, and a selector is a
-- conjunction, for which the order does not matter.
use capsule_proxy.Prelude.{
  String, ◌||◌, Option, none, some, List, [], ◌∷◌, ◌++◌, ◌==◌, if◌then◌else◌, Result, ok, err,
}
use capsule_proxy.Errors.{Error, GroupKind, panic, new_not_found_error}
use capsule_proxy.Go.Text.{◌<>◌, split}
use capsule_proxy.Labels.{Labels, Requirement, Selector, LabelApi, in_operator, not_in_operator}
use capsule_proxy.RoleBindings.Lookup.{Found, hit, not_found, failed}

-- The operator of a key: those of equality are `in`, those of inequality `notin`.
unfoldable pub merged_operator : String → String
merged_operator operator =
    if operator == "=" || operator == "==" || operator == in_operator
    then in_operator
    else if operator == "!=" || operator == not_in_operator
    then not_in_operator
    else operator

unfoldable pub requirements_key : Requirement → String
unfolding merged_operator
requirements_key r = r.key <> ":" <> merged_operator r.operator

abbrev pub RequirementsMap : Type 0
RequirementsMap = List (String × List String)

-- The values of a new key, or their union with those of the key.
unfoldable pub add_values : String → List String → RequirementsMap → RequirementsMap
add_values k vs [] = (k, vs) ∷ []
add_values k vs ((j, ws) ∷ m) = if j == k then (j, ws ++ vs) ∷ m else (j, ws) ∷ add_values k vs m

unfoldable pub requirements_map : List Requirement → RequirementsMap → RequirementsMap
unfolding add_values requirements_key
requirements_map [] m = m
requirements_map (r ∷ rs) m = requirements_map rs (add_values (requirements_key r) r.values m)

abbrev out_of_range : Error
out_of_range = panic "index out of range"

-- The first two parts of a key.
unfoldable pub key_and_operator : List String → Result Error (String × String)
key_and_operator [] = err out_of_range
key_and_operator (key ∷ []) = err out_of_range
key_and_operator (key ∷ operator ∷ rest) = ok (key, operator)

module _ (api : LabelApi) where
  unfoldable pub add_requirements : RequirementsMap → Selector → Result Error Selector
  unfolding key_and_operator split
  add_requirements [] selector = ok selector
  add_requirements ((k, vs) ∷ m) selector = elim (key_and_operator (split b':' k)) [
    | err e ↦ err e
    | ok parts ↦ elim (api.new_requirement parts.0 parts.1 vs) [
      | err e ↦ err e
      | ok r ↦ add_requirements m (selector ++ r ∷ [])
    ]
  ]

  unfoldable pub handle_list_selector : List Requirement → Result Error Selector
  handle_list_selector requirements = add_requirements (requirements_map requirements []) []

  -- The loop over the requirements that stops at the first that the object matches.
  unfoldable pub first_matching : List Requirement → Labels → Option Requirement
  first_matching [] labels = none
  first_matching (r ∷ rs) labels = if api.matches r labels then some r else first_matching rs labels

  -- `object` is what `Get` answers for the name: the labels of the object.
  unfoldable pub handle_get_selector :
      Found Labels → List Requirement → String → GroupKind → Result Error Selector
  unfolding first_matching new_not_found_error
  handle_get_selector (failed e) requirements name gk = err e
  handle_get_selector not_found requirements name gk = err (new_not_found_error name gk)
  handle_get_selector (hit labels) requirements name gk =
      elim (first_matching requirements labels) [
        | none ↦ err (new_not_found_error name gk)
        | some r ↦ ok (r ∷ [])
      ]

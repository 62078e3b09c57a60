-- ===== src/Labels.antt =====
-- Labels and selectors of Kubernetes, which the program only calls. A selector is the list of the
-- requirements that were added to `labels.NewSelector()`.
use capsule_proxy.Prelude.{String, ◌≡◌, Bool, Option, List, contains, Result, ok}
use capsule_proxy.Errors.{Error}

abbrev pub Labels : Type 0
Labels = List (String × String)

pub record Requirement : Type 0 where
  pub key : String
  pub operator : String
  pub values : List String

abbrev pub Selector : Type 0
Selector = List Requirement

-- `metav1.LabelSelector`
pub record LabelSelector : Type 0 where
  pub match_labels : Labels
  pub match_expressions : List Requirement

-- The operators of `selection`.
abbrev pub in_operator : String
in_operator = "in"

abbrev pub not_in_operator : String
not_in_operator = "notin"

abbrev pub exists_operator : String
exists_operator = "exists"

pub record LabelApi : Type 0 where
  -- `NewRequirement`, which validates its arguments.
  pub new_requirement : String → String → List String → Result Error Requirement
  pub matches : Requirement → Labels → Bool
  -- `LabelSelectorAsSelector`, and what `Requirements()` returns: the list and `selectable`.
  pub as_selector : Option LabelSelector → Result Error (List Requirement × Bool)
  pub selector_string : Selector → String

-- What `NewRequirement` documents: a requirement has the key, the operator and the set of values
-- that it was made from.
pub record KeepsFields (api : LabelApi) : Type 0 where
  pub fields :
      (key operator : String) (vs : List String) (r : Requirement)
      → api.new_requirement key operator vs ≡ ok r
      → (r.key ≡ key)
        × (r.operator ≡ operator)
        × ((v : String) → contains r.values v ≡ contains vs v)

-- ===== src/Modules/Selecting.antt =====
-- What the one selector requires.
use capsule_proxy.Prelude.{
  String, Char, ◌≡◌, ◌⊎◌, refl, sym, ap, ◌∙◌, Bool, true, false, ◌||◌, ◌&&◌, List, [], ◌∷◌, ◌++◌,
  ◌==◌, eq_iff, ok, any, any-cong, contains, contains-append, arith, Result-cases, inl, inr, All,
  Bool-cases,
}
use capsule_proxy.Go.Text.{◌<>◌, split, has_char}
use capsule_proxy.Go.Splitting.{Lacks, split_of_Lacks, split-append, one-append}
use capsule_proxy.Labels.{
  Requirement, Selector, LabelApi, KeepsFields, in_operator, not_in_operator,
}
use capsule_proxy.Modules.Selector.{
  merged_operator, requirements_key, RequirementsMap, add_values, requirements_map,
  key_and_operator, add_requirements, handle_list_selector,
}

merged_cases :
    (o : String)
    → (merged_operator o ≡ in_operator)
      ⊎ (merged_operator o ≡ not_in_operator)
      ⊎ (merged_operator o ≡ o)
unfolding merged_operator
merged_cases o = elim (Bool-cases (o == "=" || o == "==" || o == in_operator)) [
  | inl t ↦ inl (rw t refl)
  | inr f ↦ elim (Bool-cases (o == "!=" || o == not_in_operator)) [
    | inl t ↦ inr (inl (rw (f, t) refl))
    | inr g ↦ inr (inr (rw (f, g) refl))
  ]
]

merged_idempotent : (o : String) → merged_operator (merged_operator o) ≡ merged_operator o
unfolding merged_operator
merged_idempotent o = elim (merged_cases o) [
  | inl e ↦ rw e refl
  | inr (inl e) ↦ rw e refl
  | inr (inr e) ↦ ap merged_operator e
]

merged-Lacks : (o : String) → Lacks b':' o → Lacks b':' (merged_operator o)
unfolding has_char
merged-Lacks o h = elim (merged_cases o) [
  | inl e ↦ rw e refl
  | inr (inl e) ↦ rw e refl
  | inr (inr e) ↦ rw e h
]

-- Key and operator of a requirement are texts without a colon, as Kubernetes has them.
pub record Plain (r : Requirement) : Type 0 where
  pub key : Lacks b':' r.key
  pub operator : Lacks b':' r.operator

-- A key of the map that stands for a key and a merged operator.
record Keyed (k : String) : Type 0 where
  key : String
  operator : String
  joined : k ≡ key <> ":" <> operator
  plain_key : Lacks b':' key
  plain_operator : Lacks b':' operator
  merged : merged_operator operator ≡ operator

Keyed-requirement : (r : Requirement) → Plain r → Keyed (requirements_key r)
unfolding requirements_key
Keyed-requirement r p = record {
  key = r.key;
  operator = merged_operator r.operator;
  joined = refl;
  plain_key = p.key;
  plain_operator = merged-Lacks r.operator p.operator;
  merged = merged_idempotent r.operator;
}

abbrev colon : Char
colon = ":"

split-key : {k : String} (e : Keyed k) → key_and_operator (split b':' k) ≡ ok (e.key, e.operator)
unfolding key_and_operator
split-key {k} e =
    let parts : split b':' (e.key <> ":" <> e.operator) ≡ e.key ∷ split b':' e.operator =
      rw (one-append colon e.operator)
        (split-append b':' e.key colon e.operator refl e.plain_key) in
    rw (e.joined, parts, split_of_Lacks b':' e.operator e.plain_operator) refl

any-append {ℓ} :
    {A : Type ℓ} (p : A → Bool) (xs ys : List A) → any p (xs ++ ys) ≡ (any p xs || any p ys)
unfolding any
any-append p [] ys = refl
any-append p (x ∷ xs) ys = ground (arith, any-append p xs ys)

-- The test of an entry: its key, and its values where `any_value` is not set.
module _ (any_value : Bool) (k v : String) where
  abbrev entry_has : String × List String → Bool
  entry_has entry = entry.0 == k && (any_value || contains entry.1 v)

  abbrev requirement_has : Requirement → Bool
  requirement_has r = requirements_key r == k && (any_value || contains r.values v)

  add_values-has :
      (j : String) (vs : List String) (m : RequirementsMap)
      → any entry_has (add_values j vs m)
        ≡ (any entry_has m || (j == k && (any_value || contains vs v)))
  unfolding any add_values
  add_values-has j vs [] = ground arith
  add_values-has j vs ((i, ws) ∷ m) =
      ground
        (arith, eq_iff i j, eq_iff i k, eq_iff j k, contains-append ws vs v, add_values-has j vs m)

  requirements_map-has :
      (rs : List Requirement) (m : RequirementsMap)
      → any entry_has (requirements_map rs m) ≡ (any entry_has m || any requirement_has rs)
  unfolding any requirements_map
  requirements_map-has [] m = ground arith
  requirements_map-has (r ∷ rs) m =
      requirements_map-has rs (add_values (requirements_key r) r.values m)
      ∙ ground (arith, add_values-has (requirements_key r) r.values m)

-- Every entry of the map has such a key.
abbrev AllKeyed : RequirementsMap → Type 0
AllKeyed m = All (λ (entry : String × List String). Keyed entry.0) m

add_values-Keyed :
    (k : String) (vs : List String) (m : RequirementsMap)
    → Keyed k
    → AllKeyed m
    → AllKeyed (add_values k vs m)
unfolding add_values
add_values-Keyed k vs [] e h = (e, tt)
add_values-Keyed k vs ((j, ws) ∷ m) e (d, h) =
    let rest = add_values-Keyed k vs m e h in
    elim (Bool-cases (j == k)) [ inl t ↦ rw t (d, h) | inr f ↦ rw f (d, rest) ]

requirements_map-Keyed :
    (rs : List Requirement) (m : RequirementsMap)
    → All Plain rs
    → AllKeyed m
    → AllKeyed (requirements_map rs m)
unfolding requirements_map
requirements_map-Keyed [] m ps h = h
requirements_map-Keyed (r ∷ rs) m (p, ps) h =
    requirements_map-Keyed rs (add_values (requirements_key r) r.values m) ps
      (add_values-Keyed (requirements_key r) r.values m (Keyed-requirement r p) h)

module _ (api : LabelApi) (fields : KeepsFields api) where
  built-key :
      {k : String} (e : Keyed k) (vs : List String) (r : Requirement)
      → api.new_requirement e.key e.operator vs ≡ ok r
      → requirements_key r ≡ k
  unfolding requirements_key
  built-key e vs r h =
      let kept = fields.fields e.key e.operator vs r h in
      rw (kept.0, kept.1, e.merged) (sym e.joined)

  add_requirements-has :
      (any_value : Bool) (k v : String) (m : RequirementsMap) (before after : Selector)
      → AllKeyed m
      → add_requirements api m before ≡ ok after
      → any (requirement_has any_value k v) after
        ≡ (any (requirement_has any_value k v) before || any (entry_has any_value k v) m)
  unfolding any add_requirements
  add_requirements-has any_value k v [] before after keyed h =
      let same : before ≡ after = cc h in rw (sym same) (ground arith)
  add_requirements-has any_value k v ((j, vs) ∷ m) before after (e, keyed) h =
      elim (Result-cases (api.new_requirement e.key e.operator vs)) [
        | inr (x, failed) ↦ absurd (cc (rw (split-key e, failed, add_requirements) at h))
        | inl (r, made) ↦
            let kept = fields.fields e.key e.operator vs r made in
            add_requirements-has any_value k v m (before ++ r ∷ []) after keyed
              (rw (split-key e, made, add_requirements) at h)
            ∙ ground (
              arith,
              any-append (requirement_has any_value k v) before (r ∷ []),
              kept.2 v,
              built-key e vs r made,
            )
      ]

  -- Where keys and operators have no colon, the one selector for a list of requirements, if there is
  -- one, requires of each key, under its merged operator, exactly the values that the requirements of
  -- the list name for it, and it speaks of no other key.
  pub list_selector-values :
      (rs : List Requirement) (selector : Selector)
      → All Plain rs
      → handle_list_selector api rs ≡ ok selector
      → (k v : String)
      → (any (λ r. requirements_key r == k) selector ≡ any (λ r. requirements_key r == k) rs)
        × (any (λ r. requirements_key r == k && contains r.values v) selector
            ≡ any (λ r. requirements_key r == k && contains r.values v) rs)
  unfolding handle_list_selector any
  list_selector-values rs selector plain h k v =
      let whole : (b : Bool)
          → any (requirement_has b k v) selector ≡ any (requirement_has b k v) rs =
        (λ b.
          add_requirements-has b k v (requirements_map rs []) [] selector
            (requirements_map-Keyed rs [] plain tt) h
          ∙ requirements_map-has b k v rs []) in
      (
        any-cong (λ r. requirements_key r == k) (requirement_has true k v) selector
              (λ r. ground arith)
            ∙ whole true
            ∙ any-cong (requirement_has true k v) (λ r. requirements_key r == k) rs
                (λ r. ground arith),
        whole false,
      )

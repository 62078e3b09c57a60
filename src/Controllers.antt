-- ===== src/Controllers.antt =====
-- internal/controllers/{proxy_setting,global_proxy_settings,capsule_configuration}.go: the controllers
-- that keep a status in step with its object, and the one that reads the users of Capsule.
pub mod Observed
use capsule_proxy.Prelude.{ℕ, String, Bool, true, false, List, [], ◌∷◌, Result, ok, err, is_empty}
use capsule_proxy.Errors.{Error, fault, panic, error_message}
use capsule_proxy.Go.Text.{◌<>◌}

-- `types.NamespacedName`; the namespace is blank for an object of the cluster.
pub record NamespacedName : Type 0 where
  pub namespace : String
  pub name : String

pub record Condition : Type 0 where
  pub kind : String
  pub status : String
  pub observed_generation : ℕ

-- A `ProxySetting` or a `GlobalProxySettings`, as far as the controllers are concerned.
pub record Object : Type 0 where
  pub key : NamespacedName
  pub generation : ℕ
  pub resource_version : ℕ
  pub observed_generation : ℕ
  pub conditions : List Condition

-- What `IsNotFound` and `IsConflict` tell apart.
pub data ApiError : Type 0 where
  is_not_found is_conflict : ApiError
  other : Error → ApiError

unfoldable pub api_message : ApiError → String
unfolding error_message
api_message is_not_found = "not found"
api_message is_conflict = "conflict"
api_message (other e) = error_message e

-- What a call of a client leads to: its error, and the world after it. The world `W` holds the API
-- server and whatever other clients are about to do.
abbrev pub Call : Type 0 → Type 0
Call W = W → Result ApiError Unit × W

pub record Api (W : Type 0) : Type 0 where
  -- `r.Client.Get`, from the cache.
  pub cached : NamespacedName → W → Result ApiError Object
  -- `r.reader.Get`
  pub get : NamespacedName → W → Result ApiError Object × W
  -- `r.Client.Status().Update`
  pub update : Object → Call W
  -- `retry.RetryOnConflict` with the default backoff.
  pub retry_on_conflict : Call W → Call W
  -- `NewReadyCondition` and `UpdateConditionByType`
  pub new_ready_condition : Object → Condition
  pub update_condition : Condition → List Condition → List Condition

module _ {W : Type 0} (api : Api W) where
  -- The status that is written.
  unfoldable pub observed : Object → Object
  observed latest =
      let current = record latest { observed_generation = latest.generation } in
      let ready = record (api.new_ready_condition current) {
        observed_generation = latest.generation;
      } in
      record current { conditions = api.update_condition ready latest.conditions }

  -- A missing object is no error.
  unfoldable pub written : Result ApiError Unit × W → Result ApiError Unit × W
  written (err is_not_found, w) = (ok tt, w)
  written (err is_conflict, w) = (err is_conflict, w)
  written (err (other e), w) = (err (other e), w)
  written (ok done, w) = (ok done, w)

  unfoldable pub write_status : Result ApiError Object × W → Result ApiError Unit × W
  unfolding observed written
  write_status (err is_not_found, w) = (ok tt, w)
  write_status (err is_conflict, w) = (err is_conflict, w)
  write_status (err (other e), w) = (err (other e), w)
  write_status (ok latest, w) = written (api.update (observed latest) w)

  -- The function that `RetryOnConflict` is given.
  unfoldable pub try_update : NamespacedName → Call W
  unfolding write_status
  try_update key w = write_status (api.get key w)

  unfoldable pub update_status : Object → Call W
  unfolding try_update
  update_status instance_of = api.retry_on_conflict (try_update instance_of.key)

  abbrev failed_update : String → Result ApiError Unit × W → Result ApiError Unit × W
  failed_update kind (ok done, w) = (ok done, w)
  failed_update kind (err e, w) =
      (err (other (fault ("cannot update " <> kind <> " status: " <> api_message e))), w)

  -- The rest of a `Reconcile`, by what the cache answers.
  unfoldable pub reconcile_found : String → W → Result ApiError Object → Result ApiError Unit × W
  unfolding update_status
  reconcile_found kind w (ok found) = failed_update kind (update_status found w)
  reconcile_found kind w (err is_not_found) = (ok tt, w)
  reconcile_found kind w (err is_conflict) = (err is_conflict, w)
  reconcile_found kind w (err (other e)) = (err (other e), w)

  -- `ProxySettingReconciler.Reconcile`
  unfoldable pub reconcile_proxy_setting : NamespacedName → Call W
  unfolding reconcile_found
  reconcile_proxy_setting key w = reconcile_found "ProxySetting" w (api.cached key w)

  -- `GlobalProxySettingsReconciler.Reconcile`
  unfoldable pub reconcile_global_proxy_settings : NamespacedName → Call W
  unfolding reconcile_found
  reconcile_global_proxy_settings key w = reconcile_found "GlobalProxySettings" w (api.cached key w)

-- The package's variables `CapsuleUsers` and `CapsuleUserGroups`.
pub record Globals : Type 0 where
  pub capsule_users : List String
  pub capsule_user_groups : List String

-- `get` reads a `CapsuleConfiguration` and `get_by_kinds` names its users of some kinds.
module _ {U : Type 0} (get : String → Result ApiError U)
    (get_by_kinds : U → List String → List String) where
  -- `SetupWithManager`: the new variables, and whether the controller runs.
  unfoldable pub setup_with_manager : String → List String → Globals → Result Error Globals
  setup_with_manager name deprecated g = elim (is_empty deprecated) [
    | false ↦ ok (record g { capsule_user_groups = deprecated })
    | true ↦ elim (get name) [
      | ok found ↦ ok g
      | err e ↦ elim e [
        | is_not_found ↦ err (fault ("CapsuleConfiguration " <> name <> " does not exist"))
        | failure ↦ err (fault ("unable to retrieve CapsuleConfiguration: " <> api_message failure))
      ]
    ]
  ]

  -- `Reconcile`, which panics where it cannot read the configuration.
  unfoldable pub reconcile_configuration : String → Globals → Result Error Globals
  reconcile_configuration name g = elim (get name) [
    | err e ↦ err (panic (api_message e))
    | ok found ↦ ok (record {
      capsule_users = get_by_kinds found ("User" ∷ "ServiceAccount" ∷ []);
      capsule_user_groups = get_by_kinds found ("Group" ∷ []);
    })
  ]

-- ===== src/Controllers/Observed.antt =====
-- What a status says after a controller of internal/controllers/{proxy_setting,
-- global_proxy_settings}.go has run: client-go's retries as a run of attempts, and the API server by
-- what it promises of a status update.
use mathlib.Core.List.{Memᴰ}
use capsule_proxy.Prelude.{
  String, ◌≡◌, ◌⊎◌, inl, inr, refl, sym, ap, subst, ◌∙◌, Option, none, some, List, Result, ok, err,
}
use capsule_proxy.Controllers.{
  NamespacedName, Condition, Object, ApiError, is_not_found, is_conflict, other, Call, Api,
  observed, written, write_status, try_update, update_status, failed_update, reconcile_found,
  reconcile_proxy_setting, reconcile_global_proxy_settings,
}

-- The calls that `RetryOnConflict` makes: after a conflict it may call again, once time has passed
-- and other clients have acted, and it answers what the last call answered.
pub data Ran {W : Type 0} (elapses : W → W → Type 0) (f : Call W)
    : W → Result ApiError Unit × W → Type 0 where
  last : {w : W} {out : Result ApiError Unit × W} → f w ≡ out → Ran elapses f w out
  again :
      {w later : W} {out : Result ApiError Unit × W}
      → (f w).0 ≡ err is_conflict
      → elapses (f w).1 later
      → Ran elapses f later out
      → Ran elapses f w out

-- What the API server and client-go promise. `stored` is what the server holds. An update of a
-- status with the resource version of a read, if it succeeds, found the object as it was read, with
-- that generation, and replaces its status.
pub record Promises {W : Type 0} (api : Api W) : Type 1 where
  pub elapses : W → W → Type 0
  pub stored : W → NamespacedName → Option Object
  pub retries : (f : Call W) (w : W) → Ran elapses f w (api.retry_on_conflict f w)
  pub cached_key : {k : NamespacedName} {w : W} {o : Object} → api.cached k w ≡ ok o → o.key ≡ k
  pub get_key : {k : NamespacedName} {w w' : W} {o : Object} → api.get k w ≡ (ok o, w') → o.key ≡ k
  pub get_missing :
      {k : NamespacedName} {w w' : W} → api.get k w ≡ (err is_not_found, w') → stored w' k ≡ none
  pub update_missing :
      {o : Object} {w w' : W} → api.update o w ≡ (err is_not_found, w') → stored w' o.key ≡ none
  pub update_stored :
      {k : NamespacedName} {read o : Object} {before w w' : W} {u : Unit}
      → api.get k before ≡ (ok read, w)
      → o.key ≡ read.key
      → o.resource_version ≡ read.resource_version
      → o.generation ≡ read.generation
      → api.update o w ≡ (ok u, w')
      → (s : Object) × (stored w' o.key ≡ some s)
        × (s.generation ≡ o.generation)
        × (s.observed_generation ≡ o.observed_generation)
        × (s.conditions ≡ o.conditions)
  pub condition_kept : (c : Condition) (cs : List Condition) → Memᴰ c (api.update_condition c cs)

module _ {W : Type 0} (api : Api W) (p : Promises api) where
  -- The object is gone, or its status and a condition of it carry its generation.
  pub UpToDate : W → NamespacedName → Type 0
  UpToDate w k =
      (p.stored w k ≡ none)
      ⊎ ((s : Object) × (p.stored w k ≡ some s)
          × (s.observed_generation ≡ s.generation)
          × (c : Condition) × Memᴰ c s.conditions
          × (c.observed_generation ≡ s.generation))

  written-ok :
      (r : Result ApiError Unit × W) (w' : W) (u : Unit)
      → written api r ≡ (ok u, w')
      → (r ≡ (ok tt, w')) ⊎ (r ≡ (err is_not_found, w'))
  unfolding written
  written-ok (err is_not_found, w) w' u h = inr (ap (λ s. (err is_not_found, s.1)) h)
  written-ok (err is_conflict, w) w' u h = absurd (cc (ap (λ s. s.0) h))
  written-ok (err (other e), w) w' u h = absurd (cc (ap (λ s. s.0) h))
  written-ok (ok done, w) w' u h = inl (ap (λ s. (ok tt, s.1)) h)

  written-UpToDate :
      (k : NamespacedName) (o : Object) (before w w' : W) (u : Unit)
      → api.get k before ≡ (ok o, w)
      → written api (api.update (observed api o) w) ≡ (ok u, w')
      → UpToDate w' o.key
  unfolding UpToDate observed
  written-UpToDate k o before w w' u e h =
      elim (written-ok (api.update (observed api o) w) w' u h) [
        | inr missing ↦ inl (p.update_missing missing)
        | inl done ↦
            let s = p.update_stored e refl refl refl done in
            let ready =
              record (api.new_ready_condition (record o { observed_generation = o.generation })) {
                observed_generation = o.generation;
              } in
            inr (
              s.0,
              s.1,
              s.3 ∙ sym s.2,
              ready,
              subst (Memᴰ ready) (sym s.4) (p.condition_kept ready o.conditions),
              sym s.2,
            )
      ]

  write_status-UpToDate :
      (k : NamespacedName) (w w' : W) (u : Unit) (r : Result ApiError Object × W)
      → api.get k w ≡ r
      → write_status api r ≡ (ok u, w')
      → UpToDate w' k
  unfolding write_status UpToDate
  write_status-UpToDate k w w' u (err is_not_found, v) e h =
      inl (p.get_missing (e ∙ ap (λ s. (err is_not_found, s)) (ap (λ s. s.1) h)))
  write_status-UpToDate k w w' u (err is_conflict, v) e h = absurd (cc (ap (λ s. s.0) h))
  write_status-UpToDate k w w' u (err (other f), v) e h = absurd (cc (ap (λ s. s.0) h))
  write_status-UpToDate k w w' u (ok o, v) e h =
      subst (UpToDate w') (p.get_key e) (written-UpToDate k o w v w' u e h)

  Ran-UpToDate :
      (k : NamespacedName) (w w' : W) (u : Unit) (out : Result ApiError Unit × W)
      → Ran p.elapses (try_update api k) w out
      → out ≡ (ok u, w')
      → UpToDate w' k
  unfolding try_update
  Ran-UpToDate k w w' u out (Ran.last e) h =
      write_status-UpToDate k w w' u (api.get k w) refl (e ∙ h)
  Ran-UpToDate k w w' u out (Ran.again c t r) h = Ran-UpToDate k _ w' u out r h

  failed_update-ok :
      (kind : String) (r : Result ApiError Unit × W) (w' : W) (u : Unit)
      → failed_update api kind r ≡ (ok u, w')
      → r ≡ (ok tt, w')
  failed_update-ok kind (ok done, w) w' u h = ap (λ s. (ok tt, s.1)) h
  failed_update-ok kind (err e, w) w' u h = absurd (cc (ap (λ s. s.0) h))

  reconcile_found-UpToDate :
      (kind : String) (k : NamespacedName) (w w' : W) (u : Unit) (c : Result ApiError Object)
      → api.cached k w ≡ c
      → reconcile_found api kind w c ≡ (ok u, w')
      → (c ≡ err is_not_found) ⊎ UpToDate w' k
  unfolding reconcile_found update_status
  reconcile_found-UpToDate kind k w w' u (err is_not_found) e h = inl refl
  reconcile_found-UpToDate kind k w w' u (err is_conflict) e h = absurd (cc (ap (λ s. s.0) h))
  reconcile_found-UpToDate kind k w w' u (err (other f)) e h = absurd (cc (ap (λ s. s.0) h))
  reconcile_found-UpToDate kind k w w' u (ok found) e h = inr (
      subst (UpToDate w') (p.cached_key e) (
        Ran-UpToDate found.key w w' tt _ (p.retries (try_update api found.key) w)
          (failed_update-ok kind (update_status api found w) w' u h)))

  -- A reconciliation of a ProxySetting or of a GlobalProxySettings that reports no error either
  -- found no such object in the cache, or leaves the server in a state where the object is gone or
  -- where its observed generation, and that of a condition of it, is its generation: conflicts with
  -- other clients are tried again or reported.
  pub reconcile-UpToDate :
      (k : NamespacedName) (w w' : W) (u : Unit)
      → (reconcile_proxy_setting api k w ≡ (ok u, w'))
        ⊎ (reconcile_global_proxy_settings api k w ≡ (ok u, w'))
      → (api.cached k w ≡ err is_not_found) ⊎ UpToDate w' k
  unfolding reconcile_proxy_setting reconcile_global_proxy_settings
  reconcile-UpToDate k w w' u (inl h) = reconcile_found-UpToDate _ k w w' u _ refl h
  reconcile-UpToDate k w w' u (inr h) = reconcile_found-UpToDate _ k w w' u _ refl h

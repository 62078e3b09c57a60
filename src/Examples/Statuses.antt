-- ===== src/Examples/Statuses.antt =====
-- An API server with one object, which another client is about to change.
use mathlib.Core.List.{Memᴰ}
use capsule_proxy.Prelude.{
  ℕ, zero, suc, sym, ◌∙◌, ok_injective, ◌≡◌, ◌⊎◌, inl, refl, ap, Bool-cases, inr, some, [], ◌∷◌,
  Result, ok, err, eqb, if◌then◌else◌, arith,
}
use capsule_proxy.Controllers.{
  NamespacedName, Object, ApiError, is_not_found, is_conflict, other, Call, Api,
  reconcile_proxy_setting,
}
use capsule_proxy.Controllers.Observed.{Ran, Promises, UpToDate, reconcile-UpToDate}

-- `others` counts the changes that the other client makes, each after a read.
record Server : Type 0 where
  object : Object
  others : ℕ

abbrev at_key : NamespacedName → Object → Object
at_key k o = record o { key = k }

abbrev changed : Object → Object
changed o = record o { generation = suc o.generation; resource_version = suc o.resource_version }

abbrev disturbed : Object → ℕ → Server
disturbed o zero = record { object = o; others = 0 }
disturbed o (suc n) = record { object = changed o; others = n }

abbrev replaced : Object → Server → Server
replaced o w = record w {
  object = record o { generation = w.object.generation; resource_version = suc o.resource_version };
}

abbrev put : Object → Call Server
put o w =
    if eqb o.resource_version w.object.resource_version
    then (ok tt, replaced o w)
    else (err is_conflict, w)

abbrev unless_conflict :
    Result ApiError Unit × Server → Result ApiError Unit × Server → Result ApiError Unit × Server
unless_conflict (err is_conflict, w) rest = rest
unless_conflict (err is_not_found, w) rest = (err is_not_found, w)
unless_conflict (err (other e), w) rest = (err (other e), w)
unless_conflict (ok done, w) rest = (ok done, w)

-- At most one more attempt than the number says.
abbrev attempts : ℕ → Call Server → Call Server
attempts zero f w = f w
attempts (suc n) f w = unless_conflict (f w) (attempts n f (f w).1)

abbrev one_object : Api Server
one_object = record {
  cached = λ k w. ok (at_key k w.object);
  get = λ k w. (ok (at_key k w.object), disturbed w.object w.others);
  update = put;
  retry_on_conflict = attempts 3;
  new_ready_condition = λ o. record { kind = "Ready"; status = "True"; observed_generation = 0 };
  update_condition = λ c cs. c ∷ [];
}

unless_conflict-Ran :
    (f : Call Server) (w : Server) (r rest : Result ApiError Unit × Server)
    → f w ≡ r
    → Ran (λ a b. a ≡ b) f r.1 rest
    → Ran (λ a b. a ≡ b) f w (unless_conflict r rest)
unless_conflict-Ran f w (err is_conflict, v) rest e more =
    Ran.again (ap (λ s. s.0) e) (ap (λ s. s.1) e) more
unless_conflict-Ran f w (err is_not_found, v) rest e more = Ran.last e
unless_conflict-Ran f w (err (other k), v) rest e more = Ran.last e
unless_conflict-Ran f w (ok done, v) rest e more = Ran.last e

attempts-Ran : (n : ℕ) (f : Call Server) (w : Server) → Ran (λ a b. a ≡ b) f w (attempts n f w)
attempts-Ran zero f w = Ran.last refl
attempts-Ran (suc n) f w = unless_conflict-Ran f w (f w) _ refl (attempts-Ran n f (f w).1)

disturbed-same :
    (o : Object) (n : ℕ)
    → (disturbed o n).object.resource_version ≡ o.resource_version
    → (disturbed o n).object.generation ≡ o.generation
disturbed-same o zero h = refl
disturbed-same o (suc n) h = absurd (omega (arith, h))

put-ok :
    (o : Object) (w w' : Server) (u : Unit)
    → put o w ≡ (ok u, w')
    → (o.resource_version ≡ w.object.resource_version) × (replaced o w ≡ w')
put-ok o w w' u h = elim (Bool-cases (eqb o.resource_version w.object.resource_version)) [
  | inl same ↦ (ground (arith, same), ap (λ s. s.1) (rw same at h))
  | inr apart ↦ absurd (cc (ap (λ s. s.0) (rw apart at h)))
]

put-found : (o : Object) (w w' : Server) → put o w ≡ (err is_not_found, w') → ⊥
put-found o w w' h = elim (Bool-cases (eqb o.resource_version w.object.resource_version)) [
  | inl same ↦ absurd (cc (ap (λ s. s.0) (rw same at h)))
  | inr apart ↦ absurd (cc (ap (λ s. s.0) (rw apart at h)))
]

read_again :
    (k : NamespacedName) (read o : Object) (before w w' : Server) (u : Unit)
    → one_object.get k before ≡ (ok read, w)
    → o.resource_version ≡ read.resource_version
    → o.generation ≡ read.generation
    → put o w ≡ (ok u, w')
    → (s : Object) × (some (at_key o.key w'.object) ≡ some s)
      × (s.generation ≡ o.generation)
      × (s.observed_generation ≡ o.observed_generation)
      × (s.conditions ≡ o.conditions)
read_again k read o before w w' u e version gen h =
    let r = put-ok o w w' u h in
    let got = ok_injective (ap (λ s. s.0) e) in
    let after = ap (λ s. s.1) e in
    let found = ap (λ s. s.resource_version) got in
    let newer = ap (λ s. s.object.resource_version) after in
    (
      at_key o.key w'.object,
      refl,
      sym (ap (λ s. s.object.generation) r.1)
          ∙ sym (ap (λ s. s.object.generation) after)
          ∙ disturbed-same before.object before.others (newer ∙ sym r.0 ∙ version ∙ sym found)
          ∙ ap (λ s. s.generation) got
          ∙ sym gen,
      sym (ap (λ s. s.object.observed_generation) r.1),
      sym (ap (λ s. s.object.conditions) r.1),
    )

server_promises : Promises one_object
server_promises = record {
  elapses = λ a b. a ≡ b;
  stored = λ w k. some (at_key k w.object);
  retries = attempts-Ran 3;
  cached_key = λ {k} {w} {o} e. sym (ap (λ s. s.key) (ok_injective e));
  get_key = λ {k} {w} {w'} {o} e. sym (ap (λ s. s.key) (ok_injective (ap (λ s. s.0) e)));
  get_missing = λ e. absurd (cc (ap (λ s. s.0) e));
  update_missing = λ {o} {w} {w'} e. absurd (put-found o w w' e);
  update_stored = λ {k} {read} {o} {before} {w} {w'} {u} e key version gen h.
      read_again k read o before w w' u e version gen h;
  condition_kept = λ c cs. Memᴰ.head refl;
}

abbrev settings_key : NamespacedName
settings_key = record { namespace = "oil"; name = "settings" }

abbrev settings_object : Object
settings_object = record {
  key = settings_key;
  generation = 3;
  resource_version = 7;
  observed_generation = 2;
  conditions = [];
}

abbrev before_reconcile : Server
before_reconcile = record { object = settings_object; others = 1 }

abbrev after_reconcile : Server
after_reconcile = record {
  object = record settings_object {
    generation = 4;
    resource_version = 9;
    observed_generation = 4;
    conditions = record { kind = "Ready"; status = "True"; observed_generation = 4 } ∷ [];
  };
  others = 0;
}

-- The first attempt meets a conflict, the second writes the status.
reconcile-UpToDate_example :
    (one_object.cached settings_key before_reconcile ≡ err is_not_found)
    ⊎ UpToDate one_object server_promises after_reconcile settings_key
unfolding reconcile_proxy_setting
reconcile-UpToDate_example =
    reconcile-UpToDate one_object server_promises settings_key before_reconcile after_reconcile tt
      (inl refl)

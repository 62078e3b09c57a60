-- ===== src/RoleBindings/Runs.antt =====
-- Requests that look up and store results while the informers' events come in. The reads of one
-- request are not atomic, so a result is known only where no event came between its first read and
-- its last.
use Prim.Native.Nat.{◌^◌}
use mathlib.Core.List.{Memᴰ}
use mathlib.Core.List.Memᴰ
use capsule_proxy.Prelude.{
  ℕ, suc, ◌<◌, ◌≤◌, String, ◌≡◌, refl, none, some, List, [], ◌∷◌, ◌++◌, lookup, arith, lookup,
  eq_iff, sym, subst, ap, ◌∙◌, ◌⊎◌, inl, inr,
}
use capsule_proxy.RoleBindings.Cache.{
  Reflector, cached_result, store_result, invalidate_results, cached-store,
}

-- A request between `resultGeneration` and `storeResult`: its key, the generation it read, and the
-- version of the informers' caches when it began to read them.
pub record Request : Type 0 where
  pub key : String
  pub generation : ℕ
  pub begun : ℕ

-- `version` counts the changes of the informers' caches, `pending` those whose handler has not run.
pub record State : Type 0 where
  pub version : ℕ
  pub pending : ℕ
  pub reflector : Reflector
  pub requests : List Request

abbrev pub initial : State
initial = record {
  version = 0;
  pending = 0;
  reflector = record { generation = 0; results = [] };
  requests = [];
}

store-generation :
    (r : Reflector) (key : String) (result : List String) (generation : ℕ)
    → (store_result r key result generation).generation ≡ r.generation
unfolding store_result
store-generation r key result generation = ground arith

found_cases :
    (r : Reflector) (key other : String) (result found : List String) (generation : ℕ)
    → cached_result (store_result r key result generation) other ≡ some found
    → ((generation ≡ r.generation) × (key ≡ other) × (result ≡ found))
      ⊎ (cached_result r other ≡ some found)
found_cases r key other result found generation h =
    let stored = cached-store r key other result generation in grind (arith, eq_iff key other)

-- `answer v key` is what the request of a key computes from the caches at the version `v`.
module _ (answer : ℕ → String → List String) where
  -- The states after `n` runs of the event handler.
  pub data Reachable : ℕ → State → Type 0 where
    start : Reachable 0 initial
    change :
        {n : ℕ} {s : State}
        → Reachable n s
        → Reachable n (record s { version = suc s.version; pending = suc s.pending })
    notify :
        {n : ℕ} {s : State} (k : ℕ)
        → s.pending ≡ suc k
        → Reachable n s
        → Reachable (suc n) (record s { pending = k; reflector = invalidate_results s.reflector })
    begin :
        {n : ℕ} {s : State} (key : String)
        → cached_result s.reflector key ≡ none
        → Reachable n s
        → Reachable n (record s {
          requests =
              record { key = key; generation = s.reflector.generation; begun = s.version }
              ∷ s.requests;
        })
    finish :
        {n : ℕ} {s : State} (before after : List Request) (q : Request) (result : List String)
        → s.requests ≡ before ++ q ∷ after
        → (q.begun ≡ s.version → result ≡ answer s.version q.key)
        → Reachable n s
        → Reachable n (record s {
          requests = before ++ after;
          reflector = store_result s.reflector q.key result q.generation;
        })
    -- The request fails: nothing is stored.
    fail :
        {n : ℕ} {s : State} (before after : List Request) (q : Request)
        → s.requests ≡ before ++ q ∷ after
        → Reachable n s
        → Reachable n (record s { requests = before ++ after })

  record Invariant (n : ℕ) (s : State) : Type 0 where
    counted : s.reflector.generation ≡ n
    fresh :
        (key : String) (result : List String)
        → s.pending ≡ 0
        → cached_result s.reflector key ≡ some result
        → result ≡ answer s.version key
    earlier : (q : Request) → Memᴰ q s.requests → q.generation ≤ n
    current :
        (q : Request) → Memᴰ q s.requests → s.pending ≡ 0 → q.generation ≡ n → q.begun ≡ s.version

  without :
      {x : Request} (q : Request) (before after all : List Request)
      → all ≡ before ++ q ∷ after
      → Memᴰ x (before ++ after)
      → Memᴰ x all
  without {x} q before after all e m =
      subst (λ l. Memᴰ x l) (sym e)
        (elim (Memᴰ.append_cases before m) [
          | inl l ↦ Memᴰ.append_left (q ∷ after) l
          | inr r ↦ Memᴰ.append_right before (Memᴰ.tail r)
        ])

  drop_request :
      {n : ℕ} {s : State} (before after : List Request) (q : Request)
      → s.requests ≡ before ++ q ∷ after
      → Invariant n s
      → Invariant n (record s { requests = before ++ after })
  drop_request {n} {s} before after q e i = record {
    counted = i.counted;
    fresh = i.fresh;
    earlier = λ x m. i.earlier x (without q before after s.requests e m);
    current = λ x m. i.current x (without q before after s.requests e m);
  }

  store :
      {n : ℕ} {s : State} (q : Request) (result : List String)
      → Memᴰ q s.requests
      → (q.begun ≡ s.version → result ≡ answer s.version q.key)
      → Invariant n s
      → Invariant n (record s { reflector = store_result s.reflector q.key result q.generation })
  store {n} {s} q result m r i = record {
    counted = store-generation s.reflector q.key result q.generation ∙ i.counted;
    fresh = λ key found settled hit.
        elim (found_cases s.reflector q.key key result found q.generation hit) [
          | inl (current, same, from) ↦
              sym from
              ∙ r (i.current q m settled (current ∙ i.counted))
              ∙ ap (answer s.version) same
          | inr old ↦ i.fresh key found settled old
        ];
    earlier = i.earlier;
    current = i.current;
  }

  begin_request :
      {n : ℕ} {s : State} (key : String)
      → Invariant n s
      → Invariant n (record s {
        requests =
            record { key = key; generation = s.reflector.generation; begun = s.version }
            ∷ s.requests;
      })
  begin_request {n} {s} key i = record {
    counted = i.counted;
    fresh = i.fresh;
    earlier = λ x m. elim (Memᴰ.cases_cons m) [
      | inl e ↦ rw e (omega (arith, i.counted))
      | inr old ↦ i.earlier x old
    ];
    current = λ x m settled now. elim (Memᴰ.cases_cons m) [
      | inl e ↦ ap (λ y. y.begun) e
      | inr old ↦ i.current x old settled now
    ];
  }

  Reachable-Invariant : {n : ℕ} {s : State} → n < 2 ^ 64 → Reachable n s → Invariant n s
  unfolding invalidate_results cached_result lookup
  Reachable-Invariant bound start = record {
    counted = refl;
    fresh = λ key found settled hit. cc hit;
    earlier = λ x m. elim m [ ];
    current = λ x m. elim m [ ];
  }
  Reachable-Invariant bound (change h) =
      let i = Reachable-Invariant bound h in
      record {
        counted = i.counted;
        fresh = λ key found settled hit. absurd (omega (arith, settled));
        earlier = i.earlier;
        current = λ x m settled now. absurd (omega (arith, settled));
      }
  Reachable-Invariant bound (notify k e h) =
      let i = Reachable-Invariant (omega arith) h in
      record {
        counted = omega (arith, i.counted);
        fresh = λ key found settled hit. cc hit;
        earlier = λ x m. omega (arith, i.earlier x m);
        current = λ x m settled now. absurd (omega (arith, i.earlier x m));
      }
  Reachable-Invariant bound (begin key e h) = begin_request key (Reachable-Invariant bound h)
  Reachable-Invariant bound (finish before after q result e r h) = drop_request before after q e (
      store q result (subst (λ l. Memᴰ q l) (sym e) (Memᴰ.append_right before (Memᴰ.head refl))) r
        (Reachable-Invariant bound h))
  Reachable-Invariant bound (fail before after q e h) =
      drop_request before after q e (Reachable-Invariant bound h)

  -- Where every event has been handled and there were fewer than 2 ^ 64 of them, a kept result that
  -- is found is the answer of the present caches, although requests overlap with the events: one
  -- that read across a change stores nothing, or stores what the event's handler removes.
  pub cached_result-IsFresh :
      {n : ℕ} {s : State} (key : String) (result : List String)
      → n < 2 ^ 64
      → Reachable n s
      → s.pending ≡ 0
      → cached_result s.reflector key ≡ some result
      → result ≡ answer s.version key
  cached_result-IsFresh key result bound h settled hit =
      (Reachable-Invariant bound h).fresh key result settled hit

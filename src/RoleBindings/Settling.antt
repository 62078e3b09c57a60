-- ===== src/RoleBindings/Settling.antt =====
-- Once the caches of the informers stop to change, the reflector comes to know their answer.
use Prim.Native.Nat.{◌^◌}
use capsule_proxy.Prelude.{
  ℕ, zero, suc, ◌+◌, ◌<◌, String, ◌≡◌, refl, ap, ◌∙◌, some, none, List, [], ◌∷◌, ◌++◌, arith,
  eq_refl, inl, inr, Option-cases,
}
use capsule_proxy.RoleBindings.Cache.{cached_result, store_result, cached-store}
use capsule_proxy.RoleBindings.Runs.{
  Request, State, Reachable, notify, begin, finish, cached_result-IsFresh,
}

module _ (answer : ℕ → String → List String) where
  -- The second run goes on from the first, without a change of the caches.
  pub data Quiet {n : ℕ} {s : State} (h : Reachable answer n s)
      : (m : ℕ) (t : State) → Reachable answer m t → Type 0 where
    stay : Quiet h n s h
    handled :
        {m : ℕ} {t : State} {g : Reachable answer m t} (k : ℕ) (e : t.pending ≡ suc k)
        → Quiet h m t g
        → Quiet h (suc m) _ (notify k e g)
    begun :
        {m : ℕ} {t : State} {g : Reachable answer m t} (key : String)
        (e : cached_result t.reflector key ≡ none)
        → Quiet h m t g
        → Quiet h m _ (begin key e g)
    finished :
        {m : ℕ} {t : State} {g : Reachable answer m t} (before after : List Request) (q : Request)
        (result : List String) (e : t.requests ≡ before ++ q ∷ after)
        (r : q.begun ≡ t.version → result ≡ answer t.version q.key)
        → Quiet h m t g
        → Quiet h m _ (finish before after q result e r g)

  -- A run that goes on quietly to a state where every event has been handled.
  record Settled {n : ℕ} {s : State} (h : Reachable answer n s) : Type 0 where
    count : ℕ
    state : State
    run : Reachable answer count state
    quiet : Quiet h count state run
    counted : count ≡ n + s.pending
    same_version : state.version ≡ s.version
    settled : state.pending ≡ 0

  settle :
      (k : ℕ) {n m : ℕ} {s t : State} (h : Reachable answer n s) (g : Reachable answer m t)
      → Quiet h m t g
      → t.pending ≡ k
      → m + k ≡ n + s.pending
      → t.version ≡ s.version
      → Settled h
  settle zero {m = m} {t = t} h g quiet e counted same = record {
    count = m;
    state = t;
    run = g;
    quiet = quiet;
    counted = omega arith;
    same_version = same;
    settled = e;
  }
  settle (suc k) h g quiet e counted same =
      settle k h (notify k e g) (handled k e quiet) refl (omega arith) same

  stored :
      (z : State) (key : String)
      → cached_result
          (store_result z.reflector key (answer z.version key) z.reflector.generation)
          key
        ≡ some (answer z.version key)
  stored z key =
      cached-store z.reflector key key (answer z.version key) z.reflector.generation
      ∙ ground (arith, eq_refl key)

  -- From every reachable state that has handled and still has to handle fewer than 2 ^ 64 events in all,
  -- there is a way to go on without a change of the caches, by handling the pending events and with at
  -- most one request of a key, to a state of the same version with no pending event whose kept result
  -- for the key is the answer of that version.
  pub quiet-known :
      {n : ℕ} {s : State} (key : String) (h : Reachable answer n s)
      → n + s.pending < 2 ^ 64
      → (m : ℕ) × (t : State) × (g : Reachable answer m t) × Quiet h m t g
        × (t.version ≡ s.version)
        × (t.pending ≡ 0)
        × (cached_result t.reflector key ≡ some (answer s.version key))
  quiet-known {n} {s} key h bound =
      let z = settle s.pending h h stay refl refl refl in
      elim (Option-cases (cached_result z.state.reflector key)) [
        | inr (result, kept) ↦
            let bounded : z.count < 2 ^ 64 = let counted = z.counted in omega arith in
            let fresh = cached_result-IsFresh answer key result bounded z.run z.settled kept in
            (
              z.count,
              z.state,
              z.run,
              z.quiet,
              z.same_version,
              z.settled,
              kept ∙ ap some (fresh ∙ ap (λ v. answer v key) z.same_version),
            )
        | inl missing ↦
            let q : Request = record {
              key = key;
              generation = z.state.reflector.generation;
              begun = z.state.version;
            } in
            let result = answer z.state.version key in
            (
              z.count,
              _,
              finish [] z.state.requests q result refl (λ e. refl) (begin key missing z.run),
              finished [] z.state.requests q result refl (λ e. refl) (begun key missing z.quiet),
              z.same_version,
              z.settled,
              stored z.state key ∙ ap (λ v. some (answer v key)) z.same_version,
            )
      ]

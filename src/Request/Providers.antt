-- ===== src/Request/Providers.antt =====
-- Which authentication provider decides, and which groups are left for impersonation.
use capsule_proxy.Prelude.{
  String, ◌≡◌, ◌≢◌, refl, Bool, not, ◌&&◌, none, some, List, [], ◌∷◌, ◌++◌, ok, err, keep, arith,
  All, Option-cases, inl, inr, ap, keep-keep,
}
use capsule_proxy.Errors.{Error, unauthorized}
use capsule_proxy.Go.Text.{join}
use capsule_proxy.Go.Header.{values}
use capsule_proxy.Request.World.{World, Identity}
use capsule_proxy.Request.Impersonation.{get_impersonating_groups, impersonate_group_header}
use capsule_proxy.Request.Http.{
  AuthType, anonymous, Config, HttpRequest, attempt, authenticate, authenticate_by,
}

module _ (w : World) (c : Config) (r : HttpRequest) where
  -- The provider `decides` follows the providers `skipped`, none of which identifies the client.
  pub record Decided (providers : List AuthType) (id : Identity) : Type 0 where
    pub skipped : List AuthType
    pub decides : AuthType
    pub others : List AuthType
    pub in_order : providers ≡ skipped ++ (decides ∷ others)
    pub fails : All (λ t. attempt w c r t ≡ none) skipped
    pub succeeds : attempt w c r decides ≡ some id

  authenticate_by-Decided :
      (ts : List AuthType) (id : Identity) → authenticate_by w c r ts ≡ ok id → Decided ts id
  unfolding authenticate_by
  authenticate_by-Decided [] id h = absurd (cc h)
  authenticate_by-Decided (t ∷ ts) id h = elim (Option-cases (attempt w c r t)) [
    | inl missed ↦
        let rest = authenticate_by-Decided ts id (ground arith) in
        record {
          skipped = t ∷ rest.skipped;
          decides = rest.decides;
          others = rest.others;
          in_order = cc (rest.in_order);
          fails = (missed, rest.fails);
          succeeds = rest.succeeds;
        }
    | inr (found, hit) ↦ record {
      skipped = [];
      decides = t;
      others = ts;
      in_order = refl;
      fails = tt;
      succeeds = ground arith;
    }
  ]

  authenticate_by_error :
      (ts : List AuthType) (e : Error)
      → authenticate_by w c r ts ≡ err e
      → All (λ t. attempt w c r t ≡ none) ts
        × (e
            ≡ unauthorized
                "no authentication provider available. unauthenticated users not supported")
  unfolding authenticate_by
  authenticate_by_error [] e h = (tt, cc h)
  authenticate_by_error (t ∷ ts) e h = elim (Option-cases (attempt w c r t)) [
    | inl missed ↦
        let rest = authenticate_by_error ts e (ground arith) in ((missed, rest.0), rest.1)
    | inr (found, hit) ↦ absurd (ground arith)
  ]

  attempt-anonymous : attempt w c r anonymous ≡ none
  unfolding attempt
  attempt-anonymous = refl

  -- An authenticated identity is that of the first configured provider that identifies the client,
  -- and this provider is not the anonymous one.
  pub authenticate-Decided :
      (id : Identity)
      → authenticate w c r ≡ ok id
      → (d : Decided c.auth_types id) × (d.decides ≢ anonymous)
  authenticate-Decided id h =
      let d = authenticate_by-Decided c.auth_types id (unfold authenticate in h) in
      (d, λ e. cc (d.succeeds, ap (attempt w c r) e, attempt-anonymous))

  -- The only error of the authentication is an unauthorized one, and it is returned only when no
  -- configured provider identifies the client.
  authenticate_error :
      (e : Error)
      → authenticate w c r ≡ err e
      → All (λ t. attempt w c r t ≡ none) c.auth_types
        × (e
            ≡ unauthorized
                "no authentication provider available. unauthenticated users not supported")
  authenticate_error e h = authenticate_by_error c.auth_types e (unfold authenticate in h)

-- The groups that are left for impersonation are those of the Impersonate-Group header, in their
-- order, that match the configured expression and do not match the pattern of the ignored groups.
get_impersonating_groups_filter :
    (w : World) (r : HttpRequest) (pattern : String) (patterns : List String)
    (wanted unwanted : String → Bool)
    → w.compile (join "|" (pattern ∷ patterns)) ≡ some unwanted
    → get_impersonating_groups w r.header (pattern ∷ patterns) (some wanted)
      ≡ ok (keep (λ g. wanted g && not (unwanted g)) (values r.header impersonate_group_header))
unfolding get_impersonating_groups
get_impersonating_groups_filter w r pattern patterns wanted unwanted compiled = ground (
  arith,
  compiled,
  keep-keep wanted (λ g. not (unwanted g)) (values r.header impersonate_group_header),
)

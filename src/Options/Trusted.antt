-- ===== src/Options/Trusted.antt =====
-- Where a request may come from, by the flag `trusted-proxy-cidrs`.
use mathlib.Core.List.{Memᴰ}
use capsule_proxy.Prelude.{
  String, ◌≡◌, ◌⊎◌, inl, inr, Bool, true, none, some, List, [], ◌∷◌, ◌++◌, ok, refl, arith, any,
  is_empty, All, Bool-cases, Result-cases, ok_injective, subst, sym,
}
use capsule_proxy.Go.Text.{is_blank, trim_space}
use capsule_proxy.Web.Middleware.{Net, is_from_trusted_source}
use capsule_proxy.Options.{Libraries, parse_cidrs_loop, parse_cidrs}

pub any-append_one {ℓ} :
    {A : Type ℓ} (p : A → Bool) (xs : List A) (y : A)
    → any p (xs ++ y ∷ []) ≡ true
    → (any p xs ≡ true) ⊎ (p y ≡ true)
unfolding any
any-append_one p [] y h = inr (ground (arith, h))
any-append_one p (x ∷ xs) y h = ground (arith, h, any-append_one p xs y)

append_one-not_empty {ℓ} : {A : Type ℓ} (xs : List A) (y : A) → ¬ (is_empty (xs ++ y ∷ []) ≡ true)
append_one-not_empty [] y h = absurd (cc h)
append_one-not_empty (x ∷ xs) y h = absurd (cc h)

-- `remoteAddr` without its port, if it has one.
abbrev pub host_of : Net → String → String
host_of net remote_addr = elim (net.split_host_port remote_addr) [ none ↦ remote_addr | some h ↦ h ]

is_from_trusted_source-cases :
    (net : Net) (addr : String) (cidrs : List String)
    → is_from_trusted_source net addr cidrs ≡ true
    → (is_empty cidrs ≡ true)
      ⊎ ((net.parse_ip (host_of net addr) ≡ true)
          × (any (λ c. net.network_contains c (host_of net addr)) cidrs ≡ true))
unfolding is_from_trusted_source
is_from_trusted_source-cases net addr cidrs h = elim (Bool-cases (is_empty cidrs)) [
  | inl empty ↦ inl empty
  | inr named ↦ elim (Bool-cases (net.parse_ip (host_of net addr))) [
    | inr bad ↦ absurd (cc (rw (named, bad, is_from_trusted_source) at h))
    | inl ip ↦ inr (ip, rw (named, ip, is_from_trusted_source) at h)
  ]
]

module _ (lib : Libraries) where
  -- One of the texts is a network that passes the test.
  pub record Parsed (p : String → Bool) (cidrs : List String) : Type 0 where
    pub cidr : String
    pub network : String
    pub listed : Memᴰ cidr cidrs
    pub parsed : lib.parse_cidr (trim_space cidr) ≡ ok network
    pub passes : p network ≡ true

  Parsed-tail :
      (p : String → Bool) (c : String) (cs : List String) → Parsed p cs → Parsed p (c ∷ cs)
  Parsed-tail p c cs found = record {
    cidr = found.cidr;
    network = found.network;
    listed = Memᴰ.tail found.listed;
    parsed = found.parsed;
    passes = found.passes;
  }

  parse_cidrs_loop-any :
      (p : String → Bool) (result cidrs networks : List String)
      → parse_cidrs_loop lib result cidrs ≡ ok networks
      → any p networks ≡ true
      → (any p result ≡ true) ⊎ Parsed p cidrs
  unfolding parse_cidrs_loop
  parse_cidrs_loop-any p result [] networks h found = inl (cc (h, found))
  parse_cidrs_loop-any p result (c ∷ cs) networks h found =
      elim (Bool-cases (is_blank (trim_space c))) [
        | inl blank ↦
            elim (parse_cidrs_loop-any p result cs networks (rw (blank, parse_cidrs_loop) at h)
              found) [ inl before ↦ inl before | inr later ↦ inr (Parsed-tail p c cs later) ]
        | inr named ↦ elim (Result-cases (lib.parse_cidr (trim_space c))) [
          | inr (e, failed) ↦ absurd (cc (rw (named, failed, parse_cidrs_loop) at h))
          | inl (network, parsed) ↦
              elim (parse_cidrs_loop-any p (result ++ network ∷ []) cs networks
                (rw (named, parsed, parse_cidrs_loop) at h) found) [
                  | inl before ↦ elim (any-append_one p result network before) [
                    | inl early ↦ inl early
                    | inr passes ↦ inr (record {
                      cidr = c;
                      network = network;
                      listed = Memᴰ.head refl;
                      parsed = parsed;
                      passes = passes;
                    })
                  ]
                  | inr later ↦ inr (Parsed-tail p c cs later)
                ]
        ]
      ]

  -- Where no network comes out, none was named.
  parse_cidrs_loop-empty :
      (result cidrs networks : List String)
      → parse_cidrs_loop lib result cidrs ≡ ok networks
      → is_empty networks ≡ true
      → (is_empty result ≡ true) × All (λ c. is_blank (trim_space c) ≡ true) cidrs
  unfolding parse_cidrs_loop
  parse_cidrs_loop-empty result [] networks h empty =
      (subst (λ xs. is_empty xs ≡ true) (sym (ok_injective h)) empty, tt)
  parse_cidrs_loop-empty result (c ∷ cs) networks h empty =
      elim (Bool-cases (is_blank (trim_space c))) [
        | inl blank ↦
            let rest =
              parse_cidrs_loop-empty result cs networks (rw (blank, parse_cidrs_loop) at h) empty in
            (rest.0, (blank, rest.1))
        | inr named ↦ elim (Result-cases (lib.parse_cidr (trim_space c))) [
          | inr (e, failed) ↦ absurd (cc (rw (named, failed, parse_cidrs_loop) at h))
          | inl (network, parsed) ↦ absurd (
              append_one-not_empty result network
                (parse_cidrs_loop-empty (result ++ network ∷ []) cs networks
                  (rw (named, parsed, parse_cidrs_loop) at h) empty).0)
        ]
      ]

  -- The networks of the flag, and the sources that they admit.
  pub trusted-Configured :
      (cidrs networks : List String) (addr : String)
      → parse_cidrs lib cidrs ≡ ok networks
      → is_from_trusted_source lib.net addr networks ≡ true
      → All (λ c. is_blank (trim_space c) ≡ true) cidrs
        ⊎ ((lib.net.parse_ip (host_of lib.net addr) ≡ true)
            × Parsed (λ c. lib.net.network_contains c (host_of lib.net addr)) cidrs)
  unfolding parse_cidrs any
  trusted-Configured cidrs networks addr h trusted =
      elim (is_from_trusted_source-cases lib.net addr networks trusted) [
        | inl empty ↦ inl (parse_cidrs_loop-empty [] cidrs networks h empty).1
        | inr (ip, inside) ↦ elim (parse_cidrs_loop-any _ [] cidrs networks h inside) [
          | inl none_yet ↦ absurd (cc none_yet)
          | inr found ↦ inr (ip, found)
        ]
      ]
